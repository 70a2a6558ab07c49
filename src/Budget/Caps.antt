-- ===== src/Budget/Caps.antt =====
-- What is spent, and when the kill switch is engaged for it.
use automatic_trading.Prelude.{
  Bool, true, false, ◌&&◌, ◌||◌, not, ◌≡◌, refl, sym, subst, ap, ◌∙◌, String, arith, if◌then◌else◌,
  Bool-cases, inl, inr,
}
use automatic_trading.Text.{Text}
use automatic_trading.Float.{Num, NumLaws}
use automatic_trading.KillSwitch.{Clock, is_engaged}
use automatic_trading.KillSwitch.Safety.{engage-is_engaged}
use automatic_trading.Budget.{
  Dates, Books, State, daily_hard, monthly_hard, BudgetCheckResult, check_and_roll, with_rolled,
  total_or_zero, checked, enforced, check_per_cycle_soft_cap, check_daily_hard_cap,
  check_monthly_hard_cap, and_check, all_allowed, enforce_monthly, enforce_hard, enforce_budgets,
  engage_budget_kill_switch, CapSettings, cap_or,
}
use automatic_trading.Budget.Rollover.{check_and_roll_lem}

or_true : (b : Bool) → true ≡ (b || true)
or_true b = ground arith

or_false : (b : Bool) → b ≡ (b || false)
or_false b = ground arith

module _ (N : Num) where
  -- The totals after the call's cost.
  abbrev pub spent_today : Dates → State N → N.F → N.F
  spent_today d s cost = N.add (total_or_zero N (check_and_roll N d s.books).today) cost

  abbrev pub spent_this_month : Dates → State N → N.F → N.F
  spent_this_month d s cost = N.add (total_or_zero N (check_and_roll N d s.books).this_month) cost

  -- What is known after some checks: whether they allow the call, whether the switch is engaged, and the
  -- tables.
  Holds : BudgetCheckResult N × State N → Bool → Bool → Books N → Type 0
  Holds x allowed engaged books =
      (x.0.allowed ≡ allowed) × (is_engaged x.1.world ≡ engaged) × (x.1.books ≡ books)

  and_check-Holds :
      (x : BudgetCheckResult N × State N) (next : State N → BudgetCheckResult N × State N)
      (a a' e e' : Bool) (b : Books N)
      → Holds x a e b
      → ((s : State N) → is_engaged s.world ≡ e → s.books ≡ b → Holds (next s) a' e' b)
      → Holds (and_check N x next) (a && a') (if a then e' else e) b
  unfolding Holds and_check
  and_check-Holds (r, s) next a a' e e' b (p, q, k) h = elim (Bool-cases r.allowed) [
    | inl f ↦
        let (l, m, n) = h s q k in
        let t = sym f ∙ p in
        rw (f, and_check) (l ∙ ap (λ x. x && a') t, m ∙ ap (λ x. if x then e' else e) t, n)
    | inr f ↦
        let t = sym f ∙ p in
        rw (f, and_check) (ap (λ x. x && a') t, q ∙ ap (λ x. if x then e' else e) t, k)
  ]

  weaken :
      (a a' e e' : Bool) (b : Books N) (x : BudgetCheckResult N × State N)
      → Holds x a e b
      → a ≡ a'
      → e ≡ e'
      → Holds x a' e' b
  unfolding Holds
  weaken a a' e e' b x (p, q, r) k l = (p ∙ k, q ∙ l, r)

  module _ (digest : Text → Text) (reason_of : N.F → N.F → String) where
    enforced-Holds :
        (clock : Clock) (trigger : String) (r : BudgetCheckResult N) (s : State N) (e : Bool)
        → is_engaged s.world ≡ e
        → Holds
            (enforced N digest reason_of clock trigger r s)
            r.allowed
            (e || not r.allowed)
            s.books
    unfolding Holds enforced engage_budget_kill_switch
    enforced-Holds clock trigger r s e h = elim (Bool-cases r.allowed) [
      | inl f ↦ rw (f, enforced) (refl, h ∙ or_false e, refl)
      | inr f ↦ rw (f, enforced) (refl, engage-is_engaged digest _ _ s.world ∙ or_true e, refl)
    ]

    check_daily_hard_cap-Holds :
        (clock : Clock) (d : Dates) (cost cap : N.F) (s : State N) (e : Bool) (b : Books N)
        → is_engaged s.world ≡ e
        → s.books ≡ b
        → check_and_roll N d b ≡ b
        → let ok = N.le (N.add (total_or_zero N b.today) cost) cap in
          Holds (check_daily_hard_cap N digest reason_of clock d cost cap s) ok (e || not ok) b
    unfolding check_daily_hard_cap with_rolled checked
    check_daily_hard_cap-Holds clock d cost cap s e b h k l =
        let rolled = ap (check_and_roll N d) k ∙ l in
        subst
          (λ c.
            let ok = N.le (N.add (total_or_zero N c.today) cost) cap in
            Holds (check_daily_hard_cap N digest reason_of clock d cost cap s) ok (e || not ok) c)
          rolled
          (enforced-Holds clock "CYCLE_BLOCKED_BUDGET_DAILY"
            (checked N daily_hard (total_or_zero N (check_and_roll N d s.books).today) cost cap)
            (with_rolled N d s) e h)

    check_monthly_hard_cap-Holds :
        (clock : Clock) (d : Dates) (cost cap : N.F) (s : State N) (e : Bool) (b : Books N)
        → is_engaged s.world ≡ e
        → s.books ≡ b
        → check_and_roll N d b ≡ b
        → let ok = N.le (N.add (total_or_zero N b.this_month) cost) cap in
          Holds (check_monthly_hard_cap N digest reason_of clock d cost cap s) ok (e || not ok) b
    unfolding check_monthly_hard_cap with_rolled checked
    check_monthly_hard_cap-Holds clock d cost cap s e b h k l =
        let rolled = ap (check_and_roll N d) k ∙ l in
        subst
          (λ c.
            let ok = N.le (N.add (total_or_zero N c.this_month) cost) cap in
            Holds (check_monthly_hard_cap N digest reason_of clock d cost cap s) ok (e || not ok) c)
          rolled
          (enforced-Holds clock "CYCLE_BLOCKED_BUDGET_MONTHLY"
            (checked N monthly_hard (total_or_zero N (check_and_roll N d s.books).this_month) cost
              cap)
            (with_rolled N d s) e h)

    check_per_cycle_soft_cap-Holds :
        (d : Dates) (cost cap : N.F) (s : State N)
        → Holds
            (check_per_cycle_soft_cap N d cost cap s)
            (N.le (spent_today d s cost) cap)
            (is_engaged s.world)
            (check_and_roll N d s.books)
    unfolding check_per_cycle_soft_cap with_rolled checked Holds
    check_per_cycle_soft_cap-Holds d cost cap s = (refl, refl, refl)

    all_allowed-Holds :
        (s : State N) (e : Bool) (b : Books N)
        → is_engaged s.world ≡ e
        → s.books ≡ b
        → Holds (all_allowed N, s) true e b
    unfolding all_allowed Holds
    all_allowed-Holds s e b h k = (refl, h, k)

    enforce_monthly-Holds :
        (clock : Clock) (d : Dates) (monthly cost : N.F) (s : State N) (e : Bool) (b : Books N)
        → is_engaged s.world ≡ e
        → s.books ≡ b
        → check_and_roll N d b ≡ b
        → let ok = N.le (N.add (total_or_zero N b.this_month) cost) monthly in
          Holds (enforce_monthly N digest reason_of clock d monthly cost s) ok (e || not ok) b
    unfolding enforce_monthly
    enforce_monthly-Holds clock d monthly cost s e b h k l =
        let ok = N.le (N.add (total_or_zero N b.this_month) cost) monthly in
        weaken _ _ _ _ b _
          (and_check-Holds (check_monthly_hard_cap N digest reason_of clock d cost monthly s)
            (λ s'. (all_allowed N, s')) ok true (e || not ok) (e || not ok) b
            (check_monthly_hard_cap-Holds clock d cost monthly s e b h k l)
            λ s' h' k'. all_allowed-Holds s' _ b h' k')
          (ground arith) (ground arith)

    enforce_hard-Holds :
        (clock : Clock) (d : Dates) (daily monthly cost : N.F) (s : State N) (e : Bool)
        (b : Books N)
        → is_engaged s.world ≡ e
        → s.books ≡ b
        → check_and_roll N d b ≡ b
        → let hard =
            N.le (N.add (total_or_zero N b.today) cost) daily
            && N.le (N.add (total_or_zero N b.this_month) cost) monthly in
          Holds
            (enforce_hard N digest reason_of clock d daily monthly cost s)
            hard
            (e || not hard)
            b
    unfolding enforce_hard
    enforce_hard-Holds clock d daily monthly cost s e b h k l =
        let ok = N.le (N.add (total_or_zero N b.today) cost) daily in
        let ok' = N.le (N.add (total_or_zero N b.this_month) cost) monthly in
        weaken _ _ _ _ b _
          (and_check-Holds (check_daily_hard_cap N digest reason_of clock d cost daily s)
            (enforce_monthly N digest reason_of clock d monthly cost) ok ok' (e || not ok)
            ((e || not ok) || not ok') b (check_daily_hard_cap-Holds clock d cost daily s e b h k l)
            λ s' h' k'. enforce_monthly-Holds clock d monthly cost s' (e || not ok) b h' k' l)
          refl (ground arith)

    -- A call is allowed exactly if its cost keeps today's total within the cycle's and the day's cap and
    -- the month's total within its cap, totals of past periods not counted. The kill switch is engaged
    -- afterwards exactly if it was before, or the cycle's cap allows the call and one of the others does
    -- not. The tables are those after the rollover.
    pub enforce_budgets_lem :
        (clock : Clock) (d : Dates) (daily monthly cycle : N.F) (caps : CapSettings N) (cost : N.F)
        (s : State N)
        → let soft = N.le (spent_today d s cost) (cap_or N caps.cycle cycle) in
          let hard =
            N.le (spent_today d s cost) (cap_or N caps.daily daily)
            && N.le (spent_this_month d s cost) (cap_or N caps.monthly monthly) in
          let (r, s') =
            enforce_budgets N digest reason_of clock d (daily, monthly, cycle) caps cost s in
          (r.allowed ≡ (soft && hard))
          × (is_engaged s'.world ≡ (is_engaged s.world || (soft && not hard)))
          × (s'.books ≡ check_and_roll N d s.books)
    unfolding enforce_budgets Holds
    enforce_budgets_lem clock d daily monthly cycle caps cost s =
        let b = check_and_roll N d s.books in
        let day = cap_or N caps.daily daily in
        let mon = cap_or N caps.monthly monthly in
        let (p, q, r) =
          and_check-Holds (check_per_cycle_soft_cap N d cost (cap_or N caps.cycle cycle) s)
            (enforce_hard N digest reason_of clock d day mon cost)
            (N.le (spent_today d s cost) (cap_or N caps.cycle cycle)) _ (is_engaged s.world) _ b
            (check_per_cycle_soft_cap-Holds d cost (cap_or N caps.cycle cycle) s)
            λ s' h k.
              enforce_hard-Holds clock d day mon cost s' (is_engaged s.world) b h k
                (check_and_roll_lem N d s.books).4 in
        (p, q ∙ ground arith, r)

    -- Where the cycle's cap is at most the day's, as in the defaults, the day's cap never engages the kill
    -- switch: the switch is engaged afterwards exactly if it was before, or the cycle's cap allows the
    -- call and the month's does not.
    pub enforce_budgets-shadowed :
        NumLaws N
        → (clock : Clock) (d : Dates) (daily monthly cycle : N.F) (caps : CapSettings N)
          (cost : N.F) (s : State N)
        → N.le (cap_or N caps.cycle cycle) (cap_or N caps.daily daily) ≡ true
        → let soft = N.le (spent_today d s cost) (cap_or N caps.cycle cycle) in
          let month = N.le (spent_this_month d s cost) (cap_or N caps.monthly monthly) in
          let s' =
            (enforce_budgets N digest reason_of clock d (daily, monthly, cycle) caps cost s).1 in
          is_engaged s'.world ≡ (is_engaged s.world || (soft && not month))
    enforce_budgets-shadowed laws clock d daily monthly cycle caps cost s h =
        let (p, q, r) = enforce_budgets_lem clock d daily monthly cycle caps cost s in
        q
        ∙ ground (
          arith,
          h,
          laws.le_trans (spent_today d s cost) (cap_or N caps.cycle cycle)
              (cap_or N caps.daily daily),
        )
