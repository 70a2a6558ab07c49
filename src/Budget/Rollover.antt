-- ===== src/Budget/Rollover.antt =====
-- What the rollover makes of the periods.
use automatic_trading.Prelude.{
  Bool, false, not, ◌≡◌, refl, ap, ◌∙◌, str_eq, eq_iff, List, Option, none, some, arith,
  if◌then◌else◌, Bool-cases, inl, inr,
}
use automatic_trading.Float.{Num, zero_of}
use automatic_trading.Budget.{
  Dates, Period, Books, is_stale, roll_daily, rolled_daily, roll_monthly, rolled_monthly,
  roll_new_day, roll_new_month, Archived, reset, check_and_roll, total_or_zero,
}

module _ (N : Num) where
  abbrev pub total_if : Bool → N.F → N.F
  total_if stale total = if stale then zero_of N else total

  abbrev books : Option (Period N) → Option (Period N) → List (Archived N) → Books N
  books today this_month history = record {
    today = today;
    this_month = this_month;
    history = history;
  }

  roll_new_day_lem :
      (d : Dates) (p m : Option (Period N)) (h : List (Archived N))
      → let b = books p m h in
        let b' = roll_new_day N d b in
        (is_stale N d.today b'.today ≡ false)
        × (total_or_zero N b'.today ≡ total_if (is_stale N d.today p) (total_or_zero N p))
        × (b'.this_month ≡ m)
        × (is_stale N d.today p ≡ false → b' ≡ b)
  unfolding roll_new_day roll_daily rolled_daily is_stale reset total_or_zero
  roll_new_day_lem d none m h = (refl, refl, refl, λ _. refl)
  roll_new_day_lem d (some p) m h = elim (Bool-cases (str_eq p.period_start d.today)) [
    | inl f ↦ rw f (ap not f, refl, refl, λ _. refl)
    | inr f ↦ rw f (ground (arith, eq_iff d.today d.today), refl, refl, λ e. ground (arith, e))
  ]

  roll_new_month_lem :
      (d : Dates) (t p : Option (Period N)) (h : List (Archived N))
      → let b = books t p h in
        let b' = roll_new_month N d b in
        (is_stale N d.month_start b'.this_month ≡ false)
        × (total_or_zero N b'.this_month
            ≡ total_if (is_stale N d.month_start p) (total_or_zero N p))
        × (b'.today ≡ t)
        × (is_stale N d.month_start p ≡ false → b' ≡ b)
  unfolding roll_new_month roll_monthly rolled_monthly is_stale reset total_or_zero
  roll_new_month_lem d t none h = (refl, refl, refl, λ _. refl)
  roll_new_month_lem d t (some p) h = elim (Bool-cases (str_eq p.period_start d.month_start)) [
    | inl f ↦ rw f (ap not f, refl, refl, λ _. refl)
    | inr f ↦
        rw f
          (ground (arith, eq_iff d.month_start d.month_start), refl, refl, λ e. ground (arith, e))
  ]

  -- After the rollover each period that has a row began today, or this month; its total is zero where it
  -- had not, and as it was where it had. A second rollover on the same day changes nothing.
  pub check_and_roll_lem :
      (d : Dates) (b : Books N)
      → let b' = check_and_roll N d b in
        (is_stale N d.today b'.today ≡ false)
        × (is_stale N d.month_start b'.this_month ≡ false)
        × (total_or_zero N b'.today
            ≡ total_if (is_stale N d.today b.today) (total_or_zero N b.today))
        × (total_or_zero N b'.this_month
            ≡ total_if (is_stale N d.month_start b.this_month) (total_or_zero N b.this_month))
        × (check_and_roll N d b' ≡ b')
  unfolding check_and_roll
  check_and_roll_lem d b =
      let (p, q, r, _) = roll_new_day_lem d b.today b.this_month b.history in
      let c = roll_new_day N d b in
      let (s, t, u, _) = roll_new_month_lem d c.today c.this_month c.history in
      let e = roll_new_month N d c in
      let not_stale = ap (is_stale N d.today) u ∙ p in
      let day = (roll_new_day_lem d e.today e.this_month e.history).3 not_stale in
      let month = (roll_new_month_lem d e.today e.this_month e.history).3 s in
      (
        not_stale,
        s,
        ap (total_or_zero N) u ∙ q,
        t ∙ ap (λ m. total_if (is_stale N d.month_start m) (total_or_zero N m)) r,
        ap (roll_new_month N d) day ∙ month,
      )
