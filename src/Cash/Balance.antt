-- ===== src/Cash/Balance.antt =====
-- What holds of every row of the paper account.
use automatic_trading.Prelude.{
  ℕ, true, not, ◌≡◌, refl, List, [], ◌∷◌, ◌++◌, All, arith, ◌∙◌, ap, sym, append_assoc,
}
use automatic_trading.Float.{Num, NumLaws, zero_of}
use automatic_trading.Cash.{
  Snapshot, seed, get_balance, new_cash, apply_flow, validate_with, validate_total, stored_total,
  Call, seeds, applies, validates, step, run,
}

module _ (N : Num) (laws : NumLaws N) (starting : N.F) where
  abbrev IsNonneg : N.F → Type 0
  IsNonneg a = N.le (zero_of N) a ≡ true

  new_cash-IsNonneg : (cash amount : N.F) → IsNonneg (new_cash N starting cash amount)
  unfolding new_cash
  new_cash-IsNonneg cash amount =
      ground
        (arith, laws.le_refl (zero_of N), laws.lt_not_le (N.round2 (N.add cash amount)) (zero_of N))

  -- No row has negative cash: there is no margin.
  abbrev pub NoMargin : List (Snapshot N) → Type 0
  NoMargin = All λ s. IsNonneg s.cash_usd

  get_balance-IsNonneg :
      (rows : List (Snapshot N))
      → IsNonneg starting
      → NoMargin rows
      → IsNonneg (get_balance N starting rows)
  unfolding get_balance
  get_balance-IsNonneg [] h k = h
  get_balance-IsNonneg (s ∷ rows) h k = k.0

  step-NoMargin :
      (c : Call N) (rows : List (Snapshot N))
      → IsNonneg starting
      → NoMargin rows
      → NoMargin (step N starting c rows)
  unfolding step seed apply_flow validate_total validate_with
  step-NoMargin (seeds now) [] h k = (h, tt)
  step-NoMargin (seeds now) (s ∷ rows) h k = k
  step-NoMargin (applies now amount) rows h k = (new_cash-IsNonneg _ amount, k)
  step-NoMargin (validates now values) rows h k = (get_balance-IsNonneg rows h k, k)

  -- No history of calls, whatever flows it has, puts a row with negative cash into the account, if the
  -- starting capital is not negative and there was none before.
  pub run-NoMargin :
      (cs : List (Call N)) (rows : List (Snapshot N))
      → N.le (zero_of N) starting ≡ true
      → NoMargin rows
      → NoMargin (run N starting cs rows)
  unfolding run
  run-NoMargin [] rows h k = k
  run-NoMargin (c ∷ cs) rows h k =
      run-NoMargin cs (step N starting c rows) h (step-NoMargin c rows h k)

  -- The rows before are below those after.
  abbrev pub Extends : List (Snapshot N) → List (Snapshot N) → Type 0
  Extends rows later = (added : List (Snapshot N)) × (later ≡ added ++ rows)

  step-Extends : (c : Call N) (rows : List (Snapshot N)) → Extends rows (step N starting c rows)
  unfolding step seed apply_flow validate_total validate_with
  step-Extends (seeds now) [] = (_ ∷ [], refl)
  step-Extends (seeds now) (s ∷ rows) = ([], refl)
  step-Extends (applies now amount) rows = (_ ∷ [], refl)
  step-Extends (validates now values) rows = (_ ∷ [], refl)

  -- Rows are only added: what was recorded before a history of calls is still there below.
  pub run-Extends :
      (cs : List (Call N)) (rows : List (Snapshot N)) → Extends rows (run N starting cs rows)
  unfolding run
  run-Extends [] rows = ([], refl)
  run-Extends (c ∷ cs) rows =
      let (first, e) = step-Extends c rows in
      let (rest, f) = run-Extends cs (step N starting c rows) in
      (rest ++ first, f ∙ ap (λ r. rest ++ r) e ∙ sym (append_assoc rest first rows))

  no_drift : (a : N.F) → not (N.lt (N.lit 1 2) (N.abs (N.sub a a))) ≡ true
  no_drift a =
      rw (laws.sub_self a, laws.abs_zero)
        (rw (laws.lt_not_le (N.lit 1 2) (zero_of N)) (rw (laws.lit_nonneg 1 2) refl))

  -- A total that was just validated is found right when it is validated again with the same position
  -- values, and the balance is unchanged by both.
  pub validate_total-twice :
      (t u : ℕ) (values : List N.F) (rows : List (Snapshot N))
      → let once = (validate_total N starting t values rows).0 in
        let again = validate_total N starting u values once in
        (again.1 ≡ true) × (get_balance N starting again.0 ≡ get_balance N starting rows)
  unfolding validate_total validate_with stored_total get_balance
  validate_total-twice t u values rows = (no_drift _, refl)
