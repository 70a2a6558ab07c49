-- ===== src/Cash/Account.antt =====
-- The paper account as three amounts, which is all that its users see of the table.
use automatic_trading.Prelude.{◌≡◌, refl, ap, ◌∙◌, List, [], ◌∷◌, if◌then◌else◌}
use automatic_trading.Float.{Num, sum_from}
use automatic_trading.Cash.{
  Snapshot, seed, get_balance, get_snapshot, positions_value, new_cash, apply_flow, validate_with,
  validate_total, Call, seeds, applies, validates, step, run,
}

module _ (N : Num) where
  pub record Account : Type 0 where
    pub cash : N.F
    pub positions : N.F
    pub total : N.F

  -- A flow changes the cash, which never falls below zero, and the total with it.
  abbrev pub flowed : N.F → Account → Account
  flowed amount a =
      let sum = N.round2 (N.add a.cash amount) in
      let cash = if N.lt sum (N.lit 0 0) then N.lit 0 0 else sum in
      record { cash = cash; positions = a.positions; total = N.round2 (N.add cash a.positions) }

  -- A validation takes over the positions' values, and leaves the cash as it is.
  abbrev pub revalued : List N.F → Account → Account
  revalued values a =
      let positions = N.round2 (sum_from N (N.lit 0 0) values) in
      record { cash = a.cash; positions = positions; total = N.round2 (N.add a.cash positions) }

  abbrev pub stepped : Call N → Account → Account
  stepped (seeds now) a = a
  stepped (applies now amount) a = flowed amount a
  stepped (validates now values) a = revalued values a

  -- What a history of calls does to the account.
  abbrev pub account_after : List (Call N) → Account → Account
  account_after [] a = a
  account_after (c ∷ cs) a = account_after cs (stepped c a)

  module _ (starting : N.F) where
    -- What get_snapshot shows of the table.
    abbrev pub shown : List (Snapshot N) → Account
    shown rows =
        let (cash, positions, total) = get_snapshot N starting rows in
        record { cash = cash; positions = positions; total = total }

    shown-step :
        (c : Call N) (rows : List (Snapshot N))
        → shown (step N starting c rows) ≡ stepped c (shown rows)
    unfolding step seed apply_flow new_cash positions_value validate_total validate_with get_balance
        get_snapshot
    shown-step (seeds now) [] = refl
    shown-step (seeds now) (s ∷ rows) = refl
    shown-step (applies now amount) [] = refl
    shown-step (applies now amount) (s ∷ rows) = refl
    shown-step (validates now values) [] = refl
    shown-step (validates now values) (s ∷ rows) = refl

    get_balance-shown : (rows : List (Snapshot N)) → get_balance N starting rows ≡ (shown rows).cash
    unfolding get_balance get_snapshot
    get_balance-shown [] = refl
    get_balance-shown (s ∷ rows) = refl

    shown-run :
        (cs : List (Call N)) (rows : List (Snapshot N))
        → shown (run N starting cs rows) ≡ account_after cs (shown rows)
    unfolding run
    shown-run [] rows = refl
    shown-run (c ∷ cs) rows =
        shown-run cs (step N starting c rows) ∙ ap (account_after cs) (shown-step c rows)

    -- The table implements an account of three amounts: after any history of calls, get_snapshot and
    -- get_balance show what the account comes to by the flows and validations alone, from what they
    -- showed before. Flows keep the positions' value, validations keep the cash, and a seed is not seen,
    -- on an empty table either.
    pub run-account_after :
        (cs : List (Call N)) (rows : List (Snapshot N))
        → let a = account_after cs (shown rows) in
          (get_snapshot N starting (run N starting cs rows) ≡ (a.cash, a.positions, a.total))
          × (get_balance N starting (run N starting cs rows) ≡ a.cash)
    run-account_after cs rows =
        let e = shown-run cs rows in
        (
          ap (λ a. (a.cash, a.positions, a.total)) e,
          get_balance-shown (run N starting cs rows) ∙ ap (λ a. a.cash) e,
        )
