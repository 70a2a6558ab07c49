-- ===== src/Cash.antt =====
-- pmacs/engines/cash_ledger.py: the paper account. Each balance change inserts a row into the table
-- `paper_account`, whose newest row is the current state. The rows are a list, newest first. Logging
-- and the connection are not modelled; a method of `CashLedger` is a function on the rows.
pub mod Balance
pub mod Account
mod Examples
use automatic_trading.Prelude.{ℕ, Bool, true, false, not, List, [], ◌∷◌, if◌then◌else◌}
use automatic_trading.Float.{Num, zero_of, sum_from}

module _ (N : Num) where
  pub record Snapshot : Type 0 where
    pub snapshot_at : ℕ
    pub cash_usd : N.F
    pub positions_value_usd : N.F
    pub total_value_usd : N.F

  -- `starting` is STARTING_CAPITAL, which the configuration gives.
  module _ (starting : N.F) where
    -- seed(): the rows. It always returns STARTING_CAPITAL.
    unfoldable pub seed : ℕ → List Snapshot → List Snapshot
    seed now [] =
        record {
          snapshot_at = now;
          cash_usd = starting;
          positions_value_usd = zero_of N;
          total_value_usd = starting;
        }
        ∷ []
    seed now (s ∷ rows) = s ∷ rows

    -- get_balance()
    unfoldable pub get_balance : List Snapshot → N.F
    get_balance [] = starting
    get_balance (s ∷ rows) = s.cash_usd

    -- What `apply_flow` reads of the positions' value.
    unfoldable pub positions_value : List Snapshot → N.F
    positions_value [] = zero_of N
    positions_value (s ∷ rows) = s.positions_value_usd

    -- get_snapshot(): cash, positions' value and total.
    unfoldable pub get_snapshot : List Snapshot → N.F × N.F × N.F
    get_snapshot [] = (starting, zero_of N, starting)
    get_snapshot (s ∷ rows) = (s.cash_usd, s.positions_value_usd, s.total_value_usd)

    -- The balance after a flow, floored at zero.
    unfoldable pub new_cash : N.F → N.F → N.F
    new_cash cash amount =
        let sum = N.round2 (N.add cash amount) in if N.lt sum (zero_of N) then zero_of N else sum

    -- apply_flow(flow): the rows and the new balance. `amount` is the flow's `amount_usd`.
    unfoldable pub apply_flow : ℕ → N.F → List Snapshot → List Snapshot × N.F
    unfolding get_balance positions_value new_cash
    apply_flow now amount rows =
        let cash = new_cash (get_balance rows) amount in
        let positions = positions_value rows in
        (
          record {
            snapshot_at = now;
            cash_usd = cash;
            positions_value_usd = positions;
            total_value_usd = N.round2 (N.add cash positions);
          }
              ∷ rows,
          cash,
        )

    -- The total that `validate_total` compares with the one that it computes.
    stored_total : N.F → List Snapshot → N.F
    stored_total total [] = total
    stored_total total (s ∷ rows) = s.total_value_usd

    -- The second half of `validate_total`, over its own connection, with the balance that the first
    -- half read.
    unfoldable pub validate_with : N.F → ℕ → List N.F → List Snapshot → List Snapshot × Bool
    unfolding stored_total
    validate_with cash now values rows =
        let positions = N.round2 (sum_from N (zero_of N) values) in
        let total = N.round2 (N.add cash positions) in
        (
          record {
            snapshot_at = now;
            cash_usd = cash;
            positions_value_usd = positions;
            total_value_usd = total;
          }
              ∷ rows,
          not (N.lt (N.lit 1 2) (N.abs (N.sub (stored_total total rows) total))),
        )

    -- validate_total(position_values) with no other writer between its two halves: the rows, and
    -- whether the stored total was right.
    unfoldable pub validate_total : ℕ → List N.F → List Snapshot → List Snapshot × Bool
    unfolding validate_with get_balance
    validate_total now values rows = validate_with (get_balance rows) now values rows

-- A call of the ledger, with the time at which it runs.
pub data Call (N : Num) : Type 0 where
  seeds : ℕ → Call N
  applies : ℕ → N.F → Call N
  validates : ℕ → List N.F → Call N

module _ (N : Num) (starting : N.F) where
  unfoldable pub step : Call N → List (Snapshot N) → List (Snapshot N)
  step (seeds now) rows = seed N starting now rows
  step (applies now amount) rows = (apply_flow N starting now amount rows).0
  step (validates now values) rows = (validate_total N starting now values rows).0

  unfoldable pub run : List (Call N) → List (Snapshot N) → List (Snapshot N)
  unfolding step
  run [] rows = rows
  run (c ∷ cs) rows = run cs (step c rows)
