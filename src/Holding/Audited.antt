-- ===== src/Holding/Audited.antt =====
-- The audit log of a holding's transitions: what `transition` writes over a history of orders, against
-- the entries that the table of transitions calls for.
use automatic_trading.Prelude.{◌++◌, String, if◌then◌else◌, true, List, [], ◌∷◌}
use automatic_trading.Text.{Text, codes}
use automatic_trading.Canonical.{text, integer}
use automatic_trading.Audit.Entries.{Body, bodies_of}
use automatic_trading.Audit.{Request, Disk}
use automatic_trading.Audit.Chain.{IsWord}
use automatic_trading.Audit.Verified.{IsSmall}
use automatic_trading.Holding.{
  HoldingState, state_value, is_valid_transition, Holding, Order, transition, after,
}

-- The time of the order, as `datetime.isoformat` gives it, shows.
abbrev pub IsStamped : Order → Type 0
IsStamped o = IsWord o.clock.now

module _ {D : Type 0} (digest : Text → Text) where
  -- No order of the history finds a log that is due for rotation.
  abbrev pub RunStaysSmall : List Order → Holding D → Disk → Type 0
  RunStaysSmall [] h d = Unit {0}
  RunStaysSmall (o ∷ os) h d =
      IsSmall d × (let s = after (h, d) (transition digest true h o d) in RunStaysSmall os s.0 s.1)

-- What `transition` says to the log of an order that took a holding out of a state.
abbrev pub request_of : String → HoldingState → Order → Request
request_of id from o = record {
  iso_ts = o.clock.now;
  event_type = codes "state_transition";
  payload =
      (codes "holding_id", text (codes id))
      ∷ (codes "from", text (state_value from))
      ∷ (codes "to", text (state_value o.new_state))
      ∷ (codes "reason", text (codes o.reason))
      ∷ (codes "op_seq", integer o.op_seq)
      ∷ [];
  cycle_id = codes o.cycle_id;
}

-- The entries that a history of orders should leave, from the state before it: one for each order that
-- `is_valid_transition` lets through, and none for the others.
pub history : String → HoldingState → List Order → List Body
unfolding is_valid_transition
history id s [] = []
history id s (o ∷ os) =
    let carried = bodies_of (request_of id s o) ++ history id o.new_state os in
    let refused = history id s os in if is_valid_transition s o.new_state then carried else refused
