-- ===== src/Holding.antt =====
-- pmacs/schemas/contracts.py and pmacs/engines/state_machine.py: the states of a holding, the table of
-- transitions, and `transition`, the one place where a holding's state changes. The fields of
-- `Holding` that no transition touches are one value, `details`.
pub mod Table
pub mod Absorbing
pub mod Exits
pub mod Pipeline
pub mod Audited
mod Examples
unfoldable pub use Table.*
use automatic_trading.Prelude.{
  ℕ, Bool, true, false, ◌&&◌, not, String, List, [], ◌∷◌, Option, none, some, if◌then◌else◌,
}
use automatic_trading.Text.{Text, codes}
use automatic_trading.Canonical.{Payload, text, integer}
use automatic_trading.Audit.{Disk, Request, log_event}

pub record Holding (D : Type 0) : Type 0 where
  pub id : String
  pub state : HoldingState
  pub abort_reason : Option String
  pub exit_date : Option ℕ
  pub cycle_id_closed : Option String
  pub updated_at : Text
  pub details : D

-- What a call reads from the clock.
pub record Clock : Type 0 where
  pub now : Text
  pub today : ℕ

-- The arguments of `transition` beside the holding.
pub record Order : Type 0 where
  pub new_state : HoldingState
  pub reason : String
  pub cycle_id : String
  pub op_seq : ℕ
  pub clock : Clock

pub data Refusal : Type 0 where
  terminal_state : Refusal
  invalid_transition : Refusal

pub data Result {ℓ} (A : Type ℓ) : Type ℓ where
  ok : A → Result A
  refused : Refusal → Result A

module _ {A : Type 0} where
  -- What is there, or else the given value.
  abbrev pub or_else : Option A → A → Option A
  or_else none a = some a
  or_else (some b) a = some b

module _ {D : Type 0} where
  -- The assignments to the holding.
  unfoldable pub apply_order : Holding D → Order → Holding D
  apply_order h o =
      let s = o.new_state in
      record h {
        state = s;
        updated_at = o.clock.now;
        abort_reason = if is_abort_reason_state s then some o.reason else h.abort_reason;
        exit_date = if is_terminal s then or_else h.exit_date o.clock.today else h.exit_date;
        cycle_id_closed =
            if is_terminal s then or_else h.cycle_id_closed o.cycle_id else h.cycle_id_closed;
      }

  -- The event that goes to the audit log.
  pub transition_event : Holding D → Order → Request
  transition_event h o = record {
    iso_ts = o.clock.now;
    event_type = codes "state_transition";
    payload =
        (codes "holding_id", text (codes h.id))
        ∷ (codes "from", text (state_value h.state))
        ∷ (codes "to", text (state_value o.new_state))
        ∷ (codes "reason", text (codes o.reason))
        ∷ (codes "op_seq", integer o.op_seq)
        ∷ [];
    cycle_id = codes o.cycle_id;
  }

  -- The audit log behind a transition. `audited` says that an audit path is given.
  unfoldable pub recorded : (Text → Text) → Bool → Holding D → Order → Disk → Disk
  unfolding transition_event
  recorded digest audited h o d = if audited then log_event digest (transition_event h o) d else d

  -- transition(holding, …): the holding afterwards and the audit log. A refusal
  -- changes nothing.
  unfoldable pub transition :
      (Text → Text) → Bool → Holding D → Order → Disk → Result (Holding D × Disk)
  unfolding apply_order recorded
  transition digest audited h o d =
      if is_terminal h.state
      then refused terminal_state
      else if not (is_member o.new_state (valid_transitions h.state))
      then refused invalid_transition
      else ok (apply_order h o, recorded digest audited h o d)

-- is_valid_transition(current, target)
unfoldable pub is_valid_transition : HoldingState → HoldingState → Bool
is_valid_transition current target =
    if is_terminal current then false else is_member target (valid_transitions current)

module _ {D : Type 0} where
  -- A caller that goes on after a refusal.
  abbrev pub after : Holding D × Disk → Result (Holding D × Disk) → Holding D × Disk
  after s (ok t) = t
  after s (refused e) = s

  -- A history of orders for one holding.
  unfoldable pub run : (Text → Text) → Bool → List Order → Holding D × Disk → Holding D × Disk
  unfolding transition
  run digest audited [] s = s
  run digest audited (o ∷ os) (h, d) =
      run digest audited os (after (h, d) (transition digest audited h o d))
