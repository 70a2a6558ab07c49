-- ===== src/Mode.antt =====
-- pmacs/engines/mode_manager.py with the modes of pmacs/schemas/system.py: from installing up to live
-- trading. The time of a ModeTransition is left out.
pub mod Ladder
mod Examples
use automatic_trading.Prelude.{
  ℕ, Bool, true, false, ◌&&◌, not, String, List, [], ◌∷◌, ltb, if◌then◌else◌,
}

pub data Mode : Type 0 where
  installing shadow paper paper_validated live_early live_standard live_expanded : Mode

pub Mode-discrete : Discrete Mode
Mode-discrete = hlevel

-- MODE_RANK
unfoldable pub mode_rank : Mode → ℕ
mode_rank installing = 0
mode_rank shadow = 1
mode_rank paper = 2
mode_rank paper_validated = 3
mode_rank live_early = 4
mode_rank live_standard = 5
mode_rank live_expanded = 6

-- CONFIRMATION_REQUIRED_MODES, which is also `requires_confirmation`.
unfoldable pub requires_confirmation : Mode → Bool
requires_confirmation paper_validated = true
requires_confirmation live_early = true
requires_confirmation live_standard = true
requires_confirmation live_expanded = true
requires_confirmation _ = false

-- VALID_MODE_TRANSITIONS, which is also `get_valid_transitions`.
unfoldable pub valid_mode_transitions : Mode → List Mode
valid_mode_transitions installing = shadow ∷ paper ∷ []
valid_mode_transitions shadow = paper ∷ []
valid_mode_transitions paper = paper_validated ∷ shadow ∷ []
valid_mode_transitions paper_validated = live_early ∷ paper ∷ []
valid_mode_transitions live_early = live_standard ∷ paper_validated ∷ []
valid_mode_transitions live_standard = live_expanded ∷ live_early ∷ []
valid_mode_transitions live_expanded = live_standard ∷ []

unfoldable pub is_mode_of : Mode → List Mode → Bool
unfolding Mode-discrete
is_mode_of m [] = false
is_mode_of m (n ∷ ns) =
    let rest = is_mode_of m ns in elim (Mode-discrete m n) [ yes _ ↦ true | no _ ↦ rest ]

-- can_transition(from_mode, to_mode)
unfoldable pub can_transition : Mode → Mode → Bool
unfolding is_mode_of valid_mode_transitions
can_transition from_mode to_mode = is_mode_of to_mode (valid_mode_transitions from_mode)

pub record ModeTransition : Type 0 where
  pub from_mode : Mode
  pub to_mode : Mode
  pub reason : String
  pub operator_confirmed : Bool
  pub triggered_by : String

-- The two messages of the ValueError.
pub data Attempt : Type 0 where
  moved : ModeTransition → Attempt
  invalid_mode : Attempt
  unconfirmed : Attempt

-- transition_mode(from_mode, to_mode, reason, operator_confirmed, triggered_by)
unfoldable pub transition_mode : Mode → Mode → String → Bool → String → Attempt
unfolding can_transition mode_rank requires_confirmation
transition_mode from_mode to_mode reason operator_confirmed triggered_by =
    let is_promotion = ltb (mode_rank from_mode) (mode_rank to_mode) in
    if not (can_transition from_mode to_mode)
    then invalid_mode
    else if requires_confirmation to_mode && is_promotion && not operator_confirmed
    then unconfirmed
    else moved (record {
      from_mode = from_mode;
      to_mode = to_mode;
      reason = reason;
      operator_confirmed = operator_confirmed;
      triggered_by = triggered_by;
    })

-- A request for a mode.
pub record Climb : Type 0 where
  pub to_mode : Mode
  pub reason : String
  pub operator_confirmed : Bool
  pub triggered_by : String

-- A caller keeps its mode when the attempt raises.
abbrev pub mode_after : Mode → Attempt → Mode
mode_after m (moved t) = t.to_mode
mode_after m invalid_mode = m
mode_after m unconfirmed = m

unfoldable pub run_modes : List Climb → Mode → Mode
unfolding transition_mode
run_modes [] m = m
run_modes (c ∷ cs) m =
    run_modes cs
      (mode_after m (transition_mode m c.to_mode c.reason c.operator_confirmed c.triggered_by))
