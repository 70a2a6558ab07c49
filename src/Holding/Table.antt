-- ===== src/Holding/Table.antt =====
-- The enum of states, its sets, and the table of transitions.
use automatic_trading.Prelude.{Bool, true, false, ◌≡◌, ◌⊎◌, List, [], ◌∷◌, arith}
use automatic_trading.Text.{Text, codes}

pub data HoldingState : Type 0 where
  candidate phase1_research phase2_crucible approved_pending active : HoldingState
  aborted_pre_llm aborted_llm aborted_risk phase1_timeout : HoldingState
  resolved_up resolved_flat resolved_down resolved_mixed : HoldingState
  stopped_out exit_thesis_invalidated exit_opportunity_cost exit_trailing_stop : HoldingState
  exit_failed halted delisted resolution_timeout panic_exit interrupted : HoldingState
  thesis_aging_review : HoldingState

pub HoldingState-discrete : Discrete HoldingState
HoldingState-discrete = hlevel

unfoldable pub is_member : HoldingState → List HoldingState → Bool
unfolding HoldingState-discrete
is_member s [] = false
is_member s (t ∷ ts) =
    let rest = is_member s ts in elim (HoldingState-discrete s t) [ yes _ ↦ true | no _ ↦ rest ]

-- ABORT_STATES and ABORT_REASON_STATES, which are the same set.
unfoldable pub is_abort_reason_state : HoldingState → Bool
is_abort_reason_state aborted_pre_llm = true
is_abort_reason_state aborted_llm = true
is_abort_reason_state aborted_risk = true
is_abort_reason_state _ = false

-- TERMINAL_STATES
unfoldable pub is_terminal : HoldingState → Bool
is_terminal aborted_pre_llm = true
is_terminal aborted_llm = true
is_terminal aborted_risk = true
is_terminal resolved_up = true
is_terminal resolved_flat = true
is_terminal resolved_down = true
is_terminal resolved_mixed = true
is_terminal stopped_out = true
is_terminal exit_thesis_invalidated = true
is_terminal exit_opportunity_cost = true
is_terminal exit_trailing_stop = true
is_terminal exit_failed = true
is_terminal delisted = true
is_terminal resolution_timeout = true
is_terminal panic_exit = true
is_terminal interrupted = true
is_terminal _ = false

-- VALID_TRANSITIONS.get(state, frozenset()), which is also `get_valid_transitions`.
unfoldable pub valid_transitions : HoldingState → List HoldingState
valid_transitions candidate = phase1_research ∷ aborted_pre_llm ∷ []
valid_transitions phase1_research = phase2_crucible ∷ aborted_llm ∷ phase1_timeout ∷ []
valid_transitions phase1_timeout = aborted_llm ∷ []
valid_transitions phase2_crucible = approved_pending ∷ aborted_llm ∷ []
valid_transitions approved_pending = active ∷ aborted_risk ∷ aborted_llm ∷ []
valid_transitions active =
    resolved_up ∷ resolved_flat ∷ resolved_down ∷ resolved_mixed ∷ stopped_out
    ∷ exit_thesis_invalidated ∷ exit_opportunity_cost ∷ exit_trailing_stop ∷ exit_failed ∷ halted
    ∷ delisted ∷ resolution_timeout ∷ panic_exit ∷ interrupted ∷ thesis_aging_review ∷ []
valid_transitions thesis_aging_review = active ∷ exit_thesis_invalidated ∷ []
valid_transitions halted = active ∷ delisted ∷ panic_exit ∷ []
valid_transitions interrupted = active ∷ panic_exit ∷ delisted ∷ []
valid_transitions _ = []

-- The member's value.
unfoldable pub state_value : HoldingState → Text
state_value candidate = codes "CANDIDATE"
state_value phase1_research = codes "PHASE1_RESEARCH"
state_value phase2_crucible = codes "PHASE2_CRUCIBLE"
state_value approved_pending = codes "APPROVED_PENDING"
state_value active = codes "ACTIVE"
state_value aborted_pre_llm = codes "ABORTED_PRE_LLM"
state_value aborted_llm = codes "ABORTED_LLM"
state_value aborted_risk = codes "ABORTED_RISK"
state_value phase1_timeout = codes "PHASE1_TIMEOUT"
state_value resolved_up = codes "RESOLVED_UP"
state_value resolved_flat = codes "RESOLVED_FLAT"
state_value resolved_down = codes "RESOLVED_DOWN"
state_value resolved_mixed = codes "RESOLVED_MIXED"
state_value stopped_out = codes "STOPPED_OUT"
state_value exit_thesis_invalidated = codes "EXIT_THESIS_INVALIDATED"
state_value exit_opportunity_cost = codes "EXIT_OPPORTUNITY_COST"
state_value exit_trailing_stop = codes "EXIT_TRAILING_STOP"
state_value exit_failed = codes "EXIT_FAILED"
state_value halted = codes "HALTED"
state_value delisted = codes "DELISTED"
state_value resolution_timeout = codes "RESOLUTION_TIMEOUT"
state_value panic_exit = codes "PANIC_EXIT"
state_value interrupted = codes "INTERRUPTED"
state_value thesis_aging_review = codes "THESIS_AGING_REVIEW"

-- The members of a list as a sum of equations.
abbrev pub OneOf : HoldingState → List HoldingState → Type 0
OneOf s [] = ⊥
OneOf s (t ∷ ts) = (s ≡ t) ⊎ OneOf s ts

pub is_member-OneOf :
    (s : HoldingState) (ts : List HoldingState) → is_member s ts ≡ true → OneOf s ts
unfolding is_member
is_member-OneOf s [] h = cc
is_member-OneOf s (t ∷ ts) h = ground (arith, is_member-OneOf s ts)

pub is_member-head : (s : HoldingState) (ts : List HoldingState) → is_member s (s ∷ ts) ≡ true
unfolding is_member
is_member-head s ts = ground arith

pub is_member-tail :
    (s t : HoldingState) (ts : List HoldingState)
    → is_member s ts ≡ true
    → is_member s (t ∷ ts) ≡ true
unfolding is_member
is_member-tail s t ts h = ground arith
