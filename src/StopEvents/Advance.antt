-- ===== src/StopEvents/Advance.antt =====
-- One trigger: what it does to its event and to its holding.
use automatic_trading.Prelude.{
  ℕ, Bool, true, false, ◌≡◌, refl, ◌∙◌, ◌⊎◌, inl, inr, String, str_eq, List, Option, none, some,
  arith, Option-cases,
}
use automatic_trading.Text.{Text}
use automatic_trading.Audit.{Disk}
use automatic_trading.Float.{Num}
use automatic_trading.Holding.{
  Holding, is_terminal, Order, Refusal, ok, refused, recorded, apply_order, is_valid_transition,
  transition,
}
use automatic_trading.CatastropheNet.{Priced, execute_exit, sell}
use automatic_trading.StopEvents.{submitted, filled, StopEvent}
use automatic_trading.StopEvents.Poller.{
  Trigger, Times, System, Step, fine, failed, refused_transition, and_then, exit_step, after_exit,
  transition_step, after_transition, process_trigger, update_status, holding_of, set_holding,
  or_string, exit_order, determine_exit_state,
}

named : (a b : String) → str_eq b "" ≡ false → str_eq (or_string a b) "" ≡ false
unfolding or_string
named a b h = ground arith

-- The states that end a holding at a stop are terminal.
pub determine_exit_state-is_terminal :
    (stop_type : String) → is_terminal (determine_exit_state stop_type) ≡ true
unfolding determine_exit_state is_terminal
determine_exit_state-is_terminal stop_type = ground arith

module _ (N : Num) where
  -- Whether a call returns, and the state it leaves in either case.
  abbrev pub returns : Step N → Bool
  returns (fine s) = true
  returns (failed e s) = false

  abbrev pub state_of : Step N → System N
  state_of (fine s) = s
  state_of (failed e s) = s

  -- The state machine lets the holding go to the state that the trigger asks for.
  abbrev pub can_stop : Trigger N → Holding (Priced N) → Bool
  can_stop t h = is_valid_transition h.state (determine_exit_state t.stop_type)

module _ (N : Num) (digest : Text → Text) where
  -- A transition without audit is refused or made.
  transition-cases :
      (h : Holding (Priced N)) (o : Order) (d : Disk)
      → ((is_valid_transition h.state o.new_state ≡ true)
          × (transition digest false h o d ≡ ok (apply_order h o, d)))
        ⊎ ((is_valid_transition h.state o.new_state ≡ false)
            × ((r : Refusal) × (transition digest false h o d ≡ refused r)))
  unfolding transition recorded is_valid_transition
  transition-cases h o d = ground arith

  module _ (times : ℕ → Times) where
    -- The events with the one of the trigger marked as filled.
    abbrev pub marked : Trigger N → List (StopEvent N) → List (StopEvent N)
    marked t es =
        update_status N t.id filled (times t.id).filled_at
          (update_status N t.id submitted (times t.id).submitted_at es)

    -- The exit of a holding touches nothing, since it is given neither a broker nor an order.
    exit_step-fine :
        (h : Option (Holding (Priced N))) (t : Trigger N) (c : String) (s : System N)
        → str_eq c "" ≡ false
        → exit_step N digest times h t c s ≡ fine s
    unfolding exit_step execute_exit after_exit sell
    exit_step-fine none t c s e = refl
    exit_step-fine (some h) t c s e = rw (e, execute_exit) refl

    abbrev pub cycle_of : Trigger N → String
    cycle_of t = or_string t.cycle_id (or_string "" "stop-poll")

    process_trigger_lem :
        (t : Trigger N) (h : Option (Holding (Priced N))) (s : System N)
        → process_trigger N digest times t h "" s
          ≡ transition_step N digest times h t
              (cycle_of t)
              (record s { events = marked t s.events })
    unfolding process_trigger or_string and_then
    process_trigger_lem t h s =
        rw
          (
            exit_step-fine h t (cycle_of t)
                (record s {
                  events = update_status N t.id submitted (times t.id).submitted_at s.events;
                })
                (named t.cycle_id (or_string "" "stop-poll") refl),
            process_trigger,
          )
          refl

    -- What a trigger makes of a holding that it moves.
    abbrev pub stopped : Trigger N → Holding (Priced N) → Holding (Priced N)
    stopped t h = apply_order h (exit_order N digest times t (cycle_of t))

    -- The three ends of a trigger. Its event is filled in each.
    abbrev pub Unheld : Trigger N → System N → Type 0
    Unheld t s =
        (holding_of N t.holding_id s.holdings ≡ none)
        × (process_trigger N digest times t (holding_of N t.holding_id s.holdings) "" s
            ≡ fine (record s { events = marked t s.events }))

    abbrev pub Moved : Trigger N → System N → Type 0
    Moved t s =
        (h : Holding (Priced N)) × (holding_of N t.holding_id s.holdings ≡ some h)
        × (can_stop N t h ≡ true)
        × (process_trigger N digest times t (holding_of N t.holding_id s.holdings) "" s
            ≡ fine (record s {
              events = marked t s.events;
              holdings = set_holding N (stopped t h) s.holdings;
            }))

    abbrev pub Refused : Trigger N → System N → Type 0
    Refused t s =
        (h : Holding (Priced N)) × (holding_of N t.holding_id s.holdings ≡ some h)
        × (can_stop N t h ≡ false)
        × ((r : Refusal) × (process_trigger N digest times t (holding_of N t.holding_id s.holdings)
                "" s
              ≡ failed (refused_transition r) (record s { events = marked t s.events })))

    transition_step-cases :
        (t : Trigger N) (h : Holding (Priced N)) (s : System N)
        → ((can_stop N t h ≡ true)
            × (transition_step N digest times (some h) t (cycle_of t) s
                ≡ fine (record s { holdings = set_holding N (stopped t h) s.holdings })))
          ⊎ ((can_stop N t h ≡ false)
              × ((r : Refusal) × (transition_step N digest times (some h) t (cycle_of t) s
                    ≡ failed (refused_transition r) s)))
    unfolding exit_order transition_step after_transition or_string
    transition_step-cases t h s =
        let e = named t.cycle_id (or_string "" "stop-poll") refl in
        elim (transition-cases h (exit_order N digest times t (cycle_of t)) s.world.disk) [
          | inl (k, f) ↦ inl (k, rw (e, transition_step) (rw (f, transition_step) refl))
          | inr (k, (r, f)) ↦ inr (k, (r, rw (e, transition_step) (rw (f, transition_step) refl)))
        ]

    pub process_trigger-cases :
        (t : Trigger N) (s : System N) → Unheld t s ⊎ Moved t s ⊎ Refused t s
    unfolding transition_step
    process_trigger-cases t s = elim (Option-cases (holding_of N t.holding_id s.holdings)) [
      | inl e ↦ inl (e, rw e (process_trigger_lem t none s))
      | inr (h, e) ↦
          let p = process_trigger_lem t (some h) s in
          elim (transition_step-cases t h (record s { events = marked t s.events })) [
            | inl (k, f) ↦ inr (inl (h, e, k, rw e (p ∙ f)))
            | inr (k, (r, f)) ↦ inr (inr (h, e, k, (r, rw e (p ∙ f))))
          ]
    ]
