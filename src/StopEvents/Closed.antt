-- ===== src/StopEvents/Closed.antt =====
-- What a round of the poller makes of the holdings, and when it raises.
use automatic_trading.Prelude.{
  ℕ, Bool, true, false, ◌||◌, ◌&&◌, not, ◌≡◌, ◌≢◌, refl, ap, ◌∙◌, inl, inr, String, str_eq, eq_iff,
  List, [], ◌∷◌, Option, none, some, arith, Bool-cases,
}
use automatic_trading.Text.{Text}
use automatic_trading.Float.{Num}
use automatic_trading.Holding.{Holding, is_valid_transition, is_terminal, apply_order}
use automatic_trading.CatastropheNet.{Priced}
use automatic_trading.StopEvents.Poller.{
  Trigger, Times, System, and_then, process_all, poll, poll_pending, holding_of, set_holding,
  exit_order,
}
use automatic_trading.StopEvents.Advance.{
  returns, state_of, stopped, process_trigger-cases, can_stop, determine_exit_state-is_terminal,
}

same : (a b : String) → str_eq b a ≡ true → a ≡ b
same a b e = ground (arith, eq_iff b a)

module _ (N : Num) where
  holding_of-id :
      (id : String) (hs : List (Holding (Priced N))) (h : Holding (Priced N))
      → holding_of N id hs ≡ some h
      → h.id ≡ id
  unfolding holding_of
  holding_of-id id [] h e = ground arith
  holding_of-id id (k ∷ hs) h e = ground (arith, eq_iff k.id id, holding_of-id id hs h, e)

  holding_of-set_holding :
      (h : Holding (Priced N)) (hs : List (Holding (Priced N)))
      → holding_of N h.id hs ≢ none
      → holding_of N h.id (set_holding N h hs) ≡ some h
  unfolding holding_of set_holding
  holding_of-set_holding h [] e = ground arith
  holding_of-set_holding h (k ∷ hs) e =
      ground (arith, eq_iff k.id h.id, eq_iff h.id h.id, holding_of-set_holding h hs, e)

  holding_of-set_other :
      (id : String) (h : Holding (Priced N)) (hs : List (Holding (Priced N)))
      → str_eq h.id id ≡ false
      → holding_of N id (set_holding N h hs) ≡ holding_of N id hs
  unfolding holding_of set_holding
  holding_of-set_other id h [] e = refl
  holding_of-set_other id h (k ∷ hs) e =
      ground
        (arith, eq_iff k.id id, eq_iff k.id h.id, eq_iff h.id id, holding_of-set_other id h hs e)

  -- Nothing is held there, or what is held is in a terminal state.
  abbrev pub ended : Option (Holding (Priced N)) → Bool
  ended none = true
  ended (some h) = is_terminal h.state

  -- The lookup has no open holding of that identifier.
  abbrev pub is_ended : String → List (Holding (Priced N)) → Bool
  is_ended id hs = ended (holding_of N id hs)

  -- A trigger for the holding is in the list.
  abbrev pub mentions : String → List (Trigger N) → Bool
  mentions id [] = false
  mentions id (t ∷ ts) = str_eq t.holding_id id || mentions id ts

  -- A trigger's holding is not in the lookup, or it can be stopped and no other trigger names it.
  abbrev pub stoppable : Trigger N → List (Trigger N) → Option (Holding (Priced N)) → Bool
  stoppable t ts none = true
  stoppable t ts (some h) = can_stop N t h && not (mentions t.holding_id ts)

  abbrev pub ready : List (Trigger N) → List (Holding (Priced N)) → Bool
  ready [] hs = true
  ready (t ∷ ts) hs = stoppable t ts (holding_of N t.holding_id hs) && ready ts hs

  terminal-can_stop :
      (t : Trigger N) (h : Holding (Priced N)) → is_terminal h.state ≡ true → can_stop N t h ≡ false
  unfolding is_valid_transition
  terminal-can_stop t h e = ground (arith, e)

  ready-set_holding :
      (ts : List (Trigger N)) (h : Holding (Priced N)) (hs : List (Holding (Priced N)))
      → is_terminal h.state ≡ true
      → holding_of N h.id hs ≢ none
      → ready ts (set_holding N h hs) ≡ (not (mentions h.id ts) && ready ts hs)
  ready-set_holding [] h hs e k = refl
  ready-set_holding (t ∷ ts) h hs e k =
      let rest = ready-set_holding ts h hs e k in
      elim (Bool-cases (str_eq h.id t.holding_id)) [
        | inl f ↦
            let found =
              ap (λ id. holding_of N id (set_holding N h hs)) (same t.holding_id h.id f) in
            rw (found ∙ holding_of-set_holding h hs k) (
              ground (
                arith,
                terminal-can_stop t h e,
                eq_iff t.holding_id h.id,
                eq_iff h.id t.holding_id,
                f,
              ))
        | inr f ↦
            rw (holding_of-set_other t.holding_id h hs f)
              (ground (arith, rest, eq_iff t.holding_id h.id, eq_iff h.id t.holding_id, f))
      ]

  unheld-is_ended :
      (id other : String) (hs : List (Holding (Priced N))) (b : Bool)
      → holding_of N other hs ≡ none
      → (is_ended id hs || (str_eq other id || b)) ≡ true
      → (is_ended id hs || b) ≡ true
  unheld-is_ended id other hs b n e = elim (Bool-cases (str_eq other id)) [
    | inl f ↦ rw (ap (λ i. holding_of N i hs) (same id other f) ∙ n) refl
    | inr f ↦ ground (arith, e, f)
  ]

  -- The holding that a trigger moved is in a terminal state; whether the others are is as before.
  is_ended-moved :
      (id : String) (h : Holding (Priced N)) (hs : List (Holding (Priced N)))
      → is_terminal h.state ≡ true
      → holding_of N h.id hs ≢ none
      → (is_ended id hs || str_eq h.id id) ≡ true
      → is_ended id (set_holding N h hs) ≡ true
  is_ended-moved id h hs e k l = elim (Bool-cases (str_eq h.id id)) [
    | inl f ↦
        let found = ap (λ i. holding_of N i (set_holding N h hs)) (same id h.id f) in
        rw (found ∙ holding_of-set_holding h hs k) e
    | inr f ↦ rw (holding_of-set_other id h hs f) (ground (arith, f, l))
  ]

  module _ (digest : Text → Text) (times : ℕ → Times) where
    stopped-is_terminal :
        (t : Trigger N) (h : Holding (Priced N)) (hs : List (Holding (Priced N)))
        → holding_of N t.holding_id hs ≡ some h
        → let h' = stopped N digest times t h in
          (is_terminal h'.state ≡ true) × (h'.id ≡ t.holding_id) × (holding_of N h'.id hs ≢ none)
    unfolding apply_order exit_order
    stopped-is_terminal t h hs e =
        let i = holding_of-id t.holding_id hs h e in
        (
          determine_exit_state-is_terminal t.stop_type,
          i,
          λ n. ground (arith, e, ap (λ x. holding_of N x hs) i, n),
        )

    process_all-returns :
        (ts : List (Trigger N)) (s : System N)
        → returns N (process_all N digest times ts s) ≡ ready ts s.holdings
    unfolding process_all and_then
    process_all-returns [] s = refl
    process_all-returns (t ∷ ts) s = elim (process_trigger-cases N digest times t s) [
      | inl (e, f) ↦ rw (f, process_all) (rw e (process_all-returns ts _))
      | inr (inl (h, e, k, f)) ↦
          let (l, i, m) = stopped-is_terminal t h s.holdings e in
          let set = ready-set_holding ts (stopped N digest times t h) s.holdings l m in
          rw (f, process_all)
            (rw e (process_all-returns ts _ ∙ set ∙ ground (arith, k, ap (λ x. mentions x ts) i)))
      | inr (inr (h, e, k, (r, f))) ↦ rw (f, process_all) (rw e (ground (arith, k)))
    ]

    process_all-is_ended :
        (ts : List (Trigger N)) (s : System N) (id : String)
        → (is_ended id s.holdings || mentions id ts) ≡ true
        → returns N (process_all N digest times ts s) ≡ true
        → is_ended id (state_of N (process_all N digest times ts s)).holdings ≡ true
    unfolding process_all and_then
    process_all-is_ended [] s id e = λ _. ground (arith, e)
    process_all-is_ended (t ∷ ts) s id e = elim (process_trigger-cases N digest times t s) [
      | inl (n, f) ↦
          rw (f, process_all)
            (process_all-is_ended ts _ id
              (unheld-is_ended id t.holding_id s.holdings (mentions id ts) n e))
      | inr (inl (h, n, k, f)) ↦
          let (l, i, m) = stopped-is_terminal t h s.holdings n in
          rw (f, process_all)
            (process_all-is_ended ts _ id (
              ground (
                arith,
                e,
                is_ended-moved id (stopped N digest times t h) s.holdings l m,
                ap (λ x. str_eq x id) i,
              )))
      | inr (inr (h, n, k, (r, f))) ↦ rw (f, process_all) (λ q. ground (arith, q))
    ]

    -- A round of the poller returns exactly when this holds of every pending event: its holding is not in
    -- the lookup, or the state machine lets it go where the event asks, and no later one names it.
    pub poll-ready :
        (s : System N)
        → returns N (poll N digest times s) ≡ ready (poll_pending N s.events) s.holdings
    unfolding poll
    poll-ready s = process_all-returns (poll_pending N s.events) s

    -- After a round of the poller that returns, no holding that a pending event named is open.
    pub poll-is_ended :
        (s : System N) (id : String)
        → mentions id (poll_pending N s.events) ≡ true
        → returns N (poll N digest times s) ≡ true
        → is_ended id (state_of N (poll N digest times s)).holdings ≡ true
    unfolding poll
    poll-is_ended s id e r =
        process_all-is_ended (poll_pending N s.events) s id (ground (arith, e)) r
