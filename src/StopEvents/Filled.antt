-- ===== src/StopEvents/Filled.antt =====
-- What a round of the poller leaves of the pending events.
use automatic_trading.Prelude.{
  ℕ, ◌==◌, Bool, true, false, ◌||◌, ◌≡◌, refl, sym, subst, inl, inr, List, [], ◌∷◌, All, arith,
  Bool-cases,
}
use automatic_trading.Text.{Text}
use automatic_trading.Float.{Num}
use automatic_trading.StopEvents.{is_pending, StopEvent}
use automatic_trading.StopEvents.Poller.{
  Trigger, Times, System, and_then, process_all, poll, poll_pending, update_status, trigger_of,
}
use automatic_trading.StopEvents.Advance.{returns, state_of, marked, process_trigger-cases}

module _ (N : Num) where
  -- The event is the one of a trigger in the list.
  abbrev pub has_id : ℕ → List (Trigger N) → Bool
  has_id id [] = false
  has_id id (t ∷ ts) = (id == t.id) || has_id id ts

  -- A pending event has its trigger in the list.
  abbrev pub Covered : List (Trigger N) → StopEvent N → Type 0
  Covered ts e = is_pending e.status ≡ true → has_id e.id ts ≡ true

  Covered-more :
      (t : Trigger N) (ts : List (Trigger N)) (es : List (StopEvent N))
      → All (Covered ts) es
      → All (Covered (t ∷ ts)) es
  Covered-more t ts [] h = tt
  Covered-more t ts (e ∷ es) (h, k) = ((λ p. ground (arith, h p)), Covered-more t ts es k)

  poll_pending-pending :
      (e : StopEvent N) (es : List (StopEvent N))
      → is_pending e.status ≡ true
      → poll_pending N (e ∷ es) ≡ trigger_of N e ∷ poll_pending N es
  unfolding poll_pending
  poll_pending-pending e es p = rw p

  poll_pending-other :
      (e : StopEvent N) (es : List (StopEvent N))
      → is_pending e.status ≡ false
      → poll_pending N (e ∷ es) ≡ poll_pending N es
  unfolding poll_pending
  poll_pending-other e es p = rw p

  poll_pending-Covered : (es : List (StopEvent N)) → All (Covered (poll_pending N es)) es
  unfolding trigger_of
  poll_pending-Covered [] = tt
  poll_pending-Covered (e ∷ es) =
      let rest = poll_pending-Covered es in
      elim (Bool-cases (is_pending e.status)) [
        | inl p ↦
            subst (λ ts. All (Covered ts) (e ∷ es)) (sym (poll_pending-pending e es p))
              ((λ q. ground arith), Covered-more (trigger_of N e) (poll_pending N es) es rest)
        | inr p ↦
            subst (λ ts. All (Covered ts) (e ∷ es)) (sym (poll_pending-other e es p))
              ((λ q. ground (arith, p, q)), rest)
      ]

  none_pending : (es : List (StopEvent N)) → All (Covered []) es → poll_pending N es ≡ []
  unfolding poll_pending
  none_pending [] h = refl
  none_pending (e ∷ es) (h, k) = ground (arith, none_pending es k, h)

  module _ (digest : Text → Text) (times : ℕ → Times) where
    marked-Covered :
        (t : Trigger N) (ts : List (Trigger N)) (es : List (StopEvent N))
        → All (Covered (t ∷ ts)) es
        → All (Covered ts) (marked N digest times t es)
    unfolding update_status is_pending
    marked-Covered t ts [] h = tt
    marked-Covered t ts (e ∷ es) (h, k) = elim (Bool-cases (e.id == t.id)) [
      | inl p ↦
          rw (p, update_status)
            (rw (p, update_status) ((λ q. ground (arith, q)), marked-Covered t ts es k))
      | inr p ↦
          rw (p, update_status)
            (rw (p, update_status) ((λ q. ground (arith, p, h q)), marked-Covered t ts es k))
    ]

    process_all-Covered :
        (ts : List (Trigger N)) (s : System N)
        → All (Covered ts) s.events
        → returns N (process_all N digest times ts s) ≡ true
        → All (Covered []) (state_of N (process_all N digest times ts s)).events
    unfolding process_all and_then
    process_all-Covered [] s h = λ e. h
    process_all-Covered (t ∷ ts) s h = elim (process_trigger-cases N digest times t s) [
      | inl (_, f) ↦ rw (f, process_all) (process_all-Covered ts _ (marked-Covered t ts s.events h))
      | inr (inl (_, _, _, f)) ↦
          rw (f, process_all) (process_all-Covered ts _ (marked-Covered t ts s.events h))
      | inr (inr (_, _, _, (_, f))) ↦ rw (f, process_all) (λ e. ground (arith, e))
    ]

    -- A round of the poller that returns leaves no event pending.
    pub poll-poll_pending :
        (s : System N)
        → returns N (poll N digest times s) ≡ true
        → poll_pending N (state_of N (poll N digest times s)).events ≡ []
    unfolding poll
    poll-poll_pending s e =
        none_pending _
          (process_all-Covered (poll_pending N s.events) s (poll_pending-Covered s.events) e)
