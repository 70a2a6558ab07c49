-- ===== src/StopEvents/Sweep.antt =====
-- Which holdings a sweep of the stop-loss daemon hands to the poller.
use automatic_trading.Prelude.{
  ℕ, suc, Bool, true, false, ◌||◌, ◌&&◌, not, ◌≡◌, refl, ap, ◌∙◌, ◌⊎◌, inl, inr, String, str_eq,
  List, [], ◌∷◌, ◌++◌, Option, none, some, arith, Bool-cases,
}
use automatic_trading.Text.{Text}
use automatic_trading.Float.{Num, NumLaws, zero_of}
use automatic_trading.Stops.{
  StopBreachType, fixed_stop, trailing_stop, breach, is_watched, Watched, StopCheckResult,
  check_stop_breach, check_trailing_breach,
}
use automatic_trading.StopEvents.{
  is_pending, StopEvent, StopTable, HoldingRow, Market, categorised, check_holding, watched,
  price_or_last, check_row, recorded, written, write_stop_trigger, stop_event, sweep,
}
use automatic_trading.StopEvents.Poller.{Times, System, trigger_of, poll, poll_pending}
use automatic_trading.StopEvents.Advance.{returns, state_of}
use automatic_trading.StopEvents.Closed.{mentions, is_ended, poll-is_ended}

module _ (N : Num) where
  -- The price is at or below the stop, if there is one.
  abbrev pub falls_to : Option N.F → N.F → Bool
  falls_to none price = false
  falls_to (some stop) price = N.le price stop

  abbrev pub is_positive : Option N.F → Bool
  is_positive none = true
  is_positive (some price) = not (N.le price (zero_of N))

  abbrev pub falls_below : HoldingRow N → Option N.F → Bool
  falls_below h none = false
  falls_below h (some price) =
      (h.trailing_stop_armed && falls_to h.trailing_stop_price_usd price)
      || falls_to h.stop_price_usd price

  -- One of the holdings is active, has that identifier, and its price is at or below its fixed stop or
  -- its armed trailing stop.
  abbrev pub breached_in : Market N → String → List (HoldingRow N) → Bool
  breached_in m id [] = false
  breached_in m id (h ∷ hs) =
      (str_eq h.state "ACTIVE"
        && (str_eq h.id id
            && falls_below h (price_or_last N (m.fetch h.ticker) (m.last_price h.id))))
      || breached_in m id hs

  mentions-poll_pending :
      (id : String) (es : List (StopEvent N)) (e : StopEvent N)
      → is_pending e.status ≡ true
      → mentions N id (poll_pending N (es ++ e ∷ []))
        ≡ (mentions N id (poll_pending N es) || str_eq e.holding_id id)
  unfolding poll_pending trigger_of
  mentions-poll_pending id [] e p = ground (arith, p)
  mentions-poll_pending id (f ∷ es) e p = ground (arith, mentions-poll_pending id es e p)

  -- A result about that holding at that price, which is at or below the result's stop.
  IsOf : StopCheckResult N → String → N.F → Type 0
  IsOf r id price =
      (r.holding_id ≡ id) × (r.current_price ≡ price) × (N.le price r.stop_price ≡ true)

  breach-cases :
      (k : StopBreachType) (h : Watched N) (price : N.F) (stop : Option N.F)
      → ((falls_to stop price ≡ false) × (breach N k h price "RTH" stop ≡ none))
        ⊎ ((falls_to stop price ≡ true)
            × (r : StopCheckResult N) × IsOf r h.id price
            × (breach N k h price "RTH" stop ≡ some r))
  unfolding breach IsOf
  breach-cases k h price none = inl (refl, refl)
  breach-cases k h price (some stop) = elim (Bool-cases (N.le price stop)) [
    | inl e ↦ rw e (inr (refl, _, (refl, refl, e), refl))
    | inr e ↦ inl (e, rw e refl)
  ]

  -- The check of a row finds a breach of that holding exactly when its price is at or below a stop.
  check_holding-cases :
      (h : HoldingRow N) (price : N.F)
      → ((falls_below h (some price) ≡ false) × (check_holding N (watched N h) price "RTH" ≡ none))
        ⊎ ((falls_below h (some price) ≡ true)
            × (r : StopCheckResult N) × (c : String) × IsOf r h.id price
            × (check_holding N (watched N h) price "RTH" ≡ some (r, c)))
  unfolding check_holding check_trailing_breach check_stop_breach is_watched watched categorised
  check_holding-cases h price =
      let fixed = breach-cases fixed_stop (watched N h) price h.stop_price_usd in
      let trailing = breach-cases trailing_stop (watched N h) price h.trailing_stop_price_usd in
      elim (Bool-cases h.trailing_stop_armed) [
        | inl a ↦ elim trailing [
          | inr (t, r, i, e) ↦ inr (
            ground (arith, a, t),
            r,
            "TRAILING",
            i,
            rw (a, check_trailing_breach) (rw (e, check_holding) refl),
          )
          | inl (t, e) ↦ elim fixed [
            | inr (f, r, i, g) ↦ inr (
              ground (arith, a, f),
              r,
              "FIXED",
              i,
              rw (a, check_trailing_breach) (rw (e, check_holding) (rw (g, check_holding) refl)),
            )
            | inl (f, g) ↦ inl (
              ground (arith, a, t, f),
              rw (a, check_trailing_breach) (rw (e, check_holding) (rw (g, check_holding) refl)),
            )
          ]
        ]
        | inr a ↦ elim fixed [
          | inr (f, r, i, g) ↦ inr (
            ground (arith, a, f),
            r,
            "FIXED",
            i,
            rw (a, check_trailing_breach) (rw (g, check_holding) refl),
          )
          | inl (f, g) ↦
              inl (ground (arith, a, f), rw (a, check_trailing_breach) (rw (g, check_holding) refl))
        ]
      ]

  write_stop_trigger-mentions :
      (r : StopCheckResult N) (c cycle_id : String) (now : Text) (t : StopTable N) (id : String)
      → (written N t (write_stop_trigger N r c cycle_id now t)).raised ≡ false
      → mentions N id
          (poll_pending N (written N t (write_stop_trigger N r c cycle_id now t)).table.rows)
        ≡ (mentions N id (poll_pending N t.rows) || str_eq r.holding_id id)
  unfolding write_stop_trigger written stop_event is_pending
  write_stop_trigger-mentions r c cycle_id now t id =
      elim (Bool-cases (N.le r.current_price (zero_of N) || N.le r.stop_price (zero_of N))) [
        | inl e ↦ rw e (λ q. ground (arith, q))
        | inr e ↦ rw e (λ q.
            mentions-poll_pending id t.rows (stop_event N (suc t.last_id) r c cycle_id now) refl)
      ]

  check_row-mentions :
      (m : Market N) (cycle_id : String) (h : HoldingRow N) (price : Option N.F) (t : StopTable N)
      (id : String)
      → (check_row N m cycle_id h price t).raised ≡ false
      → mentions N id (poll_pending N (check_row N m cycle_id h price t).table.rows)
        ≡ (mentions N id (poll_pending N t.rows) || (str_eq h.id id && falls_below h price))
  unfolding check_row recorded IsOf
  check_row-mentions m cycle_id h none t id = λ q. ground arith
  check_row-mentions m cycle_id h (some price) t id = elim (check_holding-cases h price) [
    | inl (e, f) ↦ rw (f, check_row) (λ q. ground (arith, e))
    | inr (e, r, c, i, f) ↦
        rw (f, check_row)
          (λ q.
            write_stop_trigger-mentions r c cycle_id (m.now h.id) t id q
            ∙ ground (arith, e, ap (λ x. str_eq x id) i.0))
  ]

  -- After a sweep that does not raise, the poller finds a pending event for a holding exactly if it
  -- would have found one before, or the holding is active and its price, which is the last known one
  -- where none is fetched, is at or below its fixed stop or its armed trailing stop.
  pub sweep-mentions :
      (m : Market N) (cycle_id : String) (hs : List (HoldingRow N)) (t : StopTable N) (id : String)
      → (sweep N m cycle_id hs t).raised ≡ false
      → mentions N id (poll_pending N (sweep N m cycle_id hs t).table.rows)
        ≡ (mentions N id (poll_pending N t.rows) || breached_in m id hs)
  unfolding sweep
  sweep-mentions m cycle_id [] t id = λ q. ground arith
  sweep-mentions m cycle_id (h ∷ hs) t id =
      let price = price_or_last N (m.fetch h.ticker) (m.last_price h.id) in
      let row = check_row-mentions m cycle_id h price t id in
      let rest = sweep-mentions m cycle_id hs (check_row N m cycle_id h price t).table id in
      elim (Bool-cases (str_eq h.state "ACTIVE")) [
        | inr e ↦ rw e (sweep-mentions m cycle_id hs t id)
        | inl e ↦ elim (Bool-cases (check_row N m cycle_id h price t).raised) [
          | inl f ↦ rw e (rw f (λ q. ground (arith, f, q)))
          | inr f ↦ rw e (rw f (λ q. rest q ∙ ground (arith, row f)))
        ]
      ]

  -- What is found as the price of each holding is positive.
  abbrev pub priced : Market N → List (HoldingRow N) → Bool
  priced m [] = true
  priced m (h ∷ hs) =
      is_positive (price_or_last N (m.fetch h.ticker) (m.last_price h.id)) && priced m hs

  module _ (laws : NumLaws N) where
    write_stop_trigger-raised :
        (r : StopCheckResult N) (c cycle_id : String) (now : Text) (t : StopTable N) (id : String)
        (price : N.F)
        → IsOf r id price
        → N.le price (zero_of N) ≡ false
        → (written N t (write_stop_trigger N r c cycle_id now t)).raised ≡ false
    unfolding IsOf write_stop_trigger written
    write_stop_trigger-raised r c cycle_id now t id price (_, e, f) p =
        ground
          (arith, ap (λ x. N.le x (zero_of N)) e, p, laws.le_trans price r.stop_price (zero_of N) f)

    check_row-raised :
        (m : Market N) (cycle_id : String) (h : HoldingRow N) (price : Option N.F) (t : StopTable N)
        → is_positive price ≡ true
        → (check_row N m cycle_id h price t).raised ≡ false
    unfolding check_row recorded
    check_row-raised m cycle_id h none t p = refl
    check_row-raised m cycle_id h (some price) t p = elim (check_holding-cases h price) [
      | inl (e, f) ↦ rw (f, check_row) refl
      | inr (e, r, c, i, f) ↦
          rw (f, check_row)
            (write_stop_trigger-raised r c cycle_id (m.now h.id) t h.id price i (ground (arith, p)))
    ]

    -- A sweep raises at no row if every price that it finds is positive.
    pub sweep-raised :
        (m : Market N) (cycle_id : String) (hs : List (HoldingRow N)) (t : StopTable N)
        → priced m hs ≡ true
        → (sweep N m cycle_id hs t).raised ≡ false
    unfolding sweep
    sweep-raised m cycle_id [] t p = refl
    sweep-raised m cycle_id (h ∷ hs) t p =
        let price = price_or_last N (m.fetch h.ticker) (m.last_price h.id) in
        let rest =
          sweep-raised m cycle_id hs (check_row N m cycle_id h price t).table (ground (arith, p)) in
        ground (
          arith,
          sweep-raised m cycle_id hs t (ground (arith, p)),
          check_row-raised m cycle_id h price t (ground (arith, p)),
          rest,
        )

    -- A holding that is active and whose price is at or below a stop is closed by a sweep, every price of
    -- which is positive, and a round of the poller on its table that returns: if the poller's lookup has
    -- the holding, it has it in a terminal state.
    pub sweep-poll :
        (digest : Text → Text) (times : ℕ → Times) (m : Market N) (cycle_id : String)
        (hs : List (HoldingRow N)) (t : StopTable N) (s : System N) (id : String)
        → priced m hs ≡ true
        → breached_in m id hs ≡ true
        → let s' = record s { events = (sweep N m cycle_id hs t).table.rows } in
          returns N (poll N digest times s') ≡ true
          → is_ended N id (state_of N (poll N digest times s')).holdings ≡ true
    sweep-poll digest times m cycle_id hs t s id p b =
        poll-is_ended N digest times _ id
          (ground (arith, b, sweep-mentions m cycle_id hs t id (sweep-raised m cycle_id hs t p)))
