-- ===== src/Stops/Ratchet.antt =====
-- The trailing stop along the prices that come in.
use automatic_trading.Prelude.{
  ◌≡◌, ◌≢◌, refl, ◌∙◌, ◌⊎◌, inl, inr, Bool, true, false, not, String, str_eq, List, [], ◌∷◌, none,
  some, All, arith, if◌then◌else◌, Bool-cases,
}
use automatic_trading.Float.{Num, NumLaws}
use automatic_trading.Stops.{
  trailing_for, maybe_ratchet_trailing, ratchet_all, Watched, StopCheckResult, breach,
  check_trailing_breach, determine_order_type, is_watched,
}

negated_if : (b : Bool) (x y : String) → (if not b then y else x) ≡ (if b then x else y)
negated_if true x y = refl
negated_if false x y = refl

module _ (N : Num) where
  -- The value is the first one, or the level that one of the prices gives.
  abbrev pub ComesFrom : N.F → List N.F → N.F → N.F → Type 0
  ComesFrom atr_20 [] trailing x = x ≡ trailing
  ComesFrom atr_20 (price ∷ prices) trailing x =
      (x ≡ trailing_for N atr_20 price) ⊎ ComesFrom atr_20 prices trailing x

  module _ (laws : NumLaws N) where
    maybe_ratchet_trailing_lem :
        (price atr_20 trailing : N.F)
        → let x = maybe_ratchet_trailing N price atr_20 trailing in
          (N.le trailing x ≡ true)
          × (N.le (trailing_for N atr_20 price) x ≡ true)
          × ((x ≡ trailing_for N atr_20 price) ⊎ (x ≡ trailing))
    unfolding maybe_ratchet_trailing
    maybe_ratchet_trailing_lem price atr_20 trailing =
        let new = trailing_for N atr_20 price in
        ground (
          arith,
          laws.lt_not_le trailing new,
          laws.le_total trailing new,
          laws.le_refl trailing,
          laws.le_refl new,
        )

    ComesFrom-first :
        (atr_20 : N.F) (prices : List N.F) (price trailing x : N.F)
        → ComesFrom atr_20 prices (maybe_ratchet_trailing N price atr_20 trailing) x
        → ComesFrom atr_20 (price ∷ prices) trailing x
    ComesFrom-first atr_20 [] price trailing x h =
        let (up, over, kind) = maybe_ratchet_trailing_lem price atr_20 trailing in
        elim kind [ inl e ↦ inl (h ∙ e) | inr e ↦ inr (h ∙ e) ]
    ComesFrom-first atr_20 (p ∷ prices) price trailing x h = elim h [
      | inl e ↦ inr (inl e)
      | inr k ↦ elim (ComesFrom-first atr_20 prices price trailing x k) [
        | inl e ↦ inl e
        | inr c ↦ inr (inr c)
      ]
    ]

    -- Along any prices the trailing stop ends at the greatest of where it was and the levels that the
    -- prices gave: not below where it was, not below any level, and equal to one of them.
    pub ratchet_all_lem :
        (atr_20 : N.F) (prices : List N.F) (trailing : N.F)
        → let x = ratchet_all N atr_20 prices trailing in
          (N.le trailing x ≡ true)
          × All (λ price. N.le (trailing_for N atr_20 price) x ≡ true) prices
          × ComesFrom atr_20 prices trailing x
    unfolding ratchet_all
    ratchet_all_lem atr_20 [] trailing = (laws.le_refl trailing, tt, refl)
    ratchet_all_lem atr_20 (price ∷ prices) trailing =
        let (up, over, kind) = maybe_ratchet_trailing_lem price atr_20 trailing in
        let next = maybe_ratchet_trailing N price atr_20 trailing in
        let (up', over', kind') = ratchet_all_lem atr_20 prices next in
        (
          laws.le_trans trailing next _ up up',
          (laws.le_trans (trailing_for N atr_20 price) next _ over up', over'),
          ComesFrom-first atr_20 prices price trailing _ kind',
        )

    -- A holding whose trailing stop is breached at a price is still breached at that price after the
    -- stop was ratcheted along any prices, and the order is of the type that `determine_order_type` says.
    pub check_trailing_breach-ratchet_all :
        (h : Watched N) (atr_20 stop price : N.F) (prices : List N.F) (market_state : String)
        → h.trailing_stop_price_usd ≡ some stop
        → check_trailing_breach N h price market_state ≢ none
        → (r : StopCheckResult N) × (check_trailing_breach N
              (record h { trailing_stop_price_usd = some (ratchet_all N atr_20 prices stop) })
              price
              market_state
            ≡ some r)
          × (r.order_type ≡ determine_order_type market_state)
    unfolding check_trailing_breach breach determine_order_type
    check_trailing_breach-ratchet_all h atr_20 stop price prices market_state e b =
        elim (Bool-cases (is_watched N h.trailing_stop_armed)) [
          | inl f ↦ elim (Bool-cases (N.le price stop)) [
            | inl g ↦
                let up = laws.le_trans price stop _ g (ratchet_all_lem atr_20 prices stop).0 in
                rw (f, up)
                  (_, refl, negated_if (str_eq market_state "RTH") "MARKET" "MARKET_ON_OPEN")
            | inr g ↦ absurd (b (rw (f, e, breach, g) refl))
          ]
          | inr f ↦ absurd (b (rw f refl))
        ]
