-- ===== src/Queue/Bands.antt =====
-- The queue's order and content, band by band.
use automatic_trading.Prelude.{
  ℕ, not, ◌&&◌, ◌||◌, ◌≤◌, ◌==◌, Bool, false, String, List, [], ◌∷◌, Option, none, some, All,
  if◌then◌else◌,
}
use automatic_trading.Float.{Num}
use automatic_trading.Queue.{
  Gate, p1_highest, p2_high, p3_normal, p4_low, PriorityBand, band_value, QueueItem, Signals,
}

abbrev pub same_band : PriorityBand → PriorityBand → Bool
unfolding band_value
same_band a b = band_value a == band_value b

-- The tickers of the items of a band, in their order.
abbrev pub of_band : PriorityBand → List QueueItem → List String
of_band b [] = []
of_band b (q ∷ items) =
    let rest = of_band b items in if same_band q.priority_band b then q.ticker ∷ rest else rest

-- No item has a smaller band than the given value.
abbrev pub AtLeast : ℕ → List QueueItem → Type 0
AtLeast n items = All (λ q. n ≤ band_value q.priority_band) items

-- The bands do not fall.
abbrev pub IsSorted : List QueueItem → Type 0
IsSorted [] = Unit {0}
IsSorted (q ∷ items) = AtLeast (band_value q.priority_band) items × IsSorted items

module _ (N : Num) where
  -- The gatekeeper has a result for the ticker that says so.
  abbrev pub gate_says : (Gate → Bool) → Option Gate → Bool
  gate_says p none = false
  gate_says p (some gk) = p gk

  -- The operator pinned the ticker, or its priority in the universe is 1.
  abbrev pub is_top : Bool → Option ℕ → Bool
  is_top pinned none = pinned
  is_top pinned (some n) = pinned || (n == 1)

  -- A catalyst is pending, or the last cycle's conviction was 0.3 or more; without one it is 0.0.
  abbrev pub is_promising : Bool → Option N.F → Bool
  is_promising pending none = pending || N.le (N.lit 3 1) (N.lit 0 0)
  is_promising pending (some x) = pending || N.le (N.lit 3 1) x

  -- The four bands as the module's text gives them, for an admitted ticker.
  abbrev pub has_band : PriorityBand → (top promising flagged : Bool) → Bool
  has_band p1_highest top promising flagged = top
  has_band p2_high top promising flagged = not top && promising
  has_band p3_normal top promising flagged = not top && not promising && not flagged
  has_band p4_low top promising flagged = not top && not promising && flagged

  abbrev pub belongs : Signals N → PriorityBand → String → Bool
  belongs s b ticker =
      gate_says (λ gk. gk.admitted) (s.gatekeeper_results ticker)
      && has_band b (is_top (s.pinned_tickers ticker) (s.universe_priority ticker))
          (is_promising (s.catalyst_pending ticker) (s.prior_conviction ticker))
          (gate_says (λ gk. gk.flagged) (s.gatekeeper_results ticker))

  abbrev pub is_band : PriorityBand → Option PriorityBand → Bool
  is_band b none = false
  is_band b (some a) = same_band a b

  -- The tickers of the universe that belong in a band, in their order.
  abbrev pub chosen : Signals N → PriorityBand → List String → List String
  chosen s b [] = []
  chosen s b (ticker ∷ tickers) =
      let rest = chosen s b tickers in if belongs s b ticker then ticker ∷ rest else rest
