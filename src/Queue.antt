-- ===== src/Queue.antt =====
-- pmacs/engines/queue.py with the bands and items of pmacs/schemas/queue.py: the order in which a cycle
-- takes the tickers. Dicts and sets are functions of the ticker.
pub mod Bands
mod Examples
use automatic_trading.Prelude.{
  ℕ, zero, suc, leb, Bool, true, false, ◌&&◌, ◌||◌, not, String, List, [], ◌∷◌, Option, none, some,
  if◌then◌else◌,
}
use automatic_trading.Text.{Text}
use automatic_trading.Float.{Num, zero_of}

pub data PriorityBand : Type 0 where
  p1_highest p2_high p3_normal p4_low : PriorityBand

-- The value of the IntEnum.
unfoldable pub band_value : PriorityBand → ℕ
band_value p1_highest = 1
band_value p2_high = 2
band_value p3_normal = 3
band_value p4_low = 4

pub record QueueItem : Type 0 where
  pub cycle_id : String
  pub ticker : String
  pub priority_band : PriorityBand
  pub pinned : Bool
  pub enqueued_at : Text

-- What is read of a GatekeeperResult.
pub record Gate : Type 0 where
  pub admitted : Bool
  pub flagged : Bool

-- universe_priority.get(ticker) or 999: 0 counts as missing.
unfoldable pub priority_or_999 : Option ℕ → ℕ
priority_or_999 none = 999
priority_or_999 (some zero) = 999
priority_or_999 (some (suc n)) = suc n

-- items.sort(key=…) is stable: an item goes before the ones of its own band behind it.
unfoldable pub insert_by_band : QueueItem → List QueueItem → List QueueItem
unfolding band_value
insert_by_band q [] = q ∷ []
insert_by_band q (r ∷ items) =
    let rest = insert_by_band q items in
    if leb (band_value q.priority_band) (band_value r.priority_band)
    then q ∷ r ∷ items
    else r ∷ rest

unfoldable pub sort_by_band : List QueueItem → List QueueItem
unfolding insert_by_band
sort_by_band [] = []
sort_by_band (q ∷ items) = insert_by_band q (sort_by_band items)

module _ (N : Num) where
  -- prior_conviction.get(ticker, 0.0)
  abbrev pub conviction_or_zero : Option N.F → N.F
  conviction_or_zero none = zero_of N
  conviction_or_zero (some x) = x

  -- The arguments of `compose_queue` beside the universe.
  pub record Signals : Type 0 where
    pub cycle_id : String
    pub pinned_tickers : String → Bool
    pub gatekeeper_results : String → Option Gate
    pub catalyst_pending : String → Bool
    pub universe_priority : String → Option ℕ
    pub prior_conviction : String → Option N.F
    pub now : Text

  unfoldable pub is_pinned : Signals → String → Bool
  unfolding priority_or_999
  is_pinned s ticker =
      s.pinned_tickers ticker || leb (priority_or_999 (s.universe_priority ticker)) 1

  -- The band of an admitted ticker.
  unfoldable pub band_of : Signals → String → Gate → PriorityBand
  unfolding is_pinned
  band_of s ticker gk =
      if is_pinned s ticker
      then p1_highest
      else if s.catalyst_pending ticker
          || N.le (N.lit 3 1) (conviction_or_zero (s.prior_conviction ticker))
      then p2_high
      else if gk.flagged
      then p4_low
      else p3_normal

  -- gk is None or not gk.admitted: no band.
  unfoldable pub gate_band : Signals → String → Option Gate → Option PriorityBand
  unfolding band_of
  gate_band s ticker none = none
  gate_band s ticker (some gk) = if gk.admitted then some (band_of s ticker gk) else none

  unfoldable pub enqueue : Signals → String → Option PriorityBand → List QueueItem → List QueueItem
  unfolding is_pinned
  enqueue s ticker none items = items
  enqueue s ticker (some band) items =
      record {
        cycle_id = s.cycle_id;
        ticker = ticker;
        priority_band = band;
        pinned = is_pinned s ticker;
        enqueued_at = s.now;
      }
      ∷ items

  -- The loop over the universe.
  unfoldable pub queue_items : Signals → List String → List QueueItem
  unfolding gate_band enqueue
  queue_items s [] = []
  queue_items s (ticker ∷ tickers) =
      enqueue s ticker (gate_band s ticker (s.gatekeeper_results ticker)) (queue_items s tickers)

  -- compose_queue(universe_tickers, …)
  unfoldable pub compose_queue : Signals → List String → List QueueItem
  unfolding sort_by_band queue_items
  compose_queue s universe_tickers = sort_by_band (queue_items s universe_tickers)
