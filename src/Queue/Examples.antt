-- ===== src/Queue/Examples.antt =====
-- Five tickers: one with flags, one pinned, one rejected, two with an earlier conviction.
use automatic_trading.Prelude.{
  ◌≡◌, refl, true, false, String, str_eq, List, [], ◌∷◌, Option, none, some, if◌then◌else◌,
}
use automatic_trading.Text.{codes}
use automatic_trading.Float.Fixed.{fixed, pos}
use automatic_trading.Queue.{
  Signals, Gate, QueueItem, compose_queue, sort_by_band, insert_by_band, band_value, queue_items,
  enqueue, gate_band, band_of, is_pinned, priority_or_999,
}

abbrev gates : String → Option Gate
gates t =
    if str_eq t "REJ"
    then some (record { admitted = false; flagged = false })
    else if str_eq t "FLG"
    then some (record { admitted = true; flagged = true })
    else some (record { admitted = true; flagged = false })

abbrev signals : Signals fixed
signals = record {
  cycle_id = "c1";
  pinned_tickers = λ t. str_eq t "PIN";
  gatekeeper_results = gates;
  catalyst_pending = λ t. false;
  universe_priority = λ t. none;
  prior_conviction = λ t.
      if str_eq t "BUY" then some (pos 3000) else if str_eq t "STR" then some (pos 7000) else none;
  now = codes "t";
}

abbrev universe : List String
universe = "FLG" ∷ "STR" ∷ "REJ" ∷ "PIN" ∷ "BUY" ∷ []

abbrev tickers_of : List QueueItem → List String
tickers_of [] = []
tickers_of (q ∷ items) = q.ticker ∷ tickers_of items

ordered : tickers_of (compose_queue fixed signals universe) ≡ "PIN" ∷ "STR" ∷ "BUY" ∷ "FLG" ∷ []
unfolding compose_queue sort_by_band insert_by_band band_value queue_items enqueue gate_band band_of
    is_pinned priority_or_999
ordered = refl
