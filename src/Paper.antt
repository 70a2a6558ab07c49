-- ===== src/Paper.antt =====
-- pmacs/sim/ledger.py: the positions and the cash of paper trading, in memory. The dict of positions is
-- a list in the order of insertion, whose keys are the tickers. Entry dates and sectors decide nothing
-- and are left out.
pub mod Positions
pub mod Solvency
pub mod Prices
mod Examples
use automatic_trading.Prelude.{
  ℕ, ◌+◌, leb, Bool, true, false, ◌&&◌, not, String, str_eq, List, [], ◌∷◌, ◌++◌, map, length,
  Option, none, some, if◌then◌else◌,
}
use automatic_trading.Float.{Num, zero_of, sum_from}

-- MAX_CONCURRENT_POSITIONS
abbrev pub max_concurrent_positions : ℕ
max_concurrent_positions = 5

-- The messages of the ValueErrors.
pub data LedgerError : Type 0 where
  shares_not_positive price_not_positive insufficient_cash position_too_large : LedgerError
  too_many_positions position_exists no_position : LedgerError

pub data Outcome (A : Type 0) : Type 0 where
  done : A → Outcome A
  raised : LedgerError → Outcome A

module _ (N : Num) where
  -- PAPER_CAPITAL_USD
  abbrev pub paper_capital : N.F
  paper_capital = N.lit 5000 0

  -- PAPER_CAPITAL_USD * MAX_SINGLE_POSITION_PCT
  abbrev pub max_position : N.F
  max_position = N.mul paper_capital (N.lit 20 2)

  pub record Position : Type 0 where
    pub ticker : String
    pub shares : N.F
    pub entry_price : N.F
    pub current_price : N.F
    pub stop_price : N.F

  unfoldable pub market_value : Position → N.F
  market_value p = N.mul p.shares p.current_price

  unfoldable pub cost_basis : Position → N.F
  cost_basis p = N.mul p.shares p.entry_price

  pub unrealized_pnl : Position → N.F
  unfolding market_value cost_basis
  unrealized_pnl p = N.sub (market_value p) (cost_basis p)

  pub unrealized_pnl_pct : Position → N.F
  unfolding unrealized_pnl cost_basis
  unrealized_pnl_pct p =
      if N.le (cost_basis p) (zero_of N) then zero_of N else N.div (unrealized_pnl p) (cost_basis p)

  pub record PaperLedger : Type 0 where
    pub cash : N.F
    pub positions : List Position

  pub positions_total : PaperLedger → N.F
  unfolding market_value
  positions_total l = sum_from N (zero_of N) (map market_value l.positions)

  pub total_value : PaperLedger → N.F
  unfolding positions_total
  total_value l = N.add l.cash (positions_total l)

  -- positions.get(ticker)
  unfoldable pub position_of : String → List Position → Option Position
  position_of ticker [] = none
  position_of ticker (p ∷ ps) =
      let rest = position_of ticker ps in if str_eq p.ticker ticker then some p else rest

  abbrev pub is_some : Option Position → Bool
  is_some none = false
  is_some (some p) = true

  -- The stop price that is given, or the default of 15% below the price.
  unfoldable pub stop_or_default : Option N.F → N.F → N.F
  stop_or_default none price = N.round2 (N.mul price (N.sub (N.lit 1 0) (N.lit 15 2)))
  stop_or_default (some stop) price = stop

  -- open_position, without the guards.
  unfoldable pub opened : String → N.F → N.F → Option N.F → PaperLedger → PaperLedger
  unfolding stop_or_default
  opened ticker shares price stop_price l = record {
    cash = N.sub l.cash (N.mul shares price);
    positions =
        l.positions
        ++ record {
          ticker = ticker;
          shares = shares;
          entry_price = price;
          current_price = price;
          stop_price = stop_or_default stop_price price;
        }
          ∷ [];
  }

  -- open_position(ticker, shares, price, …)
  unfoldable pub open_position : String → N.F → N.F → Option N.F → PaperLedger → Outcome PaperLedger
  unfolding position_of opened
  open_position ticker shares price stop_price l =
      let cost = N.mul shares price in
      let present = is_some (position_of ticker l.positions) in
      if N.le shares (zero_of N)
      then raised shares_not_positive
      else if N.le price (zero_of N)
      then raised price_not_positive
      else if N.lt l.cash cost
      then raised insufficient_cash
      else if N.lt max_position cost
      then raised position_too_large
      else if not present && leb max_concurrent_positions (length l.positions)
      then raised too_many_positions
      else if present
      then raised position_exists
      else done (opened ticker shares price stop_price l)

  -- positions.pop(ticker)
  unfoldable pub pop : String → List Position → List Position
  pop ticker [] = []
  pop ticker (p ∷ ps) =
      let rest = pop ticker ps in if str_eq p.ticker ticker then rest else p ∷ rest

  -- The rest of close_position, with the position that is there.
  unfoldable pub closed : String → N.F → Option Position → PaperLedger → Outcome (PaperLedger × N.F)
  unfolding pop cost_basis
  closed ticker price none l = raised no_position
  closed ticker price (some p) l = done (
    record { cash = N.add l.cash (N.mul p.shares price); positions = pop ticker l.positions },
    N.sub (N.mul p.shares price) (cost_basis p),
  )

  -- close_position(ticker, price): the ledger and the realized profit.
  unfoldable pub close_position : String → N.F → PaperLedger → Outcome (PaperLedger × N.F)
  unfolding closed position_of
  close_position ticker price l =
      if N.le price (zero_of N)
      then raised price_not_positive
      else closed ticker price (position_of ticker l.positions) l

  -- self.positions[ticker].current_price = price
  unfoldable pub set_price : String → N.F → List Position → List Position
  set_price ticker price [] = []
  set_price ticker price (p ∷ ps) =
      (if str_eq p.ticker ticker then record p { current_price = price } else p)
      ∷ set_price ticker price ps

  -- update_price(ticker, price)
  unfoldable pub update_price : String → N.F → PaperLedger → Outcome PaperLedger
  unfolding position_of set_price
  update_price ticker price l =
      if is_some (position_of ticker l.positions)
      then done (record l { positions = set_price ticker price l.positions })
      else raised no_position

  -- update_prices(prices), which passes over tickers that are not held.
  unfoldable pub update_prices : List (String × N.F) → PaperLedger → PaperLedger
  unfolding set_price
  update_prices [] l = l
  update_prices ((ticker, price) ∷ prices) l =
      update_prices prices (record l { positions = set_price ticker price l.positions })

  -- snapshot(): cash, value of the positions, total, their number and the unrealized profit.
  pub snapshot : PaperLedger → N.F × N.F × N.F × ℕ × N.F
  unfolding positions_total total_value unrealized_pnl
  snapshot l = (
    l.cash,
    positions_total l,
    total_value l,
    length l.positions,
    sum_from N (zero_of N) (map unrealized_pnl l.positions),
  )

  -- A call of the ledger.
  pub data Trade : Type 0 where
    opens : (ticker : String) → (shares price : N.F) → (stop_price : Option N.F) → Trade
    closes : (ticker : String) → (price : N.F) → Trade
    updates : (ticker : String) → (price : N.F) → Trade
    updates_all : List (String × N.F) → Trade

  abbrev pub kept : PaperLedger → Outcome PaperLedger → PaperLedger
  kept l (done l') = l'
  kept l (raised e) = l

  abbrev pub kept_first : PaperLedger → Outcome (PaperLedger × N.F) → PaperLedger
  kept_first l (done (l', pnl)) = l'
  kept_first l (raised e) = l

  -- A caller that goes on with the ledger as it was when a call raises.
  unfoldable pub trade : Trade → PaperLedger → PaperLedger
  trade (opens ticker shares price stop_price) l =
      kept l (open_position ticker shares price stop_price l)
  trade (closes ticker price) l = kept_first l (close_position ticker price l)
  trade (updates ticker price) l = kept l (update_price ticker price l)
  trade (updates_all prices) l = update_prices prices l

  unfoldable pub run_trades : List Trade → PaperLedger → PaperLedger
  unfolding trade
  run_trades [] l = l
  run_trades (t ∷ ts) l = run_trades ts (trade t l)
