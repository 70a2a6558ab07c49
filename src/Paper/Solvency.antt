-- ===== src/Paper/Solvency.antt =====
-- What every history of trades keeps.
use automatic_trading.Prelude.{
  ◌≤◌, ◌≡◌, refl, leb, Bool, true, false, String, List, [], ◌∷◌, length, Option, none, some, All,
  All-append, arith, if◌then◌else◌, Bool-cases, inl, inr, ◌⊎◌,
}
use automatic_trading.Float.{Num, NumLaws, zero_of}
use automatic_trading.Paper.{
  max_concurrent_positions, max_position, Position, PaperLedger, position_of, opened, open_position,
  pop, closed, close_position, set_price, update_price, update_prices, cost_basis, LedgerError,
  no_position, kept, kept_first, done, raised, Trade, opens, closes, updates, updates_all, trade,
  run_trades,
}
use automatic_trading.Paper.Positions.{
  IsModest, Distinct, Distinct-snoc, pop-IsModest, pop-Distinct, length-pop, position_of-IsModest,
  set_price-IsModest, set_price-Distinct, length-set_price, few-snoc,
}

module _ (N : Num) where
  pub record IsSolvent (l : PaperLedger N) : Type 0 where
    pub funded : N.le (zero_of N) l.cash ≡ true
    pub modest : All (IsModest N) l.positions
    pub distinct : Distinct N l.positions
    pub few : length l.positions ≤ max_concurrent_positions

  set_price-IsSolvent :
      (t : String) (price : N.F) (l : PaperLedger N)
      → IsSolvent l
      → IsSolvent (record l { positions = set_price N t price l.positions })
  set_price-IsSolvent t price l s = record {
    funded = s.funded;
    modest = set_price-IsModest N t price l.positions s.modest;
    distinct = set_price-Distinct N t price l.positions s.distinct;
    few = omega (arith, length-set_price N t price l.positions, s.few);
  }

  update_prices-IsSolvent :
      (prices : List (String × N.F)) (l : PaperLedger N)
      → IsSolvent l
      → IsSolvent (update_prices N prices l)
  unfolding update_prices
  update_prices-IsSolvent [] l s = s
  update_prices-IsSolvent ((t, price) ∷ prices) l s =
      update_prices-IsSolvent prices (record l { positions = set_price N t price l.positions })
        (set_price-IsSolvent t price l s)

  module _ (laws : NumLaws N) where
    positive-IsNonneg : (a : N.F) → N.le a (zero_of N) ≡ false → N.le (zero_of N) a ≡ true
    positive-IsNonneg a h = ground (arith, laws.le_total a (zero_of N))

    not_less : (a b : N.F) → N.lt a b ≡ false → N.le b a ≡ true
    not_less a b h = ground (arith, laws.lt_not_le a b)

    -- What the guards of open_position establish.
    pub open_position-guards :
        (t : String) (shares price : N.F) (stop : Option N.F) (l : PaperLedger N)
        → (open_position N t shares price stop l ≡ done (opened N t shares price stop l)
            × (N.le shares (zero_of N) ≡ false)
            × (N.le price (zero_of N) ≡ false)
            × (N.lt l.cash (N.mul shares price) ≡ false)
            × (N.lt (max_position N) (N.mul shares price) ≡ false)
            × (position_of N t l.positions ≡ none)
            × (leb max_concurrent_positions (length l.positions) ≡ false))
          ⊎ ((e : LedgerError) × (open_position N t shares price stop l ≡ raised e))
    unfolding open_position
    open_position-guards t shares price stop l = ground arith

    opened-IsSolvent :
        (t : String) (shares price : N.F) (stop : Option N.F) (l : PaperLedger N)
        → IsSolvent l
        → N.le shares (zero_of N) ≡ false
        → N.lt l.cash (N.mul shares price) ≡ false
        → N.lt (max_position N) (N.mul shares price) ≡ false
        → position_of N t l.positions ≡ none
        → leb max_concurrent_positions (length l.positions) ≡ false
        → IsSolvent (opened N t shares price stop l)
    unfolding opened cost_basis
    opened-IsSolvent t shares price stop l s h1 h2 h3 h4 h5 = record {
      funded =
          laws.sub_nonneg l.cash (N.mul shares price) (not_less l.cash (N.mul shares price) h2);
      modest =
          All-append (IsModest N) l.positions _ s.modest (
            record { bought = h1; limited = not_less (max_position N) (N.mul shares price) h3 },
            tt,
          );
      distinct = Distinct-snoc N l.positions _ s.distinct h4;
      few = few-snoc N l.positions _ h5;
    }

    proceeds-IsSolvent :
        (t : String) (price : N.F) (p : Position N) (l : PaperLedger N)
        → IsSolvent l
        → N.le price (zero_of N) ≡ false
        → position_of N t l.positions ≡ some p
        → IsSolvent
            (record { cash = N.add l.cash (N.mul p.shares price); positions = pop N t l.positions })
    proceeds-IsSolvent t price p l s h e =
        let m = position_of-IsModest N t l.positions p s.modest e in
        record {
          funded = laws.add_nonneg l.cash (N.mul p.shares price) s.funded (
              laws.mul_nonneg p.shares price (positive-IsNonneg p.shares m.bought)
                (positive-IsNonneg price h));
          modest = pop-IsModest N t l.positions s.modest;
          distinct = pop-Distinct N t l.positions s.distinct;
          few = omega (arith, length-pop N t l.positions, s.few);
        }

    closed-IsSolvent :
        (t : String) (price : N.F) (o : Option (Position N)) (l : PaperLedger N)
        → IsSolvent l
        → N.le price (zero_of N) ≡ false
        → position_of N t l.positions ≡ o
        → IsSolvent (kept_first N l (closed N t price o l))
    unfolding closed
    closed-IsSolvent t price none l s h e = s
    closed-IsSolvent t price (some p) l s h e = proceeds-IsSolvent t price p l s h e

    updated-IsSolvent :
        (b : Bool) (t : String) (price : N.F) (l : PaperLedger N)
        → IsSolvent l
        → IsSolvent (
            kept N l (
              if b
              then done (record l { positions = set_price N t price l.positions })
              else raised no_position))
    updated-IsSolvent true t price l s = set_price-IsSolvent t price l s
    updated-IsSolvent false t price l s = s

    trade-IsSolvent : (t : Trade N) (l : PaperLedger N) → IsSolvent l → IsSolvent (trade N t l)
    unfolding trade close_position update_price
    trade-IsSolvent (opens t shares price stop) l s =
        elim (open_position-guards t shares price stop l) [
          | inl (e, h1, h0, h2, h3, h4, h5) ↦
              rw (e, trade) (opened-IsSolvent t shares price stop l s h1 h2 h3 h4 h5)
          | inr (x, e) ↦ rw (e, trade) s
        ]
    trade-IsSolvent (closes t price) l s = elim (Bool-cases (N.le price (zero_of N))) [
      | inl e ↦ rw e s
      | inr e ↦ rw e (closed-IsSolvent t price _ l s e refl)
    ]
    trade-IsSolvent (updates t price) l s = updated-IsSolvent _ t price l s
    trade-IsSolvent (updates_all prices) l s = update_prices-IsSolvent prices l s

    -- Whatever trades are made, also ones that are refused, they keep this: the cash is not negative, at
    -- most five positions are held, no ticker twice, and each was bought within 20% of the capital.
    pub run_trades-IsSolvent :
        (ts : List (Trade N)) (l : PaperLedger N) → IsSolvent l → IsSolvent (run_trades N ts l)
    unfolding run_trades
    run_trades-IsSolvent [] l s = s
    run_trades-IsSolvent (t ∷ ts) l s =
        run_trades-IsSolvent ts (trade N t l) (trade-IsSolvent t l s)
