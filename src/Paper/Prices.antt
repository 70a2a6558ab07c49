-- ===== src/Paper/Prices.antt =====
-- Closing a position right after it was opened.
use automatic_trading.Prelude.{
  ◌≡◌, refl, subst, false, String, eq_iff, List, [], ◌∷◌, ◌++◌, Option, none, some, arith, inl, inr,
}
use automatic_trading.Float.{Num, NumLaws, zero_of}
use automatic_trading.Paper.{
  Position, PaperLedger, position_of, opened, open_position, pop, closed, close_position,
  cost_basis, done, stop_or_default,
}
use automatic_trading.Paper.Solvency.{open_position-guards}

module _ (N : Num) where
  position_of-snoc :
      (ps : List (Position N)) (p : Position N)
      → position_of N p.ticker ps ≡ none
      → position_of N p.ticker (ps ++ p ∷ []) ≡ some p
  unfolding position_of
  position_of-snoc [] p h = ground (arith, eq_iff p.ticker p.ticker)
  position_of-snoc (q ∷ ps) p h = ground (arith, position_of-snoc ps p)

  pop-snoc :
      (ps : List (Position N)) (p : Position N)
      → position_of N p.ticker ps ≡ none
      → pop N p.ticker (ps ++ p ∷ []) ≡ ps
  unfolding position_of pop
  pop-snoc [] p h = ground (arith, eq_iff p.ticker p.ticker)
  pop-snoc (q ∷ ps) p h = ground (arith, pop-snoc ps p)

  module _ (laws : NumLaws N) where
    closed-opened :
        (t : String) (shares price : N.F) (stop : Option N.F) (l : PaperLedger N)
        → N.le price (zero_of N) ≡ false
        → position_of N t l.positions ≡ none
        → close_position N t price (opened N t shares price stop l)
          ≡ done (
            record {
              cash = N.add (N.sub l.cash (N.mul shares price)) (N.mul shares price);
              positions = l.positions;
            },
            zero_of N,
          )
    unfolding close_position opened closed cost_basis
    closed-opened t shares price stop l h k =
        let p : Position N = record {
          ticker = t;
          shares = shares;
          entry_price = price;
          current_price = price;
          stop_price = stop_or_default N stop price;
        } in
        rw
          (
            h,
            position_of-snoc l.positions p k,
            closed,
            pop-snoc l.positions p k,
            laws.sub_self (N.mul shares price),
          )
          refl

    -- A position that is closed at the price at which it was opened gives no profit, its proceeds are
    -- what it cost, and the positions are as they were before.
    pub close_position-open_position :
        (t : String) (shares price : N.F) (stop : Option N.F) (l l' : PaperLedger N)
        → open_position N t shares price stop l ≡ done l'
        → close_position N t price l'
          ≡ done (
            record {
              cash = N.add (N.sub l.cash (N.mul shares price)) (N.mul shares price);
              positions = l.positions;
            },
            zero_of N,
          )
    close_position-open_position t shares price stop l l' e =
        elim (open_position-guards N laws t shares price stop l) [
          | inl (f, h1, h0, h2, h3, h4, h5) ↦
              let same : opened N t shares price stop l ≡ l' = cc in
              subst
                (λ x.
                  close_position N t price x
                  ≡ done (
                    record {
                      cash = N.add (N.sub l.cash (N.mul shares price)) (N.mul shares price);
                      positions = l.positions;
                    },
                    zero_of N,
                  ))
                same (closed-opened t shares price stop l h0 h4)
          | inr (x, f) ↦ cc
        ]
