-- ===== src/Paper/Positions.antt =====
-- Lookup, removal and prices in a list of positions.
use automatic_trading.Prelude.{
  ◌≤◌, ◌≡◌, refl, subst, leb, true, false, String, str_eq, eq_iff, List, [], ◌∷◌, ◌++◌, length,
  length-append, none, some, All, arith, Bool-cases, inl, inr,
}
use automatic_trading.Float.{Num, zero_of}
use automatic_trading.Paper.{
  max_concurrent_positions, max_position, Position, position_of, pop, set_price, cost_basis,
}

module _ (N : Num) where
  -- A position was bought for a positive number of shares and within the limit for one position.
  pub record IsModest (p : Position N) : Type 0 where
    pub bought : N.le p.shares (zero_of N) ≡ false
    pub limited : N.le (cost_basis N p) (max_position N) ≡ true

  -- No ticker is held twice.
  abbrev pub Distinct : List (Position N) → Type 0
  Distinct [] = Unit {0}
  Distinct (p ∷ ps) = (position_of N p.ticker ps ≡ none) × Distinct ps

  pub position_of-append :
      (t : String) (ps : List (Position N)) (p : Position N)
      → position_of N t ps ≡ none
      → str_eq p.ticker t ≡ false
      → position_of N t (ps ++ p ∷ []) ≡ none
  unfolding position_of
  position_of-append t [] p h e = rw e refl
  position_of-append t (q ∷ ps) p h e = ground (arith, position_of-append t ps p)

  pub position_of-tail :
      (t : String) (q : Position N) (ps : List (Position N))
      → position_of N t (q ∷ ps) ≡ none
      → (str_eq t q.ticker ≡ false) × (position_of N t ps ≡ none)
  unfolding position_of
  position_of-tail t q ps h = ground (arith, eq_iff q.ticker t, eq_iff t q.ticker)

  pub Distinct-snoc :
      (ps : List (Position N)) (p : Position N)
      → Distinct ps
      → position_of N p.ticker ps ≡ none
      → Distinct (ps ++ p ∷ [])
  unfolding position_of
  Distinct-snoc [] p d h = (refl, tt)
  Distinct-snoc (q ∷ ps) p d h =
      let (other, rest) = position_of-tail p.ticker q ps h in
      (position_of-append q.ticker ps p d.0 other, Distinct-snoc ps p d.1 rest)

  pub pop-IsModest :
      (t : String) (ps : List (Position N)) → All IsModest ps → All IsModest (pop N t ps)
  unfolding pop
  pop-IsModest t [] h = tt
  pop-IsModest t (p ∷ ps) (h, k) = elim (Bool-cases (str_eq p.ticker t)) [
    | inl e ↦ rw e (pop-IsModest t ps k)
    | inr e ↦ rw e (h, pop-IsModest t ps k)
  ]

  pub position_of-pop :
      (s t : String) (ps : List (Position N))
      → position_of N s ps ≡ none
      → position_of N s (pop N t ps) ≡ none
  unfolding pop position_of
  position_of-pop s t [] h = refl
  position_of-pop s t (p ∷ ps) h = ground (arith, position_of-pop s t ps)

  pub pop-Distinct : (t : String) (ps : List (Position N)) → Distinct ps → Distinct (pop N t ps)
  unfolding pop
  pop-Distinct t [] h = tt
  pop-Distinct t (p ∷ ps) (h, k) = elim (Bool-cases (str_eq p.ticker t)) [
    | inl e ↦ rw e (pop-Distinct t ps k)
    | inr e ↦ rw e (position_of-pop p.ticker t ps h, pop-Distinct t ps k)
  ]

  pub length-pop : (t : String) (ps : List (Position N)) → length (pop N t ps) ≤ length ps
  unfolding pop
  length-pop t [] = omega arith
  length-pop t (p ∷ ps) = ground (arith, length-pop t ps)

  pub position_of-IsModest :
      (t : String) (ps : List (Position N)) (p : Position N)
      → All IsModest ps
      → position_of N t ps ≡ some p
      → IsModest p
  unfolding position_of
  position_of-IsModest t [] p h e = cc
  position_of-IsModest t (q ∷ ps) p (h, k) e = elim (Bool-cases (str_eq q.ticker t)) [
    | inl f ↦ let same : q ≡ p = ground arith in subst IsModest same h
    | inr f ↦ position_of-IsModest t ps p k (ground arith)
  ]

  pub set_price-IsModest :
      (t : String) (price : N.F) (ps : List (Position N))
      → All IsModest ps
      → All IsModest (set_price N t price ps)
  unfolding set_price cost_basis
  set_price-IsModest t price [] h = tt
  set_price-IsModest t price (p ∷ ps) (h, k) = elim (Bool-cases (str_eq p.ticker t)) [
    | inl e ↦
        rw e (record { bought = h.bought; limited = h.limited }, set_price-IsModest t price ps k)
    | inr e ↦ rw e (h, set_price-IsModest t price ps k)
  ]

  pub position_of-set_price :
      (s t : String) (price : N.F) (ps : List (Position N))
      → position_of N s ps ≡ none
      → position_of N s (set_price N t price ps) ≡ none
  unfolding set_price position_of
  position_of-set_price s t price [] h = refl
  position_of-set_price s t price (p ∷ ps) h = ground (arith, position_of-set_price s t price ps)

  pub set_price-Distinct :
      (t : String) (price : N.F) (ps : List (Position N))
      → Distinct ps
      → Distinct (set_price N t price ps)
  unfolding set_price
  set_price-Distinct t price [] h = tt
  set_price-Distinct t price (p ∷ ps) (h, k) = elim (Bool-cases (str_eq p.ticker t)) [
    | inl e ↦ rw e (position_of-set_price p.ticker t price ps h, set_price-Distinct t price ps k)
    | inr e ↦ rw e (position_of-set_price p.ticker t price ps h, set_price-Distinct t price ps k)
  ]

  pub length-set_price :
      (t : String) (price : N.F) (ps : List (Position N))
      → length (set_price N t price ps) ≡ length ps
  unfolding set_price
  length-set_price t price [] = refl
  length-set_price t price (p ∷ ps) = omega (arith, length-set_price t price ps)

  pub few-snoc :
      (ps : List (Position N)) (p : Position N)
      → leb max_concurrent_positions (length ps) ≡ false
      → length (ps ++ p ∷ []) ≤ max_concurrent_positions
  few-snoc ps p h = ground (arith, length-append ps (p ∷ []))
