-- ===== src/Arbitration/Bootstrap.antt =====
-- When signals without a track record are followed.
use automatic_trading.Prelude.{
  ℕ, ◌*◌, ◌&&◌, not, Bool, select, subst, ◌⊎◌, inl, inr, ◌≤◌, leb, true, ◌≡◌, refl, ◌↔◌, String,
  List, [], ◌∷◌, length, arith,
}
use automatic_trading.Float.{Num}
use automatic_trading.Arbitration.{
  ArbitrationSignal, Direction, up, flat, down, same_direction, direction_of, dominant_direction,
  points, count_direction, majority_threshold, plurality, counted_majority, majority_direction,
  proceed_bootstrap_low_confidence,
}
use automatic_trading.Arbitration.Main.{bootstrap, aborted}

same_direction_refl : (d : Direction) → same_direction d d ≡ true
unfolding same_direction
same_direction_refl d = ground arith

-- The threshold is the least number of at least two that is 60% or more.
majority_threshold_lem : (n c : ℕ) → (majority_threshold n ≤ c) ↔ ((2 ≤ c) × (6 * n ≤ 10 * c))
unfolding majority_threshold
majority_threshold_lem n c = ((λ h. ground (arith, h)), λ h. ground (arith, h.0, h.1))

module _ (N : Num) where
  -- The direction of a signal: up if nothing is likelier, else down if nothing is likelier, else flat.
  abbrev pub leads_up : ArbitrationSignal N → Bool
  leads_up s = N.le s.dp.p_flat s.dp.p_up && N.le s.dp.p_down s.dp.p_up

  abbrev pub leads_down : ArbitrationSignal N → Bool
  leads_down s = not (leads_up s) && N.le s.dp.p_flat s.dp.p_down && N.le s.dp.p_up s.dp.p_down

  abbrev pub leads : Direction → ArbitrationSignal N → Bool
  leads up s = leads_up s
  leads down s = leads_down s
  leads flat s = not (leads_up s) && not (leads_down s)

  abbrev pub votes : Direction → List (ArbitrationSignal N) → ℕ
  votes d signals = length (select (leads d) signals)

  -- The only signal, or a direction of at least two signals and at least 60% of them.
  abbrev pub HasQuorum : List (ArbitrationSignal N) → Type 0
  HasQuorum signals =
      (length signals ≡ 1)
      ⊎ ((d : Direction) × (2 ≤ votes d signals) × (6 * length signals ≤ 10 * votes d signals))

  points-leads : (d : Direction) (s : ArbitrationSignal N) → points N d s ≡ leads d s
  unfolding points direction_of dominant_direction same_direction
  points-leads d s = elim d [ up ↦ ground arith | flat ↦ ground arith | down ↦ ground arith ]

  count_direction-votes :
      (d : Direction) (signals : List (ArbitrationSignal N))
      → count_direction N signals d ≡ votes d signals
  unfolding count_direction
  count_direction-votes d [] = refl
  count_direction-votes d (s ∷ signals) =
      let rest = count_direction-votes d signals in ground (arith, rest, points-leads d s)

  HasQuorum-counted :
      (s t : ArbitrationSignal N) (signals : List (ArbitrationSignal N))
      → HasQuorum (s ∷ t ∷ signals) ↔ (
          (d : Direction) × (majority_threshold (length (s ∷ t ∷ signals))
            ≤ count_direction N (s ∷ t ∷ signals) d))
  HasQuorum-counted s t signals = (
    (λ q. elim q [
      | inl e ↦ absurd (omega (arith, e))
      | inr (d, two, most) ↦ (
        d,
        rw (count_direction-votes d (s ∷ t ∷ signals)) ((majority_threshold_lem _ _).1 (two, most)),
      )
    ]),
    λ (d, h).
        let counted =
          subst (λ c. majority_threshold (length (s ∷ t ∷ signals)) ≤ c)
            (count_direction-votes d (s ∷ t ∷ signals)) h in
        let (two, most) =
          (majority_threshold_lem (length (s ∷ t ∷ signals)) (votes d (s ∷ t ∷ signals))).0
            counted in
        inr (d, two, most),
  )

  counted_majority_lem :
      (signals : List (ArbitrationSignal N)) (d : Direction)
      → majority_threshold (length signals) ≤ count_direction N signals d
      → (counted_majority N signals).has_majority ≡ true
  unfolding counted_majority plurality
  counted_majority_lem signals up h = ground arith
  counted_majority_lem signals flat h = ground arith
  counted_majority_lem signals down h = ground arith

  counted_majority_back :
      (signals : List (ArbitrationSignal N))
      → (counted_majority N signals).has_majority ≡ true
      → (d : Direction) × (majority_threshold (length signals) ≤ count_direction N signals d)
  unfolding counted_majority
  counted_majority_back signals h = (
    plurality (count_direction N signals up) (count_direction N signals flat)
        (count_direction N signals down),
    ground (arith, h),
  )

  majority_direction_lem :
      (signals : List (ArbitrationSignal N))
      → ((majority_direction N signals).has_majority ≡ true) ↔ HasQuorum signals
  unfolding majority_direction
  majority_direction_lem [] = (
    (λ h. ground (arith, h)),
    λ q. elim q [
      | inl e ↦ absurd (omega (arith, e))
      | inr (d, two, most) ↦ absurd (omega (arith, two))
    ],
  )
  majority_direction_lem (s ∷ []) = ((λ h. inl refl), λ q. refl)
  majority_direction_lem (s ∷ t ∷ signals) = (
    (λ h. (HasQuorum-counted s t signals).1 (counted_majority_back (s ∷ t ∷ signals) h)),
    λ q.
        let (d, k) = (HasQuorum-counted s t signals).0 q in
        counted_majority_lem (s ∷ t ∷ signals) d k,
  )

  HasQuorum-some :
      (signals : List (ArbitrationSignal N)) → HasQuorum signals → leb 1 (length signals) ≡ true
  HasQuorum-some [] q = elim q [
    | inl e ↦ absurd (omega (arith, e))
    | inr (d, two, most) ↦ absurd (omega (arith, two))
  ]
  HasQuorum-some (s ∷ signals) q = ground arith

  -- Where no mature source is usable, the signals are followed exactly when there is only one that is
  -- usable, or when at least two of them and at least 60% of them have one direction: the likeliest of
  -- the three, up before down before flat where two are.
  pub bootstrap-HasQuorum :
      (ticker : String) (immature usable : List (ArbitrationSignal N))
      → ((bootstrap N ticker immature usable).decision ≡ proceed_bootstrap_low_confidence)
        ↔ HasQuorum usable
  unfolding bootstrap aborted
  bootstrap-HasQuorum ticker immature usable =
      let (into, back) = majority_direction_lem usable in
      ((λ e. into (ground (arith, e))), λ q. ground (arith, back q, HasQuorum-some usable q))
