-- ===== src/SleepWatch/Newest.antt =====
-- The loop over the heartbeat files.
use automatic_trading.Prelude.{
  true, false, ◌≡◌, refl, ◌⊎◌, inl, inr, List, [], ◌∷◌, Option, none, some, All, arith, Bool-cases,
  subst, if◌then◌else◌,
}
use automatic_trading.Float.{Num, NumLaws}
use automatic_trading.SleepWatch.{later_heartbeat, latest_heartbeat}

module _ (N : Num) where
  abbrev pub Among : N.F → List (Option N.F) → Type 0
  Among b [] = ⊥
  Among b (o ∷ os) = (o ≡ some b) ⊎ Among b os

  abbrev pub AtMost : N.F → Option N.F → Type 0
  AtMost b none = Unit
  AtMost b (some a) = N.le a b ≡ true

  -- What the loop ends with, from the latest time so far.
  abbrev pub IsNewest : Option N.F → List (Option N.F) → Option N.F → Type 0
  IsNewest acc os none = (acc ≡ none) × All (λ o. o ≡ none) os
  IsNewest acc os (some b) = ((acc ≡ some b) ⊎ Among b os) × AtMost b acc × All (AtMost b) os

  module _ (laws : NumLaws N) where
    before : (a t b : N.F) → N.lt a t ≡ true → N.le t b ≡ true → N.le a b ≡ true
    before a t b h g = ground (arith, laws.lt_not_le a t, laws.le_trans a t b, laws.le_total a t)

    not_after : (a t b : N.F) → N.lt a t ≡ false → N.le a b ≡ true → N.le t b ≡ true
    not_after a t b h g = ground (arith, laws.lt_not_le a t, laws.le_trans t a b)

    -- The file replaces the time before it, or does not.
    replaced :
        (a t : N.F) (os : List (Option N.F)) (r : Option N.F)
        → N.lt a t ≡ true
        → IsNewest (some t) os r
        → IsNewest (some a) (some t ∷ os) r
    replaced a t os none h (e, es) = ground (arith, e)
    replaced a t os (some b) h (inl e, le, es) = (inr (inl e), before a t b h le, (le, es))
    replaced a t os (some b) h (inr m, le, es) = (inr (inr m), before a t b h le, (le, es))

    kept :
        (a t : N.F) (os : List (Option N.F)) (r : Option N.F)
        → N.lt a t ≡ false
        → IsNewest (some a) os r
        → IsNewest (some a) (some t ∷ os) r
    kept a t os none h (e, es) = ground (arith, e)
    kept a t os (some b) h (inl e, le, es) = (inl e, le, (not_after a t b h le, es))
    kept a t os (some b) h (inr m, le, es) = (inr (inr m), le, (not_after a t b h le, es))

    later_heartbeat-IsNewest :
        (o acc : Option N.F) (os : List (Option N.F)) (r : Option N.F)
        → IsNewest (later_heartbeat N o acc) os r
        → IsNewest acc (o ∷ os) r
    unfolding later_heartbeat
    later_heartbeat-IsNewest none acc os none (e, es) = (e, (refl, es))
    later_heartbeat-IsNewest none acc os (some b) (inl e, le, es) = (inl e, le, (tt, es))
    later_heartbeat-IsNewest none acc os (some b) (inr m, le, es) = (inr (inr m), le, (tt, es))
    later_heartbeat-IsNewest (some t) none os none (e, es) = ground (arith, e)
    later_heartbeat-IsNewest (some t) none os (some b) (inl e, le, es) = (inr (inl e), tt, (le, es))
    later_heartbeat-IsNewest (some t) none os (some b) (inr m, le, es) = (inr (inr m), tt, (le, es))
    later_heartbeat-IsNewest (some t) (some a) os r h = elim (Bool-cases (N.lt a t)) [
      | inl e ↦ replaced a t os r e (subst (λ b. IsNewest (if b then some t else some a) os r) e h)
      | inr e ↦ kept a t os r e (subst (λ b. IsNewest (if b then some t else some a) os r) e h)
    ]

    pub latest_heartbeat-IsNewest :
        (acc : Option N.F) (os : List (Option N.F)) → IsNewest acc os (latest_heartbeat N acc os)
    unfolding latest_heartbeat
    latest_heartbeat-IsNewest none [] = (refl, tt)
    latest_heartbeat-IsNewest (some b) [] = (inl refl, laws.le_refl b, tt)
    latest_heartbeat-IsNewest acc (o ∷ os) =
        later_heartbeat-IsNewest o acc os _ (latest_heartbeat-IsNewest (later_heartbeat N o acc) os)
