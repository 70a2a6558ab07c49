-- ===== src/Mutation/Rollback.antt =====
-- What the daemon's watch does to the proposals and to the registry.
use automatic_trading.Prelude.{
  ℕ, Bool, true, false, ◌&&◌, ◌≡◌, refl, ap, ◌∙◌, String, str_eq, eq_iff, List, [], ◌∷◌, arith, map,
  any, if◌then◌else◌, Bool-cases, inl, inr,
}
use automatic_trading.Text.{Text}
use automatic_trading.Float.{Num}
use automatic_trading.Mutation.{
  World, Clock, ProposalRow, set_status, execute_rollback, Observed, regressed, roll_back_regressed,
  monitor_rollbacks,
}

module _ (N : Num) (digest : Text → Text) (observe : String → Observed N) (probation window : ℕ)
    (sse : Bool) where
  -- A promoted row of that identifier has regressed.
  abbrev pub hit : String → List ProposalRow → Bool
  hit id = any λ p.
      str_eq p.status "OPERATOR_PROMOTED"
      && regressed N probation window (observe p.id)
      && str_eq p.id id

  abbrev pub status_after : List ProposalRow → ProposalRow → String
  status_after ps r = if hit r.id ps then "ROLLED_BACK" else r.status

  both : {x y : String} {xs ys : List String} → x ≡ y → xs ≡ ys → x ∷ xs ≡ y ∷ ys
  both {x} {y} {xs} {ys} p q = ap (λ z. z ∷ xs) p ∙ ap (λ zs. y ∷ zs) q

  rolled :
      (r p : ProposalRow) (ps : List ProposalRow)
      → (str_eq p.status "OPERATOR_PROMOTED" && regressed N probation window (observe p.id)) ≡ true
      → str_eq r.id p.id ≡ true
      → (if hit r.id ps then "ROLLED_BACK" else "ROLLED_BACK") ≡ status_after (p ∷ ps) r
  rolled r p ps h e = ground (arith, h, e, eq_iff r.id p.id, eq_iff p.id r.id)

  not_rolled :
      (r p : ProposalRow) (ps : List ProposalRow)
      → (str_eq p.status "OPERATOR_PROMOTED" && regressed N probation window (observe p.id)) ≡ true
      → str_eq r.id p.id ≡ false
      → status_after ps r ≡ status_after (p ∷ ps) r
  not_rolled r p ps h e = ground (arith, h, e, eq_iff r.id p.id, eq_iff p.id r.id)

  map-skip :
      (p : ProposalRow) (ps rows : List ProposalRow)
      → (str_eq p.status "OPERATOR_PROMOTED" && regressed N probation window (observe p.id)) ≡ false
      → map (status_after ps) rows ≡ map (status_after (p ∷ ps)) rows
  map-skip p ps [] h = refl
  map-skip p ps (r ∷ rows) h = both (ground (arith, h)) (map-skip p ps rows h)

  map-set_status :
      (p : ProposalRow) (ps : List ProposalRow) (now : Text) (rows : List ProposalRow)
      → (str_eq p.status "OPERATOR_PROMOTED" && regressed N probation window (observe p.id)) ≡ true
      → map (status_after ps) (set_status p.id "ROLLED_BACK" now rows)
        ≡ map (status_after (p ∷ ps)) rows
  unfolding set_status
  map-set_status p ps now [] h = refl
  map-set_status p ps now (r ∷ rows) h =
      let rest = map-set_status p ps now rows h in
      elim (Bool-cases (str_eq r.id p.id)) [
        | inl e ↦ rw (e, set_status) (both (rolled r p ps h e) rest)
        | inr e ↦ rw (e, set_status) (both (not_rolled r p ps h e) rest)
      ]

  -- What holds of each row after the loop over the rows that were read.
  map-roll_back_regressed :
      (clock : String → Clock) (cycle_id : String) (ps : List ProposalRow) (w : World)
      → let w' = roll_back_regressed N digest observe probation window sse clock cycle_id ps w in
        (map (λ r. r.status) w'.proposals ≡ map (status_after ps) w.proposals)
        × (w'.registry ≡ w.registry)
  unfolding roll_back_regressed execute_rollback
  map-roll_back_regressed clock cycle_id [] w = (refl, refl)
  map-roll_back_regressed clock cycle_id (p ∷ ps) w =
      elim (Bool-cases
        (str_eq p.status "OPERATOR_PROMOTED" && regressed N probation window (observe p.id))) [
          | inl e ↦
              let (k, l) = map-roll_back_regressed clock cycle_id ps (
                execute_rollback digest (clock p.id) p.id
                  "auto_rollback: regression after probation" sse cycle_id w) in
              rw (e, roll_back_regressed)
                (k ∙ map-set_status p ps (clock p.id).now w.proposals e, l)
          | inr e ↦
              let (k, l) = map-roll_back_regressed clock cycle_id ps w in
              rw (e, roll_back_regressed) (k ∙ map-skip p ps w.proposals e, l)
        ]

  -- After the daemon's watch a proposal has the status ROLLED_BACK exactly if it had it before or one of
  -- its identifier was promoted and has regressed; every other status is as before. The registry is
  -- untouched: no rollback of the daemon takes a candidate out of it.
  pub monitor_rollbacks-registry :
      (clock : String → Clock) (cycle_id : String) (w : World)
      → let w' = monitor_rollbacks N digest observe probation window sse clock cycle_id w in
        (map (λ r. r.status) w'.proposals ≡ map (status_after w.proposals) w.proposals)
        × (w'.registry ≡ w.registry)
  unfolding monitor_rollbacks
  monitor_rollbacks-registry clock cycle_id w = map-roll_back_regressed clock cycle_id w.proposals w
