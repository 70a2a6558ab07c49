-- ===== src/Audit/Incremental.antt =====
-- The incremental check of the last lines against the full check.
use automatic_trading.Prelude.{
  ℕ, zero, suc, ◌+◌, ◌-◌, ◌<◌, ◌≤◌, ◌≡◌, refl, subst, inl, inr, List, [], ◌∷◌, length, drop, Option,
  none, some, arith,
}
use automatic_trading.Text.{Text, split, text_eq_iff, lines}
use automatic_trading.Audit.{
  genesis, Disk, preimage, check_fields, verify_lines, verify_log, verify_full, valid, next,
  stripped, hash_at, hash_before, verify_recent, verify_last, verify_incremental_log,
  verify_incremental,
}
use automatic_trading.Audit.Chain.{Entry}
use automatic_trading.Audit.Evident.{
  entry_of_fields, IsLink, fifth, verify_lines-round, check_line-next,
}

hash_before-zero : (ls : List Text) → hash_before ls 0 ≡ genesis
unfolding hash_before
hash_before-zero ls = refl

hash_before-suc : (ls : List Text) (j : ℕ) → hash_before ls (suc j) ≡ hash_at ls j
unfolding hash_before
hash_before-suc ls j = let e : suc j - 1 ≡ j = omega arith in rw e (ground arith)

module _ (digest : Text → Text) where
  -- Each line holds an entry that is linked to the one before.
  abbrev Follows : Text → List Text → Type 0
  Follows prev [] = Unit {0}
  Follows prev (l ∷ ls) =
      (e : Entry) × (entry_of_fields (split 9 l) ≡ some e) × IsLink digest prev e × Follows e.sha ls

  stripped-Follows :
      (prev : Text) (n : ℕ) (ls : List Text)
      → verify_lines digest prev n ls ≡ valid
      → Follows prev (stripped ls)
  unfolding stripped
  stripped-Follows prev n [] h = tt
  stripped-Follows prev n (l ∷ ls) h =
      let (sha, k, rest) = verify_lines-round digest prev n l ls h in
      let ih = stripped-Follows sha (suc n) ls rest in
      elim (check_line-next digest prev n l sha k) [
        | inl (b, same) ↦ rw b (subst (λ s. Follows s (stripped ls)) same ih)
        | inr (e, b, fields, link, same) ↦
            rw b ((e, fields, link, subst (λ s. Follows s (stripped ls)) same ih))
      ]

  check_fields-entry :
      (prev : Text) (n : ℕ) (parts : List Text) (e : Entry)
      → entry_of_fields parts ≡ some e
      → IsLink digest prev e
      → check_fields digest prev n parts ≡ next e.sha
  unfolding check_fields
  check_fields-entry prev n (t ∷ p ∷ v ∷ c ∷ h ∷ []) e k link =
      ground (arith, text_eq_iff p prev, text_eq_iff (digest (preimage t prev v c)) h)
  check_fields-entry prev n parts e k link = absurd (cc k)

  verify_recent-Follows :
      (prev : Text) (n : ℕ) (ls : List Text)
      → Follows prev ls
      → verify_recent digest prev n ls ≡ valid
  unfolding verify_recent
  verify_recent-Follows prev n [] f = refl
  verify_recent-Follows prev n (l ∷ ls) (e, fields, link, rest) =
      rw (check_fields-entry prev n (split 9 l) e fields link, verify_recent)
        (verify_recent-Follows e.sha (suc n) ls rest)

  -- Behind any line the chain goes on from that line's own hash.
  Follows-drop :
      (prev : Text) (j : ℕ) (ls : List Text)
      → j < length ls
      → Follows prev ls
      → Follows (hash_at ls j) (drop (suc j) ls)
  unfolding hash_at
  Follows-drop prev j [] h f = absurd (omega arith)
  Follows-drop prev zero (l ∷ ls) h (e, fields, link, rest) =
      rw (fifth (split 9 l) e fields, hash_at) rest
  Follows-drop prev (suc j) (l ∷ ls) h (e, fields, link, rest) =
      Follows-drop e.sha j ls (omega arith) rest

  verify_recent-start :
      (start : ℕ) (ls : List Text)
      → start ≤ length ls
      → Follows genesis ls
      → verify_recent digest (hash_before ls start) (start + 1) (drop start ls) ≡ valid
  verify_recent-start zero ls h f = rw (hash_before-zero ls) (verify_recent-Follows genesis 1 ls f)
  verify_recent-start (suc j) ls h f = rw (hash_before-suc ls j) (
      verify_recent-Follows (hash_at ls j) (suc j + 1) (drop (suc j) ls)
        (Follows-drop genesis j ls (omega arith) f))

  verify_incremental-file :
      (last_n : ℕ) (log : Option Text)
      → verify_log digest log ≡ valid
      → verify_incremental_log digest last_n log ≡ valid
  unfolding verify_incremental_log verify_log verify_last
  verify_incremental-file last_n none h = refl
  verify_incremental-file last_n (some file) h =
      verify_recent-start _ (stripped (lines file)) (omega arith)
        (stripped-Follows genesis 1 (lines file) h)

  -- Whatever number of last lines the incremental check is asked for, it accepts every log that the
  -- full check accepts.
  pub verify_incremental-verify_full :
      (last_n : ℕ) (d : Disk)
      → verify_full digest d ≡ valid
      → verify_incremental digest last_n d ≡ valid
  unfolding verify_full verify_incremental
  verify_incremental-verify_full last_n d h = verify_incremental-file last_n d.log h
