-- ===== src/Audit/Evident.antt =====
-- Logs that the full check accepts, compared with each other.
use automatic_trading.Prelude.{
  ℕ, suc, ◌≡◌, ◌≢◌, refl, sym, ◌∙◌, ◌⊎◌, inl, inr, true, false, List, [], ◌∷◌, ◌++◌, All, length,
  Option, none, some, arith, Bool-cases, subst, get_elem?, if◌then◌else◌,
}
use automatic_trading.Text.{
  Text, Lacks, split, text_eq, text_eq_iff, strip, lines, Printable-Lacks, Graphic-Printable,
}
use automatic_trading.Audit.{
  genesis, Disk, open_writer, recovered, recover, is_blank, preimage, check_fields, check_line,
  verify_lines, verify_log, verify_full, valid, next, stop, Round,
}
use automatic_trading.Audit.Chain.{Entry, IsWord, last_sha, IsChain}
use automatic_trading.Audit.Verified.{IsHexdigest, digest-IsWord, genesis-IsWord}

abbrev pub entry_of_fields : List Text → Option Entry
entry_of_fields (t ∷ p ∷ v ∷ c ∷ h ∷ []) =
    some (record { iso_ts = t; prev_sha = p; event_type = v; canon = c; sha = h })
entry_of_fields parts = none

abbrev onto {ℓ} : {A : Type ℓ} → Option A → List A → List A
onto none xs = xs
onto (some x) xs = x ∷ xs

-- The entries that lines hold. Blank lines are skipped.
unfoldable pub parse_lines : List Text → List Entry
parse_lines [] = []
parse_lines (l ∷ ls) =
    let line = strip l in
    let rest = parse_lines ls in
    if is_blank line then rest else onto (entry_of_fields (split 9 line)) rest

-- The entries of the log.
unfoldable pub entries_of : Option Text → List Entry
unfolding parse_lines
entries_of none = []
entries_of (some file) = parse_lines (lines file)

-- The two fields that are not hashes and stand before a NUL in what is hashed.
abbrev pub NulFree : Entry → Type 0
NulFree e = Lacks 0 e.iso_ts × Lacks 0 e.event_type

cut : (a b x y : Text) → Lacks 0 a → Lacks 0 b → a ++ 0 ∷ x ≡ b ++ 0 ∷ y → (a ≡ b) × (x ≡ y)
cut [] [] x y la lb e = ground arith
cut [] (c ∷ b) x y la lb e = ground arith
cut (c ∷ a) [] x y la lb e = ground arith
cut (c ∷ a) (d ∷ b) x y la lb e = ground (arith, cut a b x y)

preimage-injective :
    (t t' p p' v v' c c' : Text)
    → Lacks 0 t
    → Lacks 0 t'
    → Lacks 0 p
    → Lacks 0 p'
    → Lacks 0 v
    → Lacks 0 v'
    → preimage t p v c ≡ preimage t' p' v' c'
    → (t ≡ t') × (p ≡ p') × (v ≡ v') × (c ≡ c')
unfolding preimage
preimage-injective t t' p p' v v' c c' lt lt' lp lp' lv lv' e =
    let (et, e1) = cut t t' (p ++ (0 ∷ v ++ 0 ∷ c)) (p' ++ (0 ∷ v' ++ 0 ∷ c')) lt lt' e in
    let (ep, e2) = cut p p' (v ++ 0 ∷ c) (v' ++ 0 ∷ c') lp lp' e1 in
    let (ev, ec) = cut v v' c c' lv lv' e2 in (et, ep, ev, ec)

pub word-NulFree : (s : Text) → IsWord s → Lacks 0 s
word-NulFree s w = Printable-Lacks 0 s (omega arith) (Graphic-Printable s w.1)

pub fifth :
    (parts : List Text) (e : Entry)
    → entry_of_fields parts ≡ some e
    → get_elem? parts 4 ≡ some e.sha
fifth (t ∷ p ∷ v ∷ c ∷ h ∷ []) e k = ground arith
fifth parts e k = absurd (cc k)

module _ (digest : Text → Text) where
  -- An entry that is linked to the given hash and carries its own.
  abbrev pub IsLink : Text → Entry → Type 0
  IsLink p e =
      (e.prev_sha ≡ p) × (e.sha ≡ digest (preimage e.iso_ts e.prev_sha e.event_type e.canon))

  -- What the entry's hash is of.
  abbrev pub hashed_text : Entry → Text
  hashed_text e = preimage e.iso_ts e.prev_sha e.event_type e.canon

  -- Somewhere the two logs have, at one place, entries whose hashed texts differ and have one hash.
  abbrev pub Clash : List Entry → List Entry → Type 0
  Clash (e ∷ es) (f ∷ fs) =
      ((hashed_text e ≢ hashed_text f) × (digest (hashed_text e) ≡ digest (hashed_text f)))
      ⊎ Clash es fs
  Clash _ _ = ⊥

  links-agree :
      (p q : Text) (e f : Entry)
      → Lacks 0 p
      → Lacks 0 q
      → NulFree e
      → NulFree f
      → IsLink p e
      → IsLink q f
      → e.sha ≡ f.sha
      → ((p ≡ q) × (e ≡ f))
        ⊎ ((hashed_text e ≢ hashed_text f) × (digest (hashed_text e) ≡ digest (hashed_text f)))
  links-agree p q e f lp lq ne nf le lf h =
      let s = preimage e.iso_ts e.prev_sha e.event_type e.canon in
      let t = preimage f.iso_ts f.prev_sha f.event_type f.canon in
      elim (Bool-cases (text_eq s t)) [
        | inl same ↦
            let parts =
              preimage-injective e.iso_ts f.iso_ts e.prev_sha f.prev_sha e.event_type f.event_type
                e.canon f.canon ne.0 nf.0 (subst (Lacks 0) (sym le.0) lp)
                (subst (Lacks 0) (sym lf.0) lq) ne.1 nf.1 ((text_eq_iff s t).0 same) in
            inl (sym le.0 ∙ parts.1 ∙ lf.0, ground arith)
        | inr differ ↦ inr ((λ e. cc ((text_eq_iff s t).1 e)), sym le.1 ∙ h ∙ lf.1)
      ]

  -- Chains of one length that end in one hash are one chain, or they clash.
  chains-agree :
      (law : IsHexdigest digest) (p q : Text) (es fs : List Entry)
      → Lacks 0 p
      → Lacks 0 q
      → All NulFree es
      → All NulFree fs
      → IsChain digest p es
      → IsChain digest q fs
      → length es ≡ length fs
      → last_sha p es ≡ last_sha q fs
      → ((p ≡ q) × (es ≡ fs)) ⊎ Clash es fs
  chains-agree law p q [] [] lp lq ne nf ce cf n l = inl (l, refl)
  chains-agree law p q [] (f ∷ fs) lp lq ne nf ce cf n l = absurd (omega arith)
  chains-agree law p q (e ∷ es) [] lp lq ne nf ce cf n l = absurd (omega arith)
  chains-agree law p q (e ∷ es) (f ∷ fs) lp lq ne nf ce cf n l =
      elim (chains-agree law e.sha f.sha es fs (hashed e ce.1) (hashed f cf.1) ne.1 nf.1 ce.2 cf.2
        (omega arith) l) [
          | inl (h, rest) ↦ elim (links-agree p q e f lp lq ne.0 nf.0 (ce.0, ce.1) (cf.0, cf.1) h) [
            | inl (start, first) ↦ inl (start, ground arith)
            | inr clash ↦ inr (inl clash)
          ]
          | inr clash ↦ inr (inr clash)
        ]
    where
      hashed :
          (e : Entry)
          → e.sha ≡ digest (preimage e.iso_ts e.prev_sha e.event_type e.canon)
          → Lacks 0 e.sha
      hashed e h = subst (Lacks 0) (sym h) (word-NulFree _ (digest-IsWord digest law _))

  check_fields-next :
      (prev : Text) (n : ℕ) (parts : List Text) (sha : Text)
      → check_fields digest prev n parts ≡ next sha
      → (e : Entry) × (entry_of_fields parts ≡ some e) × IsLink prev e × (sha ≡ e.sha)
  unfolding check_fields
  check_fields-next prev n (t ∷ p ∷ v ∷ c ∷ h ∷ []) sha k = (
    record { iso_ts = t; prev_sha = p; event_type = v; canon = c; sha = h },
    refl,
    ground (arith, text_eq_iff p prev, text_eq_iff (digest (preimage t prev v c)) h),
    ground arith,
  )
  check_fields-next prev n parts sha k = absurd (cc k)

  check_fields-stop :
      (prev : Text) (n : ℕ) (parts : List Text) → check_fields digest prev n parts ≢ stop valid
  unfolding check_fields
  check_fields-stop prev n (t ∷ p ∷ v ∷ c ∷ h ∷ []) k = ground arith
  check_fields-stop prev n parts k = cc k

  -- A line on which the loop goes on is blank, or holds an entry that is linked.
  pub check_line-next :
      (prev : Text) (n : ℕ) (l sha : Text)
      → check_line digest prev n l ≡ next sha
      → ((is_blank (strip l) ≡ true) × (sha ≡ prev))
        ⊎ ((e : Entry) × (is_blank (strip l) ≡ false)
            × (entry_of_fields (split 9 (strip l)) ≡ some e)
            × IsLink prev e
            × (sha ≡ e.sha))
  unfolding check_line
  check_line-next prev n l sha k = elim (Bool-cases (is_blank (strip l))) [
    | inl b ↦ inl (b, ground arith)
    | inr b ↦
        let (e, fields, link, h) =
          check_fields-next prev n (split 9 (strip l)) sha (ground arith) in
        inr (e, b, fields, link, h)
  ]

  check_line-stop : (prev : Text) (n : ℕ) (l : Text) → check_line digest prev n l ≢ stop valid
  unfolding check_line
  check_line-stop prev n l k = ground (arith, check_fields-stop prev n (split 9 (strip l)))

  -- The first round of a run that ends well.
  pub verify_lines-round :
      (prev : Text) (n : ℕ) (l : Text) (ls : List Text)
      → verify_lines digest prev n (l ∷ ls) ≡ valid
      → (sha : Text) × (check_line digest prev n l ≡ next sha)
        × (verify_lines digest sha (suc n) ls ≡ valid)
  unfolding verify_lines
  verify_lines-round prev n l ls h = go (check_line digest prev n l) refl
    where
      go :
          (r : Round)
          → check_line digest prev n l ≡ r
          → (sha : Text) × (check_line digest prev n l ≡ next sha)
            × (verify_lines digest sha (suc n) ls ≡ valid)
      go (next sha) e = (sha, e, ground arith)
      go (stop v) e = absurd (check_line-stop prev n l (ground arith))

  verify_lines-IsChain :
      (prev : Text) (n : ℕ) (ls : List Text)
      → verify_lines digest prev n ls ≡ valid
      → IsChain digest prev (parse_lines ls) × (last_sha prev (parse_lines ls) ≡ recover prev ls)
  unfolding parse_lines recover
  verify_lines-IsChain prev n [] h = (tt, refl)
  verify_lines-IsChain prev n (l ∷ ls) h =
      let (sha, k, rest) = verify_lines-round prev n l ls h in
      let ih = verify_lines-IsChain sha (suc n) ls rest in
      elim (check_line-next prev n l sha k) [
        | inl (b, same) ↦ rw b (subst Reads same ih)
        | inr (e, b, fields, link, same) ↦
            let reads = subst Reads same ih in
            rw b
              (rw (fields, fifth (split 9 (strip l)) e fields) ((link.0, link.1, reads.0), reads.1))
      ]
    where
      Reads : Text → Type 0
      Reads s = IsChain digest s (parse_lines ls) × (last_sha s (parse_lines ls) ≡ recover s ls)

  verify_log-IsChain :
      (log : Option Text)
      → verify_log digest log ≡ valid
      → IsChain digest genesis (entries_of log)
        × (last_sha genesis (entries_of log) ≡ recovered log)
  unfolding verify_log entries_of recovered
  verify_log-IsChain none h = (tt, refl)
  verify_log-IsChain (some file) h = verify_lines-IsChain genesis 1 (lines file) h

  -- If the verifier accepts two logs with equally many entries, in which no time stamp or event type
  -- holds a NUL, and a writer would recover the same last hash from both, then the logs hold the same
  -- entries, or two entries at one place in them show a collision: what is hashed of the one and of the
  -- other differs and has one hash. `digest` is any function whose results look like SHA-256 hexdigests.
  pub tampering_evident :
      (law : IsHexdigest digest) (d d' : Disk)
      → verify_full digest d ≡ valid
      → verify_full digest d' ≡ valid
      → length (entries_of d.log) ≡ length (entries_of d'.log)
      → All NulFree (entries_of d.log)
      → All NulFree (entries_of d'.log)
      → (open_writer d).prev_sha ≡ (open_writer d').prev_sha
      → (entries_of d.log ≡ entries_of d'.log) ⊎ Clash (entries_of d.log) (entries_of d'.log)
  unfolding verify_full open_writer
  tampering_evident law d d' h h' n ne nf l =
      let (c, r) = verify_log-IsChain d.log h in
      let (c', r') = verify_log-IsChain d'.log h' in
      let zeros = word-NulFree genesis genesis-IsWord in
      elim (chains-agree law genesis genesis (entries_of d.log) (entries_of d'.log) zeros zeros ne
        nf c c' n (r ∙ l ∙ sym r')) [ inl same ↦ inl same.1 | inr clash ↦ inr clash ]
