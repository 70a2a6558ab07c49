-- ===== src/Audit/Chain.antt =====
-- The lines of the log as entries, and what it means that entries form a chain.
use automatic_trading.Prelude.{
  ℕ, suc, ◌≤◌, ◌≡◌, ◌≢◌, refl, sym, ap, ◌∙◌, false, List, [], ◌∷◌, ◌++◌, map, append_assoc, All,
  All-append, arith,
}
use automatic_trading.Text.{
  Text, Lacks, split, split-append, split-Lacks, text_eq_iff, strip, strip-between, Graphic,
  Printable, Graphic-Printable, Printable-Lacks, InLine, Printable-InLine,
}
use automatic_trading.Audit.{
  is_blank, recover, preimage, line_of, check_fields, check_line, verify_lines, valid, next,
}

pub record Entry : Type 0 where
  pub iso_ts : Text
  pub prev_sha : Text
  pub event_type : Text
  pub canon : Text
  pub sha : Text

abbrev pub entry_line : Entry → Text
entry_line e = line_of e.iso_ts e.prev_sha e.event_type e.canon e.sha

-- Not empty, and of characters that show only.
abbrev pub IsWord : Text → Type 0
IsWord s = (s ≢ []) × All Graphic s

-- The fields are such that the line can be read back.
pub record IsClean (e : Entry) : Type 0 where
  pub stamped : IsWord e.iso_ts
  pub linked : IsWord e.prev_sha
  pub typed : All Printable e.event_type
  pub shown : All Printable e.canon
  pub hashed : IsWord e.sha

pub split-line_of :
    (t p v c h : Text)
    → Lacks 9 t
    → Lacks 9 p
    → Lacks 9 v
    → Lacks 9 c
    → Lacks 9 h
    → split 9 (line_of t p v c h) ≡ t ∷ p ∷ v ∷ c ∷ h ∷ []
unfolding line_of
split-line_of t p v c h lt lp lv lc lh = simp (
  split-append 9 t (p ++ (9 ∷ v ++ (9 ∷ c ++ 9 ∷ h))) lt,
  split-append 9 p (v ++ (9 ∷ c ++ 9 ∷ h)) lp,
  split-append 9 v (c ++ 9 ∷ h) lv,
  split-append 9 c h lc,
  split-Lacks 9 h lh,
)

word-Lacks : (c : ℕ) (s : Text) → c ≤ 31 → IsWord s → Lacks c s
word-Lacks c s h w = Printable-Lacks c s h (Graphic-Printable s w.1)

pub split-entry_line :
    (e : Entry)
    → IsClean e
    → split 9 (entry_line e) ≡ e.iso_ts ∷ e.prev_sha ∷ e.event_type ∷ e.canon ∷ e.sha ∷ []
split-entry_line e k =
    split-line_of e.iso_ts e.prev_sha e.event_type e.canon e.sha
      (word-Lacks 9 e.iso_ts (omega arith) k.stamped)
      (word-Lacks 9 e.prev_sha (omega arith) k.linked)
      (Printable-Lacks 9 e.event_type (omega arith) k.typed)
      (Printable-Lacks 9 e.canon (omega arith) k.shown) (word-Lacks 9 e.sha (omega arith) k.hashed)

strip-line_of :
    (t p v c h : Text) → IsWord t → IsWord h → strip (line_of t p v c h) ≡ line_of t p v c h
unfolding line_of
strip-line_of [] p v c h wt wh = absurd (wt.0 refl)
strip-line_of (a ∷ t) p v c [] wt wh = absurd (wh.0 refl)
strip-line_of (a ∷ t) p v c (x ∷ h) wt wh =
    let front : Text = t ++ (9 ∷ p ++ (9 ∷ v ++ (9 ∷ c ++ 9 ∷ []))) in
    let shape : front ++ x ∷ h ≡ t ++ (9 ∷ p ++ (9 ∷ v ++ (9 ∷ c ++ 9 ∷ x ∷ h))) =
      simp append_assoc in
    ap (λ s. strip (a ∷ s)) (sym shape)
    ∙ strip-between a front x h wt.1.0 wh.1
    ∙ ap (λ s. a ∷ s) shape

pub strip-entry_line : (e : Entry) → IsClean e → strip (entry_line e) ≡ entry_line e
strip-entry_line e k =
    strip-line_of e.iso_ts e.prev_sha e.event_type e.canon e.sha k.stamped k.hashed

tab-InLine : (s t : Text) → All InLine s → All InLine t → All InLine (s ++ 9 ∷ t)
tab-InLine s t h k = All-append InLine s (9 ∷ t) h (omega arith, k)

word-InLine : (s : Text) → IsWord s → All InLine s
word-InLine s w = Printable-InLine s (Graphic-Printable s w.1)

pub entry_line-InLine : (e : Entry) → IsClean e → All InLine (entry_line e)
unfolding line_of
entry_line-InLine e k = tab-InLine e.iso_ts _ (word-InLine e.iso_ts k.stamped) (
    tab-InLine e.prev_sha _ (word-InLine e.prev_sha k.linked) (
      tab-InLine e.event_type _ (Printable-InLine e.event_type k.typed)
        (tab-InLine e.canon _ (Printable-InLine e.canon k.shown) (word-InLine e.sha k.hashed))))

pub entries-InLine : (es : List Entry) → All IsClean es → All (All InLine) (map entry_line es)
entries-InLine [] k = tt
entries-InLine (e ∷ es) k = (entry_line-InLine e k.0, entries-InLine es k.1)

pub not_blank : (e : Entry) → IsClean e → is_blank (entry_line e) ≡ false
unfolding line_of
not_blank e k = filled e.iso_ts _ k.stamped
  where
    filled : (s t : Text) → IsWord s → is_blank (s ++ t) ≡ false
    filled [] t w = absurd (w.0 refl)
    filled (c ∷ s) t w = refl

-- The hash of the last entry, or the one that stands before the first.
abbrev pub last_sha : Text → List Entry → Text
last_sha prev [] = prev
last_sha prev (e ∷ es) = last_sha e.sha es

pub last_sha-snoc :
    (prev : Text) (es : List Entry) (e : Entry) → last_sha prev (es ++ e ∷ []) ≡ e.sha
last_sha-snoc prev [] e = refl
last_sha-snoc prev (d ∷ es) e = last_sha-snoc d.sha es e

recover-entry :
    (last : Text) (e : Entry) (ls : List Text)
    → IsClean e
    → recover last (entry_line e ∷ ls) ≡ recover e.sha ls
unfolding recover
recover-entry last e ls k =
    rw (strip-entry_line e k) (rw (not_blank e k) (rw (split-entry_line e k) refl))

-- The loop of `_recover_last_sha` finds the last entry's hash.
pub recover-last_sha :
    (last : Text) (es : List Entry)
    → All IsClean es
    → recover last (map entry_line es ++ [] ∷ []) ≡ last_sha last es
recover-last_sha last [] k = unfold recover strip in refl
recover-last_sha last (e ∷ es) k =
    recover-entry last e (map entry_line es ++ [] ∷ []) k.0 ∙ recover-last_sha e.sha es k.1

module _ (digest : Text → Text) where
  -- The entries are linked, the first to the given hash, and carry their own hashes.
  abbrev pub IsChain : Text → List Entry → Type 0
  IsChain prev [] = Unit {0}
  IsChain prev (e ∷ es) =
      (e.prev_sha ≡ prev)
      × (e.sha ≡ digest (preimage e.iso_ts e.prev_sha e.event_type e.canon))
      × IsChain e.sha es

  pub IsChain-snoc :
      (prev : Text) (es : List Entry) (e : Entry)
      → IsChain prev es
      → e.prev_sha ≡ last_sha prev es
      → e.sha ≡ digest (preimage e.iso_ts e.prev_sha e.event_type e.canon)
      → IsChain prev (es ++ e ∷ [])
  IsChain-snoc prev [] e c p h = (p, h, tt)
  IsChain-snoc prev (d ∷ es) e c p h = (c.0, c.1, IsChain-snoc d.sha es e c.2 p h)

  check_line-entry :
      (prev : Text) (n : ℕ) (e : Entry)
      → IsClean e
      → e.prev_sha ≡ prev
      → e.sha ≡ digest (preimage e.iso_ts e.prev_sha e.event_type e.canon)
      → check_line digest prev n (entry_line e) ≡ next e.sha
  unfolding check_line check_fields
  check_line-entry prev n e k p h = rw (strip-entry_line e k) (
      rw (not_blank e k) (
        rw (split-entry_line e k) (
          ground (
            arith,
            text_eq_iff e.prev_sha prev,
            text_eq_iff (digest (preimage e.iso_ts prev e.event_type e.canon)) e.sha,
          ))))

  check_line-blank : (prev : Text) (n : ℕ) → check_line digest prev n [] ≡ next prev
  unfolding check_line strip
  check_line-blank prev n = refl

  -- The verifier accepts the lines of a chain of clean entries.
  pub verify_lines-IsChain :
      (prev : Text) (n : ℕ) (es : List Entry)
      → All IsClean es
      → IsChain prev es
      → verify_lines digest prev n (map entry_line es ++ [] ∷ []) ≡ valid
  unfolding verify_lines
  verify_lines-IsChain prev n [] k c = rw (check_line-blank prev n, verify_lines)
  verify_lines-IsChain prev n (e ∷ es) k c =
      rw (check_line-entry prev n e k.0 c.0 c.1, verify_lines)
        (verify_lines-IsChain e.sha (suc n) es k.1 c.2)
