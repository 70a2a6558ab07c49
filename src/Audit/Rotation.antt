-- ===== src/Audit/Rotation.antt =====
-- The first event after a rotation. The chain goes on from the old log's last hash, but the verifier
-- starts every file at the genesis hash.
use automatic_trading.Prelude.{
  ℕ, ◌≤◌, ◌≡◌, ◌≢◌, refl, sym, subst, ap, ◌∙◌, inl, inr, [], ◌∷◌, ◌++◌, Option, none, some, arith,
  Bool-cases, ltb, ltb→lt,
}
use automatic_trading.Text.{Text, text_eq_iff, lines, render, lines-render}
use automatic_trading.Canonical.{canonical_json}
use automatic_trading.Canonical.Printed.{canonical_json-Printable}
use automatic_trading.Audit.{
  genesis, max_log_bytes, Disk, Request, recovered, open_writer, byte_size, rotate, rotate_large,
  maybe_rotate, open_log, with_cycle, contents, write_line, append_canon, append, log_event,
  check_fields, check_line, verify_lines, verify_log, verify_full, chain_broken, stop,
}
use automatic_trading.Audit.Chain.{
  Entry, entry_line, IsWord, IsClean, entry_line-InLine, strip-entry_line, split-entry_line,
  not_blank,
}
use automatic_trading.Audit.Verified.{
  IsHexdigest, IsProper, IsSound, entry_of, entry_of-IsClean, genesis-IsWord, last_sha-IsWord,
  recovered-Stores,
}

-- The log is due for rotation.
abbrev pub IsLarge : Disk → Type 0
IsLarge d = max_log_bytes ≤ byte_size (contents d.log)

contents-rotate_large :
    (log : Option Text) (d : Disk)
    → max_log_bytes ≤ byte_size (contents log)
    → contents (rotate_large log d).log ≡ []
unfolding rotate_large rotate
contents-rotate_large none d h = unfold byte_size in absurd (omega arith)
contents-rotate_large (some file) d h = elim (Bool-cases (ltb (byte_size file) max_log_bytes)) [
  | inl e ↦ absurd (omega (arith, ltb→lt (byte_size file) max_log_bytes e))
  | inr e ↦ rw e
]

module _ (digest : Text → Text) where
  check_line-broken :
      (n : ℕ) (e : Entry)
      → IsClean e
      → e.prev_sha ≢ genesis
      → check_line digest genesis n (entry_line e) ≡ stop (chain_broken n)
  unfolding check_line check_fields
  check_line-broken n e k p = rw (strip-entry_line e k) (
      rw (not_blank e k)
        (rw (split-entry_line e k) (ground (arith, text_eq_iff e.prev_sha genesis))))

  verify_one :
      (e : Entry)
      → IsClean e
      → e.prev_sha ≢ genesis
      → verify_log digest (some (entry_line e ++ 10 ∷ [])) ≡ chain_broken 1
  unfolding verify_log verify_lines render
  verify_one e k p =
      let one : lines (render (entry_line e ∷ [])) ≡ entry_line e ∷ [] ∷ [] =
        lines-render (entry_line e ∷ []) (entry_line-InLine e k, tt) in
      ap (verify_lines digest genesis 1) one ∙ rw (check_line-broken 1 e k p, verify_lines) refl

  log_event-written :
      (law : IsHexdigest digest) (r : Request) (canon : Text) (d : Disk)
      → canonical_json (with_cycle r.cycle_id r.payload) ≡ some canon
      → IsLarge d
      → (log_event digest r d).log
        ≡ some (entry_line (entry_of digest law r (recovered d.log) canon) ++ 10 ∷ [])
  unfolding log_event append open_writer append_canon write_line open_log maybe_rotate
  log_event-written law r canon d e large =
      let line = entry_line (entry_of digest law r (recovered d.log) canon) ++ 10 ∷ [] in
      rw (e, log_event) (ap (λ s. some (s ++ line)) (contents-rotate_large d.log d large))

  -- When a sound log has reached the size limit and its last hash is not the genesis hash, logging a
  -- proper request whose payload has canonical JSON leaves a log that the verifier rejects as a broken
  -- chain at line 1, although nobody has touched the file.
  pub log_event-breaks_chain :
      (law : IsHexdigest digest) (r : Request) (canon : Text) (d : Disk)
      → IsProper r
      → IsSound digest d
      → canonical_json (with_cycle r.cycle_id r.payload) ≡ some canon
      → IsLarge d
      → (open_writer d).prev_sha ≢ genesis
      → verify_full digest (log_event digest r d) ≡ chain_broken 1
  unfolding verify_full open_writer
  log_event-breaks_chain law r canon d p s e large new =
      let prev = recovered-Stores d.log s.entries s.clean s.stored in
      let linked : IsWord (recovered d.log) =
        subst IsWord (sym prev) (last_sha-IsWord genesis s.entries genesis-IsWord s.clean) in
      let entry = entry_of digest law r (recovered d.log) canon in
      ap (verify_log digest) (log_event-written law r canon d e large)
      ∙ verify_one entry
          (entry_of-IsClean digest law r (recovered d.log) canon p linked
            (canonical_json-Printable _ canon e))
          new
