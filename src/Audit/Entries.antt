-- ===== src/Audit/Entries.antt =====
-- The entries that are read back from a log, before and after one is added.
use automatic_trading.Prelude.{
  ◌≡◌, refl, sym, ap, ◌∙◌, inl, inr, List, [], ◌∷◌, ◌++◌, map, map-append, append-nil, All,
  All-append, Option, none, some, Option-cases, subst,
}
use automatic_trading.Text.{Text, Printable, lines-render, strip}
use automatic_trading.Canonical.{canonical_json}
use automatic_trading.Canonical.Printed.{canonical_json-Printable}
use automatic_trading.Audit.{
  genesis, Disk, Request, open_writer, with_cycle, append_canon, append, log_event,
}
use automatic_trading.Audit.Chain.{
  Entry, entry_line, IsWord, IsClean, entries-InLine, split-entry_line, strip-entry_line, not_blank,
}
use automatic_trading.Audit.Verified.{
  IsHexdigest, IsProper, IsSmall, IsSound, Stores, entry_of, entry_of-IsClean, append_canon-Stores,
  recovered-Stores, last_sha-IsWord, genesis-IsWord,
}
use automatic_trading.Audit.Evident.{entries_of, parse_lines}

parse_lines-entries :
    (es : List Entry) → All IsClean es → parse_lines (map entry_line es ++ [] ∷ []) ≡ es
unfolding parse_lines strip
parse_lines-entries [] k = refl
parse_lines-entries (e ∷ es) k = rw (strip-entry_line e k.0) (
    rw (not_blank e k.0)
      (rw (split-entry_line e k.0) (ap (λ rest. e ∷ rest) (parse_lines-entries es k.1))))

entries_of-Stores :
    (log : Option Text) (es : List Entry) → All IsClean es → Stores log es → entries_of log ≡ es
unfolding entries_of
entries_of-Stores log es k (inl (e, f)) = rw (e, f) refl
entries_of-Stores log es k (inr e) =
    rw e (rw (lines-render _ (entries-InLine es k)) (parse_lines-entries es k))

-- An entry without its hashes: the time, the type and the canonical text.
abbrev pub Body : Type 0
Body = Text × Text × Text

abbrev pub body_of : Entry → Body
body_of e = (e.iso_ts, e.event_type, e.canon)

-- What a request writes: one entry, or nothing where canonical JSON refuses the payload.
abbrev pub written : Request → Option Text → List Body
written r none = []
written r (some canon) = (r.iso_ts, r.event_type, canon) ∷ []

abbrev pub bodies_of : Request → List Body
bodies_of r = written r (canonical_json (with_cycle r.cycle_id r.payload))

module _ (digest : Text → Text) (law : IsHexdigest digest) where
  append_canon-entries_of :
      (r : Request) (canon : Text) (d : Disk)
      → IsProper r
      → All Printable canon
      → IsSmall d
      → IsSound digest d
      → map body_of (entries_of (append_canon digest r canon (open_writer d) d).2.log)
        ≡ map body_of (entries_of d.log) ++ (r.iso_ts, r.event_type, canon) ∷ []
  unfolding open_writer
  append_canon-entries_of r canon d p shown small s =
      let prev = (open_writer d).prev_sha in
      let e = entry_of digest law r prev canon in
      let linked : IsWord prev =
        subst IsWord (sym (recovered-Stores d.log s.entries s.clean s.stored))
          (last_sha-IsWord genesis s.entries genesis-IsWord s.clean) in
      let longer =
        entries_of-Stores _ (s.entries ++ e ∷ [])
          (All-append IsClean s.entries (e ∷ []) s.clean
            (entry_of-IsClean digest law r prev canon p linked shown, tt))
          (append_canon-Stores digest law r canon (open_writer d) d s.entries small s.stored) in
      ap (map body_of) longer
      ∙ map-append body_of s.entries (e ∷ [])
      ∙ ap (λ es. map body_of es ++ body_of e ∷ [])
          (sym (entries_of-Stores d.log s.entries s.clean s.stored))

  -- Logging a proper request adds what the request writes to the entries of a sound log.
  pub log_event-entries_of :
      (r : Request) (d : Disk)
      → IsProper r
      → IsSmall d
      → IsSound digest d
      → map body_of (entries_of (log_event digest r d).log)
        ≡ map body_of (entries_of d.log) ++ bodies_of r
  unfolding log_event append
  log_event-entries_of r d p small s =
      elim (Option-cases (canonical_json (with_cycle r.cycle_id r.payload))) [
        | inl e ↦ rw (e, log_event) (sym (append-nil _))
        | inr (canon, e) ↦
            rw (e, log_event)
              (append_canon-entries_of r canon d p
                (canonical_json-Printable (with_cycle r.cycle_id r.payload) canon e) small s)
      ]
