-- ===== src/Audit/Verified.antt =====
-- The log that the writer writes, under the full check.
use automatic_trading.Prelude.{
  ℕ, ◌<◌, ◌≤◌, ◌≡◌, refl, sym, ap, ◌⊎◌, inl, inr, true, List, [], ◌∷◌, ◌++◌, map, map-append, All,
  All-append, length, Option, none, some, arith, ltb, Option-cases, Bool-cases, lt→ltb, subst,
}
use automatic_trading.Text.{Text, Graphic, Printable, render, render-append, lines-render}
use automatic_trading.Canonical.{canonical_json}
use automatic_trading.Canonical.Printed.{canonical_json-Printable}
use automatic_trading.Audit.{
  genesis, max_log_bytes, Disk, Writer, Request, recovered, open_writer, byte_size, rotate_large,
  maybe_rotate, open_log, with_cycle, preimage, contents, write_line, append_canon, append,
  log_event, verify_log, verify_full, valid,
}
use automatic_trading.Audit.Chain.{
  Entry, entry_line, IsWord, IsClean, entries-InLine, last_sha, recover-last_sha, IsChain,
  IsChain-snoc, verify_lines-IsChain,
}

abbrev pub IsHexDigit : ℕ → Type 0
IsHexDigit c = ((48 ≤ c) × (c ≤ 57)) ⊎ ((97 ≤ c) × (c ≤ 102))

-- What `hashlib` documents of `sha256(…).hexdigest()`: 64 hexadecimal digits.
pub record IsHexdigest (digest : Text → Text) : Type 0 where
  pub long : (t : Text) → length (digest t) ≡ 64
  pub hex : (t : Text) → All IsHexDigit (digest t)

IsHexDigit-Graphic : (s : Text) → All IsHexDigit s → All Graphic s
IsHexDigit-Graphic [] h = tt
IsHexDigit-Graphic (c ∷ s) h = (omega arith, IsHexDigit-Graphic s h.1)

pub digest-IsWord : (digest : Text → Text) → IsHexdigest digest → (t : Text) → IsWord (digest t)
digest-IsWord digest law t = (
  (λ e. absurd (omega (arith, law.long t, ap length e))),
  IsHexDigit-Graphic (digest t) (law.hex t),
)

-- The caller gives a time stamp that shows and a printable event type. The time is that of
-- `datetime.isoformat`, and every event type of the program is a literal of this kind.
pub record IsProper (r : Request) : Type 0 where
  pub stamped : IsWord r.iso_ts
  pub typed : All Printable r.event_type

pub last_sha-IsWord :
    (prev : Text) (es : List Entry) → IsWord prev → All IsClean es → IsWord (last_sha prev es)
last_sha-IsWord prev [] w k = w
last_sha-IsWord prev (e ∷ es) w k = last_sha-IsWord e.sha es k.0.hashed k.1

pub genesis-IsWord : IsWord genesis
unfolding genesis
genesis-IsWord = ((λ e. cc), omega arith)

abbrev pub Stores : Option Text → List Entry → Type 0
Stores log es = ((log ≡ none) × (es ≡ [])) ⊎ (log ≡ some (render (map entry_line es)))

pub recovered-Stores :
    (log : Option Text) (es : List Entry)
    → All IsClean es
    → Stores log es
    → recovered log ≡ last_sha genesis es
unfolding recovered
recovered-Stores log es k (inl (e, f)) = rw (e, f) refl
recovered-Stores log es k (inr e) =
    rw e (rw (lines-render _ (entries-InLine es k)) (recover-last_sha genesis es k))

contents-Stores :
    (log : Option Text) (es : List Entry)
    → Stores log es
    → contents log ≡ render (map entry_line es)
contents-Stores log es (inl (e, f)) = rw (e, f) (unfold render in refl)
contents-Stores log es (inr e) = rw e

render-snoc :
    (es : List Entry) (e : Entry)
    → render (map entry_line (es ++ e ∷ []))
      ≡ render (map entry_line es) ++ (entry_line e ++ 10 ∷ [])
unfolding render
render-snoc es e =
    rw (map-append entry_line es (e ∷ [])) (render-append (map entry_line es) (entry_line e ∷ []))

rotate_large-small :
    (log : Option Text) (d : Disk)
    → ltb (byte_size (contents log)) max_log_bytes ≡ true
    → rotate_large log d ≡ d
unfolding rotate_large
rotate_large-small none d h = refl
rotate_large-small (some file) d h = rw h

-- The log is below the size at which it is rotated.
abbrev pub IsSmall : Disk → Type 0
IsSmall d = byte_size (contents d.log) < max_log_bytes

open_log-IsSmall : (w : Writer) (d : Disk) → IsSmall d → open_log w d ≡ d
unfolding open_log maybe_rotate
open_log-IsSmall w d h = elim (Bool-cases w.is_open) [
  | inl e ↦ rw e
  | inr e ↦ rw e (rotate_large-small d.log d (lt→ltb _ _ h))
]

module _ (digest : Text → Text) where
  -- The log holds a chain of clean entries that begins at the genesis hash.
  pub record IsSound (d : Disk) : Type 0 where
    pub entries : List Entry
    pub clean : All IsClean entries
    pub chained : IsChain digest genesis entries
    pub stored : Stores d.log entries

  verify_log-Stores :
      (log : Option Text) (es : List Entry)
      → All IsClean es
      → IsChain digest genesis es
      → Stores log es
      → verify_log digest log ≡ valid
  unfolding verify_log
  verify_log-Stores log es k c (inl (e, f)) = rw e
  verify_log-Stores log es k c (inr e) =
      rw e
        (rw (lines-render _ (entries-InLine es k)) (verify_lines-IsChain digest genesis 1 es k c))

  pub verify_full-IsSound : (d : Disk) → IsSound d → verify_full digest d ≡ valid
  unfolding verify_full
  verify_full-IsSound d s = verify_log-Stores d.log s.entries s.clean s.chained s.stored

  module _ (law : IsHexdigest digest) where
    -- The entry that a request adds behind the given hash.
    abbrev pub entry_of : Request → Text → Text → Entry
    entry_of r prev canon = record {
      iso_ts = r.iso_ts;
      prev_sha = prev;
      event_type = r.event_type;
      canon = canon;
      sha = digest (preimage r.iso_ts prev r.event_type canon);
    }

    pub entry_of-IsClean :
        (r : Request) (prev canon : Text)
        → IsProper r
        → IsWord prev
        → All Printable canon
        → IsClean (entry_of r prev canon)
    entry_of-IsClean r prev canon p w shown = record {
      stamped = p.stamped;
      linked = w;
      typed = p.typed;
      shown = shown;
      hashed = digest-IsWord digest law (preimage r.iso_ts prev r.event_type canon);
    }

    pub append_canon-Stores :
        (r : Request) (canon : Text) (w : Writer) (d : Disk) (es : List Entry)
        → IsSmall d
        → Stores d.log es
        → Stores (append_canon digest r canon w d).2.log (es ++ entry_of r w.prev_sha canon ∷ [])
    unfolding append_canon write_line
    append_canon-Stores r canon w d es small stored = inr (
        rw (open_log-IsSmall w d small) (
          ap some (
            rw (contents-Stores d.log es stored)
              (sym (render-snoc es (entry_of r w.prev_sha canon))))))

    -- A writer that stands at the end of a sound log adds an entry to it, and stands at its end again.
    append_canon-IsSound :
        (r : Request) (canon : Text) (w : Writer) (d : Disk)
        → IsProper r
        → All Printable canon
        → IsSmall d
        → (s : IsSound d) → w.prev_sha ≡ last_sha genesis s.entries
        → IsSound (append_canon digest r canon w d).2
    append_canon-IsSound r canon w d p shown small s prev =
        let e = entry_of r w.prev_sha canon in
        let linked : IsWord w.prev_sha =
          subst IsWord (sym prev) (last_sha-IsWord genesis s.entries genesis-IsWord s.clean) in
        record {
          entries = s.entries ++ e ∷ [];
          clean =
              All-append IsClean s.entries (e ∷ []) s.clean
                (entry_of-IsClean r w.prev_sha canon p linked shown, tt);
          chained = IsChain-snoc digest genesis s.entries e s.chained prev refl;
          stored = append_canon-Stores r canon w d s.entries small s.stored;
        }

    pub log_event-IsSound :
        (r : Request) (d : Disk)
        → IsProper r
        → IsSmall d
        → IsSound d
        → IsSound (log_event digest r d)
    unfolding log_event append open_writer
    log_event-IsSound r d p small s =
        elim (Option-cases (canonical_json (with_cycle r.cycle_id r.payload))) [
          | inl e ↦ rw (e, log_event) s
          | inr (canon, e) ↦
              rw (e, log_event)
                (append_canon-IsSound r canon (open_writer d) d p
                  (canonical_json-Printable (with_cycle r.cycle_id r.payload) canon e) small s
                  (recovered-Stores d.log s.entries s.clean s.stored))
        ]

-- A history of requests, each with a writer of its own.
unfoldable pub log_all : (Text → Text) → List Request → Disk → Disk
unfolding log_event
log_all digest [] d = d
log_all digest (r ∷ rs) d = log_all digest rs (log_event digest r d)

-- No request of the history finds a log that is due for rotation.
abbrev pub StaysSmall : (Text → Text) → List Request → Disk → Type 0
StaysSmall digest [] d = Unit {0}
StaysSmall digest (r ∷ rs) d = IsSmall d × StaysSmall digest rs (log_event digest r d)

log_all-IsSound :
    (digest : Text → Text) (law : IsHexdigest digest) (rs : List Request) (d : Disk)
    → All IsProper rs
    → StaysSmall digest rs d
    → IsSound digest d
    → IsSound digest (log_all digest rs d)
unfolding log_all
log_all-IsSound digest law [] d p small s = s
log_all-IsSound digest law (r ∷ rs) d p small s =
    log_all-IsSound digest law rs (log_event digest r d) p.1 small.1
      (log_event-IsSound digest law r d p.0 small.0 s)

pub empty-IsSound : (digest : Text → Text) (d : Disk) → d.log ≡ none → IsSound digest d
empty-IsSound digest d e = record { entries = []; clean = tt; chained = tt; stored = inl (e, refl) }

-- The verifier accepts every log that any history of proper requests writes from no log at all, as
-- long as no request finds a log that is due for rotation; requests that canonical JSON refuses are
-- among them. `digest` is any function whose results look like SHA-256 hexdigests.
pub verify_full-log_all :
    (digest : Text → Text) (law : IsHexdigest digest) (rs : List Request) (d : Disk)
    → d.log ≡ none
    → All IsProper rs
    → StaysSmall digest rs d
    → verify_full digest (log_all digest rs d) ≡ valid
verify_full-log_all digest law rs d e p small =
    verify_full-IsSound digest (log_all digest rs d)
      (log_all-IsSound digest law rs d p small (empty-IsSound digest d e))
