-- ===== src/Audit.antt =====
-- pmacs/storage/audit.py: the hash-chained audit log, its writer and its verifier. The directory of
-- the log is the state: `audit.log` and the compressed files that rotation leaves (compression
-- itself is not modelled). `digest` stands for the SHA-256 hexdigest of a text's UTF-8 bytes, which
-- `hashlib` computes. Failures of the file system are not modelled.
pub mod Chain
pub mod Verified
pub mod Evident
pub mod Entries
pub mod Rotation
pub mod Incremental
pub mod Toy
pub mod Large
mod Examples
use automatic_trading.Prelude.{
  ℕ, zero, suc, ◌+◌, ◌-◌, ◌*◌, ◌≡◌, refl, Bool, true, false, ◌&&◌, not, List, [], ◌∷◌, ◌++◌, length,
  drop, get_elem?, Option, none, some, ◌==◌, leb, ltb, if◌then◌else◌,
}
use automatic_trading.Text.{Text, codes, split, text_eq, strip, lines}
use automatic_trading.Canonical.{Payload, Value, text, canonical_json}

unfoldable pub genesis : Text
genesis = codes "0000000000000000000000000000000000000000000000000000000000000000"

abbrev pub max_log_bytes : ℕ
max_log_bytes = 50 * 1024 * 1024

abbrev pub max_rotated_files : ℕ
max_rotated_files = 10

-- `rotated i` is the content of audit.log.i.gz.
pub record Disk : Type 0 where
  pub log : Option Text
  pub rotated : ℕ → Option Text

-- `is_open` says that `_fd` is not None.
pub record Writer : Type 0 where
  pub prev_sha : Text
  pub is_open : Bool

-- What callers pass to `append`, with the time that it reads.
pub record Request : Type 0 where
  pub iso_ts : Text
  pub event_type : Text
  pub payload : Payload
  pub cycle_id : Text

abbrev pub is_blank : Text → Bool
is_blank [] = true
is_blank (c ∷ s) = false

-- The loop of `_recover_last_sha`: field 4 is there when the line has five fields or more.
pub recover : Text → List Text → Text
recover last [] = last
recover last (l ∷ ls) =
    let line = strip l in
    recover
      (if is_blank line
        then last
        else elim (get_elem? (split 9 line) 4) [ none ↦ last | some sha ↦ sha ])
      ls

-- `_recover_last_sha`, where the file exists.
pub recovered : Option Text → Text
unfolding recover
recovered none = genesis
recovered (some file) = recover genesis (lines file)

-- AuditWriter(path)
unfoldable pub open_writer : Disk → Writer
unfolding recovered
open_writer d = record { prev_sha = recovered d.log; is_open = false }

utf8_width : ℕ → ℕ
utf8_width c = if ltb c 128 then 1 else if ltb c 2048 then 2 else if ltb c 65536 then 3 else 4

-- st_size
unfoldable pub byte_size : Text → ℕ
unfolding utf8_width
byte_size [] = 0
byte_size (c ∷ s) = utf8_width c + byte_size s

abbrev at : {A : Type 0} → (ℕ → A) → ℕ → A → ℕ → A
at f i a j = if i == j then a else f j

-- Rename .i.gz to .(i+1).gz, over what stood there, if there is one.
shift : ℕ → (ℕ → Option Text) → ℕ → Option Text
shift i files = elim (files i) [
  | none ↦ files
  | some file ↦ at (at files (suc i) (some file)) i none
]

-- for i in range(n, 0, -1)
shifts : ℕ → (ℕ → Option Text) → ℕ → Option Text
unfolding shift
shifts zero files = files
shifts (suc i) files = shifts i (shift (suc i) files)

rotate : Text → Disk → Disk
unfolding shifts
rotate file d = record {
  log = some [];
  rotated = at (shifts (max_rotated_files - 1) d.rotated) 1 (some file);
}

rotate_large : Option Text → Disk → Disk
rotate_large none d = d
rotate_large (some file) d = if ltb (byte_size file) max_log_bytes then d else rotate file d

-- The file descriptor that rotation closes is never open here: `_open` rotates only without one.
unfoldable pub maybe_rotate : Disk → Disk
unfolding rotate_large rotate
maybe_rotate d = rotate_large d.log d

-- _open
unfoldable pub open_log : Writer → Disk → Disk
unfolding maybe_rotate
open_log w d = if w.is_open then d else maybe_rotate d

abbrev pub has_key : Text → Payload → Bool
has_key k [] = false
has_key k ((j, v) ∷ fields) = let rest = has_key k fields in if text_eq j k then true else rest

-- The cycle is added to the payload where it is given and not present.
unfoldable pub with_cycle : Text → Payload → Payload
unfolding text_eq
with_cycle cycle_id payload =
    if not (is_blank cycle_id) && not (has_key (codes "cycle_id") payload)
    then payload ++ (codes "cycle_id", text cycle_id) ∷ []
    else payload

-- What is hashed: the four fields, with NUL between them.
unfoldable pub preimage : Text → Text → Text → Text → Text
preimage iso_ts prev_sha event_type canon =
    iso_ts ++ (0 ∷ prev_sha ++ (0 ∷ event_type ++ 0 ∷ canon))

-- A line without its line end.
unfoldable pub line_of : Text → Text → Text → Text → Text → Text
line_of iso_ts prev_sha event_type canon sha =
    iso_ts ++ (9 ∷ prev_sha ++ (9 ∷ event_type ++ (9 ∷ canon ++ 9 ∷ sha)))

-- What appending finds: a file that is not there is made.
abbrev pub contents : Option Text → Text
contents none = []
contents (some file) = file

-- open(path, "a").write(line)
unfoldable pub write_line : Text → Disk → Disk
write_line line d = record d { log = some (contents d.log ++ (line ++ 10 ∷ [])) }

-- What the verifier returns: which check failed, at which line.
pub data Verdict : Type 0 where
  valid : Verdict
  wrong_fields : ℕ → ℕ → Verdict
  chain_broken : ℕ → Verdict
  hash_mismatch : ℕ → Verdict
  malformed : ℕ → Verdict

-- One round of the verifier's loop goes on with a hash, or returns.
pub data Round : Type 0 where
  next : Text → Round
  stop : Verdict → Round

module _ (digest : Text → Text) where
  -- The hash, the writer and the directory after a canonical text was made.
  unfoldable pub append_canon : Request → Text → Writer → Disk → Text × Writer × Disk
  unfolding open_log write_line preimage line_of
  append_canon r canon w d =
      let sha = digest (preimage r.iso_ts w.prev_sha r.event_type canon) in
      (
        sha,
        record { prev_sha = sha; is_open = true },
        write_line (line_of r.iso_ts w.prev_sha r.event_type canon sha) (open_log w d),
      )

  -- `none` is the exception of `canonical_json`, before anything is written.
  unfoldable pub append : Request → Writer → Disk → Option (Text × Writer × Disk)
  unfolding append_canon with_cycle
  append r w d = elim (canonical_json (with_cycle r.cycle_id r.payload)) [
    | none ↦ none
    | some canon ↦ some (append_canon r canon w d)
  ]

  -- What every caller does: AuditWriter(path), append, close. A refused payload writes nothing.
  unfoldable pub log_event : Request → Disk → Disk
  unfolding append open_writer
  log_event r d = elim (append r (open_writer d) d) [ none ↦ d | some (sha, w, d') ↦ d' ]

  -- The checks on one line's fields.
  pub check_fields : Text → ℕ → List Text → Round
  unfolding preimage
  check_fields prev n (iso_ts ∷ stored_prev ∷ event_type ∷ canon ∷ stored_sha ∷ []) =
      if not (text_eq stored_prev prev)
      then stop (chain_broken n)
      else if not (text_eq (digest (preimage iso_ts prev event_type canon)) stored_sha)
      then stop (hash_mismatch n)
      else next stored_sha
  check_fields prev n parts = stop (wrong_fields n (length parts))

  pub check_line : Text → ℕ → Text → Round
  unfolding check_fields
  check_line prev n l =
      let line = strip l in if is_blank line then next prev else check_fields prev n (split 9 line)

  -- The loop of `verify_full`, over the lines from number n on.
  pub verify_lines : Text → ℕ → List Text → Verdict
  verify_lines prev n [] = valid
  verify_lines prev n (l ∷ ls) = elim (check_line prev n l) [
    | next sha ↦ verify_lines sha (suc n) ls
    | stop v ↦ v
  ]

  pub verify_log : Option Text → Verdict
  verify_log none = valid
  verify_log (some file) = verify_lines genesis 1 (lines file)

  -- AuditVerifier(path).verify_full()
  unfoldable pub verify_full : Disk → Verdict
  unfolding verify_log verify_lines check_line
  verify_full d = verify_log d.log

-- The stripped lines that are not blank.
pub stripped : List Text → List Text
stripped [] = []
stripped (l ∷ ls) =
    let line = strip l in let rest = stripped ls in if is_blank line then rest else line ∷ rest

-- parts[4] of the line at the index, where there are five parts or more.
hash_at : List Text → ℕ → Text
hash_at ls i = elim (get_elem? ls i) [
  | none ↦ genesis
  | some l ↦ elim (get_elem? (split 9 l) 4) [ none ↦ genesis | some sha ↦ sha ]
]

-- The hash that precedes the line at `start`.
hash_before : List Text → ℕ → Text
hash_before ls start = if start == 0 then genesis else hash_at ls (start - 1)

-- A line without five fields is reported without their number.
abbrev uncounted : Round → Round
uncounted (stop (wrong_fields n k)) = stop (malformed n)
uncounted r = r

module _ (digest : Text → Text) where
  -- The loop of `verify_incremental`, over the lines from number n on.
  verify_recent : Text → ℕ → List Text → Verdict
  verify_recent prev n [] = valid
  verify_recent prev n (l ∷ ls) = elim (uncounted (check_fields digest prev n (split 9 l))) [
    | next sha ↦ verify_recent sha (suc n) ls
    | stop v ↦ v
  ]

  verify_last : ℕ → List Text → Verdict
  verify_last last_n ls =
      let start = length ls - last_n in
      verify_recent (hash_before ls start) (start + 1) (drop start ls)

  verify_incremental_log : ℕ → Option Text → Verdict
  verify_incremental_log last_n none = valid
  verify_incremental_log last_n (some file) = verify_last last_n (stripped (lines file))

  -- AuditVerifier(path).verify_incremental(last_n)
  unfoldable pub verify_incremental : ℕ → Disk → Verdict
  unfolding verify_incremental_log verify_last verify_recent check_fields stripped hash_before
      hash_at
  verify_incremental last_n d = verify_incremental_log last_n d.log
