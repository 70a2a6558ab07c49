-- ===== src/Audit/Large.antt =====
-- A log that is due for rotation because one entry's payload is as large as the limit, and two requests.
use automatic_trading.Prelude.{
  ℕ, zero, suc, ◌+◌, ◌≤◌, ◌≡◌, ◌≢◌, refl, ap, sym, subst, ◌∙◌, inr, List, [], ◌∷◌, ◌++◌, All, none,
  some, arith,
}
use automatic_trading.Text.{Text, codes, Printable, render}
use automatic_trading.Canonical.{text, integer, canonical_json}
use automatic_trading.Audit.{
  genesis, max_log_bytes, Disk, Request, byte_size, utf8_width, open_writer, contents, preimage,
  line_of, with_cycle,
}
use automatic_trading.Audit.Chain.{Entry, entry_line, IsClean}
use automatic_trading.Audit.Verified.{
  IsProper, IsSound, digest-IsWord, recovered-Stores, genesis-IsWord,
}
use automatic_trading.Audit.Toy.{repeat, total, toy_digest, toy_law}

repeat-Printable : (n c : ℕ) → Printable c → All Printable (repeat n c)
unfolding repeat
repeat-Printable zero c h = tt
repeat-Printable (suc n) c h = (h, repeat-Printable n c h)

abbrev pub engaged : Request
engaged = record {
  iso_ts = codes "2026-06-30T12:00:00+00:00";
  event_type = codes "KILL_SWITCH_ENGAGED";
  payload = (codes "trigger", text (codes "MANUAL")) ∷ [];
  cycle_id = codes "c1";
}

abbrev pub moved : Request
moved = record {
  iso_ts = codes "2026-06-30T12:00:01+00:00";
  event_type = codes "state_transition";
  payload = (codes "reason", text (codes "a\tb")) ∷ (codes "op_seq", integer 7) ∷ [];
  cycle_id = codes "";
}

abbrev pub history : List Request
history = engaged ∷ moved ∷ []

pub history-IsProper : All IsProper history
history-IsProper = (
  record { stamped = ((λ e. cc), omega arith); typed = omega arith },
  (record { stamped = ((λ e. cc), omega arith); typed = omega arith }, tt),
)

byte_size-repeat : (n : ℕ) → byte_size (repeat n 120) ≡ n
unfolding byte_size repeat utf8_width
byte_size-repeat zero = refl
byte_size-repeat (suc n) = omega (arith, byte_size-repeat n)

byte_size-append : (s t : Text) → byte_size (s ++ t) ≡ byte_size s + byte_size t
unfolding byte_size
byte_size-append [] t = omega arith
byte_size-append (c ∷ s) t = omega (arith, byte_size-append s t)

-- As many bytes as the limit.
pub large_canon : Text
large_canon = repeat max_log_bytes 120

pub large_entry : Entry
large_entry = record {
  iso_ts = codes "2026-06-30T12:00:00+00:00";
  prev_sha = genesis;
  event_type = codes "x";
  canon = large_canon;
  sha = toy_digest (preimage (codes "2026-06-30T12:00:00+00:00") genesis (codes "x") large_canon);
}

abbrev pub large_log : Disk
large_log = record { log = some (render (entry_line large_entry ∷ [])); rotated = λ i. none }

abbrev head_or_zero : Text → ℕ
head_or_zero [] = 0
head_or_zero (c ∷ s) = c

toy_digest-ne-genesis : (t : Text) → toy_digest t ≢ genesis
unfolding repeat total genesis
toy_digest-ne-genesis t e = absurd (omega (arith, ap head_or_zero e))

large-IsClean : All IsClean (large_entry ∷ [])
unfolding large_entry
large-IsClean = (
  record {
    stamped = ((λ e. cc), omega arith);
    linked = genesis-IsWord;
    typed = omega arith;
    shown = unfold large_canon in repeat-Printable max_log_bytes 120 (omega arith);
    hashed = digest-IsWord toy_digest toy_law _;
  },
  tt,
)

pub large-IsSound : IsSound toy_digest large_log
unfolding large_entry
large-IsSound = record {
  entries = large_entry ∷ [];
  clean = large-IsClean;
  chained = (refl, refl, tt);
  stored = inr refl;
}

byte_size-canon : (t p v c h : Text) → byte_size c ≤ byte_size (render (line_of t p v c h ∷ []))
unfolding render line_of byte_size
byte_size-canon t p v c h = omega (
  arith,
  byte_size-append (t ++ (9 ∷ p ++ (9 ∷ v ++ (9 ∷ c ++ 9 ∷ h)))) (10 ∷ []),
  byte_size-append t (9 ∷ p ++ (9 ∷ v ++ (9 ∷ c ++ 9 ∷ h))),
  byte_size-append p (9 ∷ v ++ (9 ∷ c ++ 9 ∷ h)),
  byte_size-append v (9 ∷ c ++ 9 ∷ h),
  byte_size-append c (9 ∷ h),
)

byte_size-large_canon : byte_size large_canon ≡ max_log_bytes
unfolding large_canon
byte_size-large_canon = byte_size-repeat max_log_bytes

pub large-IsLarge : max_log_bytes ≤ byte_size (contents large_log.log)
unfolding large_entry
large-IsLarge =
    subst (λ n. n ≤ byte_size (contents large_log.log)) byte_size-large_canon
      (byte_size-canon _ genesis (codes "x") large_canon _)

pub large-recovered : (open_writer large_log).prev_sha ≢ genesis
unfolding open_writer large_entry
large-recovered e =
    toy_digest-ne-genesis _
      (sym (recovered-Stores large_log.log (large_entry ∷ []) large-IsClean (inr refl)) ∙ e)

pub engaged_canon :
    canonical_json (with_cycle engaged.cycle_id engaged.payload)
    ≡ some (codes "{\"cycle_id\":\"c1\",\"trigger\":\"MANUAL\"}")
unfolding canonical_json with_cycle
engaged_canon = refl
