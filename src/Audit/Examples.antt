-- ===== src/Audit/Examples.antt =====
-- Runs of the log on small inputs, with a toy hash of 64 equal digits.
use automatic_trading.Prelude.{◌≡◌, refl, ◌⊎◌, arith}
use automatic_trading.Text.{text_eq, split, strip, lines}
use automatic_trading.Canonical.{canonical_json}
use automatic_trading.Audit.{
  genesis, Disk, byte_size, log_event, verify_full, verify_incremental, valid, chain_broken,
  with_cycle,
}
use automatic_trading.Audit.Verified.{log_all, verify_full-log_all}
use automatic_trading.Audit.Toy.{repeat, total, toy_digest, toy_law, no_log}
use automatic_trading.Audit.Evident.{entries_of, Clash, tampering_evident}
use automatic_trading.Audit.Incremental.{verify_incremental-verify_full}
use automatic_trading.Audit.Rotation.{log_event-breaks_chain}
use automatic_trading.Audit.Large.{
  engaged, history, history-IsProper, large_log, large-IsSound, large-IsLarge, large-recovered,
  engaged_canon,
}

abbrev logged : Disk
unfolding log_all repeat total
logged = log_all toy_digest history no_log

verify_full-log_all_example : verify_full toy_digest logged ≡ valid
unfolding logged byte_size canonical_json with_cycle text_eq genesis
verify_full-log_all_example =
    verify_full-log_all toy_digest toy_law history no_log refl history-IsProper (omega arith)

verify_incremental-verify_full_example : verify_incremental toy_digest 1 logged ≡ valid
verify_incremental-verify_full_example =
    verify_incremental-verify_full toy_digest 1 logged verify_full-log_all_example

tampering_evident_example :
    (entries_of logged.log ≡ entries_of logged.log)
    ⊎ Clash toy_digest (entries_of logged.log) (entries_of logged.log)
unfolding logged entries_of canonical_json with_cycle text_eq genesis byte_size split strip lines
    repeat total
tampering_evident_example =
    tampering_evident toy_digest toy_law logged logged verify_full-log_all_example
      verify_full-log_all_example refl (omega arith) (omega arith) refl

log_event-breaks_chain_example :
    verify_full toy_digest (log_event toy_digest engaged large_log) ≡ chain_broken 1
log_event-breaks_chain_example =
    log_event-breaks_chain toy_digest toy_law engaged _ large_log history-IsProper.0 large-IsSound
      engaged_canon large-IsLarge large-recovered
