-- ===== src/Lib.antt =====
-- PMACS, a portfolio program for one operator (pmacs/): the parts that keep it honest and safe. An
-- audit log whose entries are chained by hashes, the state machine of a holding, the paper account,
-- the crash loop detector and the kill switch with its checks. The state machine and the kill
-- switch write to the audit log; the kill switch's checks read the audit log, the rows of the paper
-- account and the restarts.
--
-- Prelude has the shared names, and Text the strings of Python as lists of code points: split,
-- strip, and the iteration over the lines of a file. Canonical is pmacs/data/canonical.py: the JSON
-- text of a payload, with sorted keys. Its digit loop has the number itself as fuel, which is
-- enough since each round divides the number by ten; Canonical.Printed and Canonical.Decimal have
-- its lemmas.
--
-- Audit is pmacs/storage/audit.py. A Disk is the log file and the rotated ones; a Writer is an
-- AuditWriter; log_event is the open, append and close that every caller does; verify_full and
-- verify_incremental are the verifier's methods. SHA-256 is a parameter: what is assumed of it,
-- where anything is, is that its digest is 64 hexadecimal digits. Audit.Chain has the entries of a
-- well-formed log, Audit.Verified is about the writer, Audit.Evident about the verifier,
-- Audit.Entries about the entries that are read back, Audit.Rotation about the size limit, and
-- Audit.Incremental compares the two verifiers.
--
-- Holding is pmacs/schemas/contracts.py and pmacs/engines/state_machine.py: Holding.Table has the
-- states and the table, and transition is the function of that name, with the audit log as a
-- further state. Its children follow histories of orders.
--
-- Cash is pmacs/engines/cash_ledger.py, over the interface Float, which names the operations on
-- Python floats and the order laws that are assumed of them; Float.Fixed is an instance with four
-- decimals, on which everything runs. CrashLoop is pmacs/cortex/crash_loop_detector.py. KillSwitch
-- is pmacs/cortex/kill_switch.py with flag_for_kill_switch_review of pmacs/mutation/rollback.py:
-- engage and disengage change a World, and KillSwitch.Triggers has check_all_triggers.
--
-- Paper is pmacs/sim/ledger.py, the ledger of paper trading in memory, over the interface Float.
-- Sizing is pmacs/engines/sizing.py and pmacs/engines/conviction.py, over the same interface, with
-- the power `** 0.7` of compute_conviction as an argument. KillSwitch.Daemon is
-- _check_triggers_and_engage of pmacs/cortex/daemon.py, which ties the checks to the switch. Queue
-- is pmacs/engines/queue.py, Stops pmacs/engines/trailing_stop.py and
-- pmacs/engines/stop_loss_monitor.py, Mode pmacs/engines/mode_manager.py with
-- pmacs/schemas/system.py, and Checkpoint pmacs/nervous/checkpoint.py on the table op_idempotency
-- of pmacs/storage/sqlite.py.
--
-- CatastropheNet is pmacs/execution/catastrophe_net.py: the stop at the broker and the exit of a
-- holding, with the kill switch as the state it may change. StopEvents is
-- pmacs/cortex/stop_loss_daemon.py with pmacs/schemas/stop_loss.py, and StopEvents.Poller is
-- pmacs/nervous/stop_poller.py: the one writes the rows of stop_events that the other reads, and
-- the poller calls CatastropheNet and the state machine of Holding. DeadLetter is
-- pmacs/storage/dead_letter.py; DeadLetter.Attempts has the round of a worker that its class
-- documents. Arbitration is pmacs/engines/arbitration.py with pmacs/schemas/arbitration.py:
-- Arbitration.Weights has the weights, Arbitration.Main arbitrate. Crucible is
-- pmacs/engines/crucible_loop.py.
--
-- Budget is pmacs/billing/budget_enforcer.py with pmacs/billing/period_roller.py, on the tables
-- budget_state and budget_history; a breached hard cap engages the kill switch.
--
-- Mutation is pmacs/nervous/mutation.py, pmacs/mutation/promotion.py and pmacs/mutation/rollback.py
-- with _monitor_rollbacks of pmacs/mutation/daemon.py: the registry of candidates, the rows of
-- mutation_proposals and the audit log.
--
-- Opportunity is pmacs/engines/opportunity_cost.py and pmacs/engines/portfolio_risk_gate.py, over
-- the interface Float.
--
-- SleepWatch is pmacs/cortex/sleep_watch.py, on the heartbeat files and the tables op_idempotency
-- and cycles; which row its query puts first is an argument.
--
-- Not modelled: the debug log, where no branch depends on it; failures of the file system, of
-- SQLite and of the event publisher, but for those that a check catches; gzip; NaN and infinite
-- floats; the order in which SQL returns equal rows. Agents, data sources, storage wrappers, the
-- orchestrator, the broker adapters and the dashboard are mostly I/O and are left out.
pub mod Prelude
pub mod Text
pub mod Canonical
pub mod Audit
pub mod Holding
pub mod Float
pub mod Cash
pub mod CrashLoop
pub mod KillSwitch
pub mod Paper
pub mod Queue
pub mod Stops
pub mod Sizing
pub mod SleepWatch
pub mod Mode
pub mod Checkpoint
pub mod CatastropheNet
pub mod StopEvents
pub mod DeadLetter
pub mod Arbitration
pub mod Crucible
pub mod Budget
pub mod Mutation
pub mod Opportunity
