-- ===== src/KillSwitch/Trail.antt =====
-- The trail that the switch leaves: the events that are published, and the audit log.
use automatic_trading.Prelude.{
  Bool, true, false, ◌≡◌, refl, ap, subst, ◌∙◌, inl, inr, String, List, [], ◌∷◌, arith, Bool-cases,
  if◌then◌else◌,
}
use automatic_trading.Text.{Text}
use automatic_trading.Audit.{Disk, Request, log_event, verify_full, valid}
use automatic_trading.Audit.Chain.{IsWord}
use automatic_trading.Audit.Verified.{
  IsHexdigest, IsProper, IsSmall, IsSound, log_event-IsSound, verify_full-IsSound,
}
use automatic_trading.KillSwitch.{
  World, Event, switch_engaged, switch_disengaged, Args, engage, disengage, is_engaged, ensured,
  row_engaged, engage_request, disengage_request,
}
use automatic_trading.KillSwitch.Safety.{Call, engages, disengages, step, run, ensured-state}

-- The newest event says whether the switch is engaged; with none it is armed.
abbrev pub Shows : Bool → List Event → Type 0
Shows b [] = b ≡ false
Shows b (switch_engaged t r a test ∷ es) = (b ≡ true) × Shows false es
Shows b (switch_disengaged r a test ∷ es) = (b ≡ false) × Shows true es

now-Shows :
    (now : Text) (w : World) (b : Bool)
    → row_engaged (ensured now w.row).state ≡ b
    → Shows (is_engaged w) w.published
    → Shows b w.published
unfolding is_engaged
now-Shows now w b e h =
    subst (λ x. Shows x w.published) (ap row_engaged (ensured-state [] now w.row) ∙ e) h

module _ (digest : Text → Text) where
  step-Shows :
      (c : Call) (w : World)
      → Shows (is_engaged w) w.published
      → Shows (is_engaged (step digest c w)) (step digest c w).published
  unfolding step engage disengage is_engaged
  step-Shows (engages trigger a) w h =
      elim (Bool-cases (row_engaged (ensured a.clock.now w.row).state)) [
        | inl e ↦ rw (e, e) (now-Shows a.clock.now w true e h)
        | inr e ↦ rw e (refl, now-Shows a.clock.now w false e h)
      ]
  step-Shows (disengages recheck a) w h =
      elim (Bool-cases (row_engaged (ensured a.clock.now w.row).state)) [
        | inl e ↦ rw (e, step) (refl, now-Shows a.clock.now w true e h)
        | inr e ↦ rw (e, step) (rw e (now-Shows a.clock.now w false e h))
      ]

  -- If the published events alternate between engaged and disengaged, beginning with engaged, and the
  -- newest one says what the switch is, then they do so after any history of calls.
  pub run-Shows :
      (cs : List Call) (w : World)
      → Shows (is_engaged w) w.published
      → Shows (is_engaged (run digest cs w)) (run digest cs w).published
  unfolding run
  run-Shows [] w h = h
  run-Shows (c ∷ cs) w h = run-Shows cs (step digest c w) (step-Shows c w h)

  -- The arguments of a call.
  abbrev pub args_of : Call → Args
  args_of (engages trigger a) = a
  args_of (disengages recheck a) = a

  -- Each call's audit time is a word, and each call finds a log below the size limit.
  abbrev pub StaysProper : List Call → World → Type 0
  StaysProper [] w = Unit {0}
  StaysProper (c ∷ cs) w =
      IsWord (args_of c).clock.audit_now × IsSmall w.disk × StaysProper cs (step digest c w)

  engage_request-IsProper :
      (audit_now now : Text) (trigger reason cycle_id : String) (is_test : Bool)
      → IsWord audit_now
      → IsProper (engage_request audit_now now trigger reason cycle_id is_test)
  unfolding engage_request
  engage_request-IsProper audit_now now trigger reason cycle_id is_test h = record {
    stamped = h;
    typed = omega arith;
  }

  disengage_request-IsProper :
      (audit_now now : Text) (reason cycle_id : String) (is_test : Bool)
      → IsWord audit_now
      → IsProper (disengage_request audit_now now reason cycle_id is_test)
  unfolding disengage_request
  disengage_request-IsProper audit_now now reason cycle_id is_test h = record {
    stamped = h;
    typed = omega arith;
  }

  if-IsSound :
      (law : IsHexdigest digest) (b : Bool) (r : Request) (d : Disk)
      → IsProper r
      → IsSmall d
      → IsSound digest d
      → IsSound digest (if b then log_event digest r d else d)
  if-IsSound law true r d p small s = log_event-IsSound digest law r d p small s
  if-IsSound law false r d p small s = s

  step-IsSound :
      (law : IsHexdigest digest) (c : Call) (w : World)
      → IsWord (args_of c).clock.audit_now
      → IsSmall w.disk
      → IsSound digest w.disk
      → IsSound digest (step digest c w).disk
  unfolding step engage disengage
  step-IsSound law (engages trigger a) w word small s =
      elim (Bool-cases (row_engaged (ensured a.clock.now w.row).state)) [
        | inl e ↦ rw e s
        | inr e ↦ rw e (
            if-IsSound law a.audited _ w.disk
              (engage_request-IsProper a.clock.audit_now a.clock.now trigger a.reason a.cycle_id
                a.is_test word)
              small s)
      ]
  step-IsSound law (disengages recheck a) w word small s =
      elim (Bool-cases (row_engaged (ensured a.clock.now w.row).state)) [
        | inl e ↦
            rw (e, step)
              (if-IsSound law a.audited _ w.disk
                (disengage_request-IsProper a.clock.audit_now a.clock.now a.reason a.cycle_id
                  a.is_test word)
                small s)
        | inr e ↦ rw (e, step) s
      ]

  run-IsSound :
      (law : IsHexdigest digest) (cs : List Call) (w : World)
      → StaysProper cs w
      → IsSound digest w.disk
      → IsSound digest (run digest cs w).disk
  unfolding run
  run-IsSound law [] w h s = s
  run-IsSound law (c ∷ cs) w (word, small, h) s =
      run-IsSound law cs (step digest c w) h (step-IsSound law c w word small s)

  -- If the log is sound, every call's audit time is a word, and no call finds the log at its size limit,
  -- then the log still verifies after any history of calls of the switch.
  pub verify_full-run_calls :
      (law : IsHexdigest digest) (cs : List Call) (w : World)
      → StaysProper cs w
      → IsSound digest w.disk
      → verify_full digest (run digest cs w).disk ≡ valid
  verify_full-run_calls law cs w h s = verify_full-IsSound digest _ (run-IsSound law cs w h s)
