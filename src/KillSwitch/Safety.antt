-- ===== src/KillSwitch/Safety.antt =====
-- Histories of calls of the switch, and what engages and lifts it.
use automatic_trading.Prelude.{
  true, false, ◌≡◌, ◌≢◌, refl, ◌⊎◌, inl, inr, ◌∙◌, String, List, [], ◌∷◌, Option, none, some, arith,
  Bool-cases,
}
use automatic_trading.Text.{Text}
use automatic_trading.KillSwitch.{
  World, Row, armed, engaged, Args, engage, disengage, is_engaged, get_state, get_engagement_info,
  row_engaged, ensured,
}
use automatic_trading.KillSwitch.Triggers.{TriggerResult}

-- The time that a new row is given does not matter to its state.
pub ensured-state : (s t : Text) (row : Option Row) → (ensured s row).state ≡ (ensured t row).state
unfolding ensured
ensured-state s t none = refl
ensured-state s t (some row) = refl

-- A call of the switch.
pub data Call : Type 0 where
  engages : (trigger : String) → Args → Call
  disengages : (recheck : Option (List TriggerResult)) → Args → Call

module _ (digest : Text → Text) where
  unfoldable pub step : Call → World → World
  step (engages trigger a) w = engage digest trigger a w
  step (disengages recheck a) w = (disengage digest recheck a w).1

  unfoldable pub run : List Call → World → World
  unfolding step
  run [] w = w
  run (c ∷ cs) w = run cs (step c w)

  -- Whatever the state, the trigger and the arguments: after `engage` the switch is engaged.
  pub engage-is_engaged :
      (trigger : String) (a : Args) (w : World) → is_engaged (engage digest trigger a w) ≡ true
  unfolding engage is_engaged
  engage-is_engaged trigger a w =
      elim (Bool-cases (row_engaged (ensured a.clock.now w.row).state)) [
        | inl e ↦ rw e e
        | inr e ↦ rw e refl
      ]

  -- No `disengage` among the calls.
  abbrev pub NoDisengage : List Call → Type 0
  NoDisengage [] = Unit {0}
  NoDisengage (engages trigger a ∷ cs) = NoDisengage cs
  NoDisengage (disengages recheck a ∷ cs) = ⊥

  engage-engaged :
      (trigger : String) (a : Args) (w : World) (row : Row)
      → w.row ≡ some row
      → row.state ≡ engaged
      → let w' = engage digest trigger a w in
        (w'.row ≡ some row) × (w'.disk ≡ w.disk) × (w'.published ≡ w.published)
  unfolding engage
  engage-engaged trigger a w row e s = ground arith

  -- While it is engaged, any history of further triggers leaves the row as the first one wrote it: its
  -- reason, its trigger and its time; nothing is logged to the audit chain or published.
  pub run-engaged :
      (cs : List Call) (w : World) (row : Row)
      → NoDisengage cs
      → w.row ≡ some row
      → row.state ≡ engaged
      → let w' = run cs w in (w'.row ≡ some row) × (w'.disk ≡ w.disk) × (w'.published ≡ w.published)
  unfolding run step
  run-engaged [] w row n e s = (e, refl, refl)
  run-engaged (engages trigger a ∷ cs) w row n e s =
      let (e', d, p) = engage-engaged trigger a w row e s in
      let (e'', d', p') = run-engaged cs (engage digest trigger a w) row n e' s in
      (e'', d' ∙ d, p' ∙ p)
  run-engaged (disengages recheck a ∷ cs) w row n e s = absurd n

  -- `disengage` succeeds exactly when the switch is engaged, and leaves it armed either way. What the
  -- second look at the condition finds, or that it fails, changes only the debug log: an operator may
  -- lift the switch while its condition still holds.
  pub disengage_lem :
      (recheck other : Option (List TriggerResult)) (a : Args) (w : World)
      → let (done, w') = disengage digest recheck a w in
        let w'' = (disengage digest other a w).1 in
        (done ≡ is_engaged w)
        × (is_engaged w' ≡ false)
        × (w''.row ≡ w'.row)
        × (w''.disk ≡ w'.disk)
        × (w''.published ≡ w'.published)
        × (w''.proposals ≡ w'.proposals)
  unfolding disengage is_engaged
  disengage_lem recheck other a w =
      elim (Bool-cases (row_engaged (ensured a.clock.now w.row).state)) [
        | inl e ↦ rw (e, ensured-state [] a.clock.now w.row, e) (refl, refl, refl, refl, refl, refl)
        | inr e ↦ rw (e, ensured-state [] a.clock.now w.row, e) (refl, refl, refl, refl, refl, refl)
      ]

  -- The details of an engagement are given exactly while the switch is engaged.
  pub get_engagement_info-is_engaged :
      (w : World)
      → ((is_engaged w ≡ true) × (get_engagement_info w ≢ none) × (get_state w ≡ engaged))
        ⊎ ((is_engaged w ≡ false) × (get_engagement_info w ≡ none) × (get_state w ≡ armed))
  unfolding is_engaged get_engagement_info get_state
  get_engagement_info-is_engaged w = ground arith
