-- ===== src/CatastropheNet/Exits.antt =====
-- What an exit does to the kill switch, and what it reads of the broker.
use automatic_trading.Prelude.{
  Bool, true, false, ◌&&◌, ◌||◌, not, ◌≡◌, refl, ◌∙◌, ap, String, str_eq, Option, none, some, arith,
  Bool-cases, inl, inr,
}
use automatic_trading.Text.{Text}
use automatic_trading.Float.{Num}
use automatic_trading.Holding.{Holding}
use automatic_trading.KillSwitch.{World, Clock, is_engaged}
use automatic_trading.KillSwitch.Safety.{engage-is_engaged}
use automatic_trading.CatastropheNet.{
  Answer, returned, raised, cancelled, cancel_catastrophe_net, Priced, ExitArgs, Exit, exited,
  exit_raised, CancelResult, sell, execute_exit,
}

or_true : (b : Bool) → true ≡ (b || true)
or_true b = ground arith

or_false : (b : Bool) → b ≡ (b || false)
or_false b = ground arith

abbrev pub is_raised : Answer → Bool
is_raised (returned b) = false
is_raised (raised error) = true

-- The text that it raises.
abbrev pub answer_error : Answer → Option String
answer_error (returned b) = none
answer_error (raised error) = some error

-- The broker raises on that order.
abbrev pub broker_fails : Option (String → Answer) → String → Bool
broker_fails none order_id = false
broker_fails (some cancel_order) order_id = is_raised (cancel_order order_id)

abbrev pub is_missing : Option CancelResult → Bool
is_missing none = true
is_missing (some c) = false

module _ (N : Num) where
  -- The cancellation is tried, and the broker raises.
  abbrev pub cancel_fails : ExitArgs N → Bool
  cancel_fails a =
      not (str_eq a.cycle_id "")
      && not (str_eq a.catastrophe_order_id "")
      && broker_fails a.broker a.catastrophe_order_id

  -- An order to sell comes out.
  abbrev pub sells : Exit N → Bool
  sells (exited r) = true
  sells (exit_raised e) = false

  module _ (digest : Text → Text) where
    sell-sells :
        (h : Holding (Priced N)) (a : ExitArgs N) (s : Option CancelResult × World)
        → (sells (sell N digest h a s).0 ≡ not (is_missing s.0))
          × (is_engaged (sell N digest h a s).1 ≡ is_engaged s.1)
    unfolding sell is_engaged
    sell-sells h a (none, w) = (refl, refl)
    sell-sells h a (some c, w) = (refl, ground arith)

    cancelled-is_engaged :
        (clock : Clock) (order_id : String) (answer : Answer) (w : World)
        → let (c, w') = cancelled digest clock order_id answer w in
          (is_missing c ≡ is_raised answer) × (is_engaged w' ≡ (is_engaged w || is_raised answer))
    unfolding cancelled
    cancelled-is_engaged clock order_id (returned b) w = (refl, ground arith)
    cancelled-is_engaged clock order_id (raised error) w =
        (refl, engage-is_engaged digest _ _ w ∙ or_true (is_engaged w))

    cancel_catastrophe_net-is_engaged :
        (clock : Clock) (order_id : String) (broker : Option (String → Answer)) (w : World)
        → let (c, w') = cancel_catastrophe_net digest clock order_id broker w in
          (is_missing c ≡ broker_fails broker order_id)
          × (is_engaged w' ≡ (is_engaged w || broker_fails broker order_id))
    unfolding cancel_catastrophe_net
    cancel_catastrophe_net-is_engaged clock order_id none w = (refl, ground arith)
    cancel_catastrophe_net-is_engaged clock order_id (some cancel_order) w =
        cancelled-is_engaged clock order_id (cancel_order order_id) w

    -- Whatever the broker does: an order to sell comes out of an exit exactly when a cycle is named and
    -- the cancellation of the stop at the broker, if there is one, does not raise; and the kill switch
    -- is engaged afterwards exactly when it was before or the cancellation raises.
    pub execute_exit-is_engaged :
        (h : Holding (Priced N)) (a : ExitArgs N) (w : World)
        → let (r, w') = execute_exit N digest h a w in
          (sells r ≡ (not (str_eq a.cycle_id "") && not (cancel_fails a)))
          × (is_engaged w' ≡ (is_engaged w || cancel_fails a))
    unfolding execute_exit
    execute_exit-is_engaged h a w = elim (Bool-cases (str_eq a.cycle_id "")) [
      | inl e ↦ rw e (refl, ground arith)
      | inr e ↦ elim (Bool-cases (str_eq a.catastrophe_order_id "")) [
        | inl f ↦
            let (k, l) = sell-sells h a (some (record { success = true; order_id = "" }), w) in
            rw (e, execute_exit) (rw (f, execute_exit) (k, l ∙ or_false (is_engaged w)))
        | inr f ↦
            let s = cancel_catastrophe_net digest a.clock a.catastrophe_order_id a.broker w in
            let (k, l) = sell-sells h a s in
            let (m, n) =
              cancel_catastrophe_net-is_engaged a.clock a.catastrophe_order_id a.broker w in
            rw (e, execute_exit) (rw (f, execute_exit) (k ∙ ap not m, l ∙ n))
      ]
    ]

    cancelled-answer :
        (clock : Clock) (order_id : String) (x y : Answer) (w : World)
        → answer_error x ≡ answer_error y
        → cancelled digest clock order_id x w ≡ cancelled digest clock order_id y w
    unfolding cancelled
    cancelled-answer clock order_id (returned b) (returned c) w e = refl
    cancelled-answer clock order_id (returned b) (raised error) w e = ground arith
    cancelled-answer clock order_id (raised error) (returned c) w e = ground arith
    cancelled-answer clock order_id (raised error) (raised error') w e = ground (arith, e)

    sell-broker :
        (h : Holding (Priced N)) (a : ExitArgs N) (f g : Option (String → Answer))
        (s : Option CancelResult × World)
        → sell N digest h (record a { broker = f }) s ≡ sell N digest h (record a { broker = g }) s
    unfolding sell
    sell-broker h a f g (none, w) = refl
    sell-broker h a f g (some c, w) = refl

    -- What the broker returns is not read: two brokers that raise with the same texts, one of which may
    -- refuse every cancellation that the other carries out, make the same exit.
    pub execute_exit-refused :
        (h : Holding (Priced N)) (a : ExitArgs N) (w : World) (f g : String → Answer)
        → ((order_id : String) → answer_error (f order_id) ≡ answer_error (g order_id))
        → execute_exit N digest h (record a { broker = some f }) w
          ≡ execute_exit N digest h (record a { broker = some g }) w
    unfolding execute_exit cancel_catastrophe_net
    execute_exit-refused h a w f g e =
        let same =
          cancelled-answer a.clock a.catastrophe_order_id (f a.catastrophe_order_id)
            (g a.catastrophe_order_id) w (e a.catastrophe_order_id) in
        rw (same, execute_exit) (rw (sell-broker h a (some f) (some g) _, execute_exit) refl)
