-- ===== src/Agent/PlanTurn/Progress.antt =====
-- What one request can do to a waiting turn, and two orders in which its decision is lost.
use kubernetes_agent.Base.{suc, ◌≡◌, refl, ap, String, false, [], ◌∷◌, some}
use mathlib.Core.List.{Memᴰ}
use kubernetes_agent.Agent.Session.{
  Session, closed_channel, close_channel, record_plan, close_plan, reset_plan, wait_plan,
  plan_decision, released,
}
use kubernetes_agent.Agent.PlanTurn.{
  announced, waiting, returned, IsVerdict, cancelled, State, reset, write, close, wake, answer,
  Steps, none_yet, and_then, start,
}
use kubernetes_agent.Agent.PlanTurn.Decision.{read_verdict, read_default, close_waiting}

-- the request of `d`, whole
abbrev pub after_request : String → State → State
after_request d s = record s {
  session = (close_plan (record_plan d s.session)).1;
  written = d ∷ s.written;
  since_reset = d ∷ s.since_reset;
}

request : (s : State) (d : String) → IsVerdict d → Steps s (after_request d s)
unfolding record_plan close_plan
request s d v = and_then (and_then none_yet (write s d v)) (close _ s.in_flight refl)

wait_closed : (s : Session) → s.resume_plan ≡ closed_channel → Memᴰ released (wait_plan s false)
unfolding wait_plan
wait_closed s e = rw e (Memᴰ.head refl)

closed_after :
    (s : Session) (d : String)
    → close_channel s.resume_plan ≡ closed_channel
    → (close_plan (record_plan d s)).1.resume_plan ≡ closed_channel
unfolding record_plan close_plan
closed_after s d h = h

result_after : (s : Session) (d : String) → (close_plan (record_plan d s)).1.plan_result ≡ d
unfolding record_plan close_plan
result_after s d = refl

-- the turn wakes and answers
answer_closed :
    (s : State) (d : String)
    → s.phase ≡ waiting
    → s.session.resume_plan ≡ closed_channel
    → plan_decision (some s.session) ≡ d
    → (t : State) × Steps s t × (t.phase ≡ returned d) × (t.written ≡ s.written)
answer_closed s d w shut e = (
  _,
  and_then (and_then none_yet (wake s false w (wait_closed s.session shut))) (answer _ refl),
  ap returned e,
  refl,
)

Steps-trans : {s t u : State} → Steps s t → Steps t u → Steps s u
Steps-trans a none_yet = a
Steps-trans a (and_then b step) = and_then (Steps-trans a b) step

-- A turn that waits for a decision on its plan can always be answered: from any state that a turn
-- reaches and in which it waits, one request for a decision and nothing else leads to a state in
-- which the tool has answered that decision.
pub request_answers :
    (s : Session) (t : State) (d : String)
    → Steps (start s) t
    → t.phase ≡ waiting
    → IsVerdict d
    → (u : State) × Steps t u × (u.phase ≡ returned d) × (u.written ≡ d ∷ t.written)
request_answers s t d steps w v =
    let made = close_waiting s t steps w in
    let (u, more, e, k) =
      answer_closed (after_request d t) d w (closed_after t.session d made)
        (read_verdict _ d (result_after t.session d) v) in
    (u, Steps-trans (request t d v) more, e, k)

-- a cancellation whose two halves stand on the two sides of the reset
abbrev pub straddled : State → State
unfolding record_plan reset_plan close_plan
straddled s = record s {
  session = (close_plan (reset_plan (record_plan "cancelled" s.session))).1;
  phase = waiting;
  in_flight = s.in_flight;
  written = "cancelled" ∷ s.written;
  since_reset = [];
  carried = suc s.in_flight;
}

straddle : (s : State) → s.phase ≡ announced → Steps s (straddled s)
unfolding record_plan reset_plan close_plan
straddle s e =
    and_then (and_then (and_then none_yet (write s "cancelled" cancelled)) (reset _ e))
      (close _ s.in_flight refl)

-- A cancellation can be answered as a confirmation: from every state in which the plan is announced
-- and not yet reset there are steps with one request, which cancels, after which the tool has
-- answered `confirmed`.
pub cancel_answers_confirmed :
    (s : State)
    → s.phase ≡ announced
    → (t : State) × Steps s t
      × (t.phase ≡ returned "confirmed")
      × (t.written ≡ "cancelled" ∷ s.written)
unfolding record_plan reset_plan close_plan
cancel_answers_confirmed s e =
    let (t, more, a, k) = answer_closed (straddled s) "confirmed" refl refl (read_default _ refl) in
    (t, Steps-trans (straddle s e) more, a, k)
