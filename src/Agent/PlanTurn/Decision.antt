-- ===== src/Agent/PlanTurn/Decision.antt =====
-- Which decision the plan tool answers, over every interleaving.
use kubernetes_agent.Base.{
  ℕ, suc, ◌+◌, ◌≤◌, ◌<◌, ◌≡◌, refl, sym, ap, subst, ◌∙◌, String, Bool, true, false, List, [], ◌∷◌,
  some, length, arith,
}
use mathlib.Core.List.{Memᴰ}
use kubernetes_agent.Agent.Session.{
  Channel, nil_channel, open_channel, closed_channel, close_channel, select_wait, Session, released,
  record_plan, close_plan, reset_plan, wait_plan, plan_decision,
}
use kubernetes_agent.Agent.PlanTurn.{
  Phase, waiting, woken, IsVerdict, confirmed, cancelled, State, Step, announce, reset, write,
  close, wake, abort, answer, Steps, none_yet, and_then, start,
}

-- the newest decision, or the empty result of a reset
abbrev newest : List String → String
newest [] = ""
newest (d ∷ ds) = d

-- the waits in which the invariant speaks of the session
data IsPending : Phase → Type 0 where
  is_waiting : IsPending waiting
  is_woken : IsPending woken

-- a decision or none: what `plan_result` can hold since a reset
data IsResult : List String → Type 0 where
  none_written : IsResult []
  last_written : {d : String} (ds : List String) → IsVerdict d → IsResult (d ∷ ds)

-- requests of the current wait that may still close its channel, and those that could have
abbrev IsCounted : Channel → ℕ → ℕ → Type 0
IsCounted closed_channel f n = f < n
IsCounted open_channel f n = f ≤ n
IsCounted nil_channel f n = f < 0

record Sound (s : State) : Type 0 where
  result : s.session.plan_result ≡ newest s.since_reset
  verdict : IsResult s.since_reset
  counted : IsCounted s.session.resume_plan s.in_flight (s.carried + length s.since_reset)

record Inv (s : State) : Type 0 where
  pending : IsPending s.phase → Sound s
  open_if : s.phase ≡ woken → s.session.resume_plan ≡ closed_channel

released_on : (c : Channel) (done : Bool) → Memᴰ released (select_wait c done) → c ≡ closed_channel
released_on closed_channel done m = refl
released_on open_channel true (Memᴰ.head e) = cc e
released_on open_channel true (Memᴰ.tail m) = elim m [ ]
released_on open_channel false m = elim m [ ]
released_on nil_channel true (Memᴰ.head e) = cc e
released_on nil_channel true (Memᴰ.tail m) = elim m [ ]
released_on nil_channel false m = elim m [ ]

pub released_closed :
    (s : Session) (done : Bool) → Memᴰ released (wait_plan s done) → s.resume_plan ≡ closed_channel
unfolding wait_plan
released_closed s done m = released_on s.resume_plan done m

IsCounted-write :
    (c : Channel) (f a n : ℕ) → IsCounted c f (a + n) → IsCounted c (suc f) (a + suc n)
IsCounted-write closed_channel f a n h = omega arith
IsCounted-write open_channel f a n h = omega arith
IsCounted-write nil_channel f a n h = omega arith

IsCounted-close : (c : Channel) (f n : ℕ) → IsCounted c (suc f) n → IsCounted (close_channel c) f n
IsCounted-close closed_channel f n h = omega arith
IsCounted-close open_channel f n h = omega arith
IsCounted-close nil_channel f n h = omega arith

Step-Inv : {s t : State} → Step s t → Inv s → Inv t
Step-Inv (announce s free) h = record { pending = λ p. elim p [ ]; open_if = λ e. cc e }
Step-Inv (reset s e) h = record {
  pending = λ p.
      unfold reset_plan in record { result = refl; verdict = none_written; counted = omega arith };
  open_if = λ e. cc e;
}
Step-Inv (write s d v) h = record {
  pending = λ p.
      unfold record_plan in
      record {
        result = refl;
        verdict = last_written s.since_reset v;
        counted =
            IsCounted-write s.session.resume_plan s.in_flight s.carried (length s.since_reset)
              (h.pending p).counted;
      };
  open_if = λ e. unfold record_plan in h.open_if e;
}
Step-Inv (close s n e) h = record {
  pending = λ p.
      unfold close_plan in
      record {
        result = (h.pending p).result;
        verdict = (h.pending p).verdict;
        counted = IsCounted-close s.session.resume_plan n _ (
            subst (λ f. IsCounted s.session.resume_plan f (s.carried + length s.since_reset)) e
              (h.pending p).counted);
      };
  open_if = λ e. unfold close_plan in ap close_channel (h.open_if e);
}
Step-Inv (wake s done e m) h =
    let was : Sound s = h.pending (subst IsPending (sym e) is_waiting) in
    record {
      pending = λ p. record { result = was.result; verdict = was.verdict; counted = was.counted };
      open_if = λ e'. released_closed s.session done m;
    }
Step-Inv (abort s done e m) h = record { pending = λ p. elim p [ ]; open_if = λ e. cc e }
Step-Inv (answer s e) h = record { pending = λ p. elim p [ ]; open_if = λ e. cc e }

Steps-Inv : {s t : State} → Steps s t → Inv s → Inv t
Steps-Inv none_yet h = h
Steps-Inv (and_then steps step) h = Step-Inv step (Steps-Inv steps h)

start-Inv : (s : Session) → Inv (start s)
start-Inv s = record { pending = λ p. elim p [ ]; open_if = λ e. cc e }

-- the newest decision since the reset, or `confirmed` where only an older request ended the wait
pub data IsAnswer (s : State) : String → Type 0 where
  by_newest : (d : String) (ds : List String) → s.since_reset ≡ d ∷ ds → IsVerdict d → IsAnswer s d
  by_default : s.since_reset ≡ [] → 0 < s.carried → IsAnswer s "confirmed"

pub read_verdict :
    (s : Session) (d : String) → s.plan_result ≡ d → IsVerdict d → plan_decision (some s) ≡ d
unfolding plan_decision
read_verdict s _ e confirmed = rw e refl
read_verdict s _ e cancelled = rw e refl

pub read_default : (s : Session) → s.plan_result ≡ "" → plan_decision (some s) ≡ "confirmed"
unfolding plan_decision
read_default s e = rw e refl

counted_default :
    (c : Channel) (f a : ℕ) (l : List String)
    → c ≡ closed_channel
    → l ≡ []
    → IsCounted c f (a + length l)
    → 0 < a
counted_default c f a l e k h =
    let less : f < a + length l = subst (λ c. IsCounted c f (a + length l)) e h in
    omega (arith, less, ap length k)

answered :
    (t : State) (l : List String)
    → Sound t
    → t.session.resume_plan ≡ closed_channel
    → t.since_reset ≡ l
    → IsResult l
    → IsAnswer t (plan_decision (some t.session))
answered t _ sound shut e none_written =
    subst (IsAnswer t) (sym (read_default t.session (sound.result ∙ ap newest e))) (
      by_default e (
        counted_default t.session.resume_plan t.in_flight t.carried t.since_reset shut e
          sound.counted))
answered t _ sound shut e (last_written {d = d} ds v) =
    subst (IsAnswer t) (sym (read_verdict t.session d (sound.result ∙ ap newest e) v))
      (by_newest d ds e v)

-- Whatever the interleaving of a turn with the requests that resume it, when the plan tool's wait has
-- ended the decision that it answers is the newest one that a request has written since the plan's
-- reset, or, where none has, `confirmed`; the latter needs a request that had written its decision
-- before the reset and closed the channel after it.
pub Steps-IsAnswer :
    (s : Session) (t : State)
    → Steps (start s) t
    → t.phase ≡ woken
    → IsAnswer t (plan_decision (some t.session))
Steps-IsAnswer s t steps w =
    let inv = Steps-Inv steps (start-Inv s) in
    let sound = inv.pending (subst IsPending (sym w) is_woken) in
    answered t t.since_reset sound (inv.open_if w) refl sound.verdict

counted_made : (c : Channel) (f n : ℕ) → IsCounted c f n → close_channel c ≡ closed_channel
counted_made closed_channel f n h = refl
counted_made open_channel f n h = refl
counted_made nil_channel f n h = ground arith

-- the channel of a turn that waits was made, so a close of it leaves it closed
pub close_waiting :
    (s : Session) (t : State)
    → Steps (start s) t
    → t.phase ≡ waiting
    → close_channel t.session.resume_plan ≡ closed_channel
close_waiting s t steps w =
    let inv = Steps-Inv steps (start-Inv s) in
    counted_made t.session.resume_plan t.in_flight _
      (inv.pending (subst IsPending (sym w) is_waiting)).counted
