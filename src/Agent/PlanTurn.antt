-- ===== src/Agent/PlanTurn.antt =====
-- One turn and the requests that resume it, as interleaved steps: the k8s_plan_write handler of
-- tools.go from its events to its answer, and ConfirmPlan and CancelPlan, each of which writes its
-- decision under the mutex and closes the channel after it.
pub mod Decision
pub mod Progress
pub mod Early
use kubernetes_agent.Base.{ℕ, suc, ◌+◌, ◌≡◌, String, Bool, false, true, List, [], ◌∷◌, some}
use mathlib.Core.List.{Memᴰ}
use kubernetes_agent.Agent.Session.{
  Session, Wake, released, interrupted, record_plan, close_plan, reset_plan, wait_plan,
  plan_decision,
}

-- where the handler stands: `announced` is after the events and before ResetPlan, `woken` after
-- WaitPlan has returned nil
pub data Phase : Type 0 where
  idle announced waiting woken aborted : Phase
  returned : String → Phase

-- the phases in which the turn may call the tool again
pub data IsFree : Phase → Type 0 where
  at_start : IsFree idle
  after_abort : IsFree aborted
  after_return : (d : String) → IsFree (returned d)

-- what the two methods record
pub data IsVerdict : String → Type 0 where
  confirmed : IsVerdict "confirmed"
  cancelled : IsVerdict "cancelled"

-- Besides the session and the handler's phase: the requests between their two halves, and for the
-- theorems the decisions written so far and since the last reset, newest first, and the number of
-- requests that were between their halves at that reset.
pub record State : Type 0 where
  pub session : Session
  pub phase : Phase
  pub in_flight : ℕ
  pub written : List String
  pub since_reset : List String
  pub carried : ℕ

pub data Step : State → State → Type 0 where
  announce : (s : State) → IsFree s.phase → Step s (record s { phase = announced })
  reset :
      (s : State)
      → s.phase ≡ announced
      → Step s (record s {
        session = reset_plan s.session;
        phase = waiting;
        since_reset = [];
        carried = s.in_flight;
      })
  write :
      (s : State) (d : String)
      → IsVerdict d
      → Step s (record s {
        session = record_plan d s.session;
        in_flight = suc s.in_flight;
        written = d ∷ s.written;
        since_reset = d ∷ s.since_reset;
      })
  close :
      (s : State) (n : ℕ)
      → s.in_flight ≡ suc n
      → Step s (record s { session = (close_plan s.session).1; in_flight = n })
  wake :
      (s : State) (done : Bool)
      → s.phase ≡ waiting
      → Memᴰ released (wait_plan s.session done)
      → Step s (record s { phase = woken })
  abort :
      (s : State) (done : Bool)
      → s.phase ≡ waiting
      → Memᴰ interrupted (wait_plan s.session done)
      → Step s (record s { phase = aborted })
  answer :
      (s : State)
      → s.phase ≡ woken
      → Step s (record s { phase = returned (plan_decision (some s.session)) })

pub data Steps (s : State) : State → Type 0 where
  none_yet : Steps s s
  and_then : {t u : State} → Steps s t → Step t u → Steps s u

-- a turn that has not called the tool
abbrev pub start : Session → State
start s = record {
  session = s;
  phase = idle;
  in_flight = 0;
  written = [];
  since_reset = [];
  carried = 0;
}
