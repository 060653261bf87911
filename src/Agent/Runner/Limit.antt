-- ===== src/Agent/Runner/Limit.antt =====
-- How often one Run asks the model.
use kubernetes_agent.Base.{
  ℕ, zero, suc, ◌+◌, ◌*◌, ◌≤◌, ◌≡◌, refl, ap, true, false, Bool-cases, List, Option, none, some,
  Option-cases, ok, err, Result-cases, inl, inr, arith,
}
use kubernetes_agent.Agent.Runner.{
  RunError, canceled, deadline_exceeded, failed, Item, Env, Turn, RunState, Outcome, is_retryable,
  consume, new_turn, chat_once, chat_retry, llm_error, stream_error, persist, store_turn,
  after_stream, step, steps, max_retries, run,
}

module _ {W : Type 0} (env : Env W) (window : ℕ) where
  chat_once-chats : (s : RunState W) → (chat_once env window s).1.chats ≡ s.chats + 1
  unfolding chat_once
  chat_once-chats s = omega arith

  retry_again :
      (n : ℕ) (s : RunState W) (e : RunError)
      → (chat_once env window s).0 ≡ err e
      → is_retryable e ≡ true
      → chat_retry env window (suc n) s ≡ chat_retry env window n (chat_once env window s).1
  unfolding chat_retry
  retry_again n s e h r = ground (arith, h, r)

  give_up :
      (n : ℕ) (s : RunState W) (e : RunError)
      → (chat_once env window s).0 ≡ err e
      → is_retryable e ≡ false
      → chat_retry env window (suc n) s ≡ (err e, (chat_once env window s).1)
  unfolding chat_retry
  give_up n s e h r = ground (arith, h, r)

  go_on :
      (n : ℕ) (s : RunState W) (items : List Item)
      → (chat_once env window s).0 ≡ ok items
      → chat_retry env window (suc n) s ≡ (ok items, (chat_once env window s).1)
  unfolding chat_retry
  go_on n s items h = ground (arith, h)

  chat_retry-chats :
      (n : ℕ) (s : RunState W) → (chat_retry env window n s).1.chats ≤ s.chats + suc n
  chat_retry-chats zero s = unfold chat_retry in omega (arith, chat_once-chats s)
  chat_retry-chats (suc n) s = elim (Result-cases (chat_once env window s).0) [
    | inl (e, h) ↦ elim (Bool-cases (is_retryable e)) [
      | inl r ↦
          rw (retry_again n s e h r)
            (omega (arith, chat_once-chats s, chat_retry-chats n (chat_once env window s).1))
      | inr r ↦ rw (give_up n s e h r) (omega (arith, chat_once-chats s))
    ]
    | inr (items, h) ↦ rw (go_on n s items h) (omega (arith, chat_once-chats s))
  ]

  store_turn-chats : (t : Turn W) (s : RunState W) → (store_turn env window t s).1.chats ≡ s.chats
  store_turn-chats t s = elim (Result-cases (persist env window t.assistant t.results t.world).0) [
    | inl (e, h) ↦ ground (arith, h)
    | inr (u, h) ↦ ground (arith, h)
  ]

  after_stream-chats :
      (o : Option RunError) (t : Turn W) (s : RunState W)
      → (after_stream env window (o, t) s).1.chats ≡ s.chats
  unfolding after_stream stream_error llm_error
  after_stream-chats none t s = store_turn-chats t s
  after_stream-chats (some canceled) t s = refl
  after_stream-chats (some deadline_exceeded) t s = refl
  after_stream-chats (some (failed msg)) t s = refl

  step_failed :
      (retries : ℕ) (s : RunState W) (e : RunError)
      → (chat_retry env window retries s).0 ≡ err e
      → (step env window retries s).1.chats ≡ (chat_retry env window retries s).1.chats
  unfolding step llm_error
  step_failed retries s e h = ground (arith, h)

  step_streamed :
      (retries : ℕ) (s : RunState W) (items : List Item)
      → (chat_retry env window retries s).0 ≡ ok items
      → let s' = (chat_retry env window retries s).1 in
        step env window retries s
        ≡ after_stream env window (consume env items (new_turn s'.world s'.events)) s'
  unfolding step
  step_streamed retries s items h = ground (arith, h)

  step-chats :
      (retries : ℕ) (s : RunState W) → (step env window retries s).1.chats ≤ s.chats + suc retries
  step-chats retries s =
      let s' = (chat_retry env window retries s).1 in
      elim (Result-cases (chat_retry env window retries s).0) [
        | inl (e, h) ↦ omega (arith, step_failed retries s e h, chat_retry-chats retries s)
        | inr (items, h) ↦
            let turn = consume env items (new_turn s'.world s'.events) in
            omega (
              arith,
              ap (λ r. r.1.chats) (step_streamed retries s items h),
              after_stream-chats turn.0 turn.1 s',
              chat_retry-chats retries s,
            )
      ]

  steps_on :
      (n retries : ℕ) (s : RunState W)
      → (step env window retries s).0 ≡ none
      → steps env window (suc n) retries s
        ≡ steps env window n retries (step env window retries s).1
  unfolding steps
  steps_on n retries s h = ground (arith, h)

  steps_end :
      (n retries : ℕ) (s : RunState W) (o : Outcome)
      → (step env window retries s).0 ≡ some o
      → steps env window (suc n) retries s ≡ (o, (step env window retries s).1)
  unfolding steps
  steps_end n retries s o h = ground (arith, h)

  steps-chats :
      (n retries : ℕ) (s : RunState W)
      → (steps env window n retries s).1.chats ≤ s.chats + n * suc retries
  steps-chats zero retries s = unfold steps in omega arith
  steps-chats (suc n) retries s = elim (Option-cases (step env window retries s).0) [
    | inl h ↦
        rw (steps_on n retries s h)
          (omega (arith, step-chats retries s, steps-chats n retries (step env window retries s).1))
    | inr (o, h) ↦ rw (steps_end n retries s o h) (omega (arith, step-chats retries s))
  ]

  -- A Run whose streams end and whose tools and store return asks the model at most 32 times one more
  -- than the retries, of which a setting of 0 still makes one.
  pub run-chats :
      (retries : ℕ) (s : RunState W)
      → (run env window retries s).1.chats ≤ s.chats + 32 * suc (max_retries retries)
  unfolding run
  run-chats retries s = steps-chats 32 (max_retries retries) s
