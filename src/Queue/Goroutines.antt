-- ===== src/Queue/Goroutines.antt =====
-- pkg/mq/inmemory.go: `Publish`, `deliverMessage`, `distribute`, `redeliveryLoop` and `Close`. Before
-- a delivery, and wherever it is not in a locked section, other goroutines may run: a schedule says
-- what they do.
use elastic_gpu_telemetry_pi.Common.{
  ℕ, zero, suc, Bool, true, false, Option, List, [], ◌∷◌, ltb, length, Text, ok, err, if◌then◌else◌,
  ◌==◌,
}
use elastic_gpu_telemetry_pi.Domain.{Time, Message}
use elastic_gpu_telemetry_pi.Queue.{
  Queue, PendingMessage, check_message, send_message, PublishOutcome, failed, context_cancelled,
  queue_closed,
}
use elastic_gpu_telemetry_pi.Queue.Steps.{
  Action, acts, buffer, select, no_subscribers, out_of_range, selected, safe_send, register, expire,
  take_backlog, drop_subscribers, begin_close, finish_close,
}

-- `Publish`. The context is cancelled at the first test if `done`, and at the select if `done'`; the
-- schedule runs between the test of the closed flag and the select.
unfoldable pub publish :
    Bool → Bool → Bool → List Action → Option Message → Queue → Queue × PublishOutcome
publish done done' pick gap msg q = elim (check_message msg) [
  | err e ↦ (q, failed e)
  | ok m ↦
      if q.closed
      then (q, failed queue_closed)
      else if done
      then (q, failed context_cancelled)
      else send_message done' pick m (acts gap q)
]

-- What happens before one `deliverMessage`, and around its attempts, by the number of the attempt.
pub record Environment : Type 0 where
  pub start : List Action
  pub pick : ℕ → Bool
  pub gap : ℕ → List Action
  pub register_gap : ℕ → List Action
  pub pause : ℕ → List Action
  pub now : Time

-- No other goroutine interferes.
abbrev pub calm : (ℕ → Bool) → Time → Environment
calm pick now = record {
  start = [];
  pick = pick;
  gap = λ k. [];
  register_gap = λ k. [];
  pause = λ k. [];
  now = now;
}

pub data Delivery : Type 0 where
  delivered not_delivered index_panic : Delivery

abbrev pub max_retries : ℕ
max_retries = 100

-- The loop of `deliverMessage` with `left` attempts left; `k` counts the failed ones.
unfoldable pub deliver_loop : Environment → ℕ → ℕ → Message → Queue → Queue × Delivery
deliver_loop env zero k m q = (buffer m q, not_delivered)
deliver_loop env (suc left) k m q = elim (select q) [
  | no_subscribers ↦ (buffer m (acts (env.gap k) q), not_delivered)
  | out_of_range ↦ (q, index_panic)
  | selected ref chosen ↦
      let (after, sent) = safe_send (env.pick k) ref m (acts (env.gap k) chosen) in
      elim sent [
        | true ↦ (register ref env.now m (acts (env.register_gap k) after), delivered)
        | false ↦ deliver_loop env left (suc k) m (acts (env.pause k) after)
      ]
]

unfoldable pub deliver_message : Environment → Message → Queue → Queue × Delivery
deliver_message env m q = deliver_loop env max_retries 0 m (acts env.start q)

-- Delivers a list in turn; each message has its own environment.
unfoldable pub deliver_all : (ℕ → Environment) → ℕ → List Message → Queue → Queue
deliver_all envs i [] q = q
deliver_all envs i (m ∷ ms) q = deliver_all envs (suc i) ms (deliver_message (envs i) m q).0

-- One round of `distribute`, for the message that it has received.
unfoldable pub distribute_message : (ℕ → Environment) → Environment → Message → Queue → Queue
distribute_message envs env m q =
    if length q.subscribers == 0
    then buffer m q
    else if ltb 0 (length q.undelivered)
    then (deliver_message env m (deliver_all envs 0 q.undelivered (take_backlog q))).0
    else (deliver_message env m q).0

-- One tick of `redeliveryLoop`.
unfoldable pub buffer_all : List Message → Queue → Queue
buffer_all [] q = q
buffer_all (m ∷ ms) q = buffer_all ms (buffer m q)

unfoldable pub redeliver_all : (ℕ → Environment) → List Action → Bool → List Message → Queue → Queue
redeliver_all envs gap has_subs [] q = q
redeliver_all envs gap true (m ∷ ms) q = deliver_all envs 0 (m ∷ ms) (acts gap q)
redeliver_all envs gap false (m ∷ ms) q = buffer_all (m ∷ ms) (acts gap q)

unfoldable pub redelivery_tick :
    (ℕ → Environment) → List Action → Time → List (Text × PendingMessage) → Queue → Queue
redelivery_tick envs gap now visits q =
    let (left, redeliver) = expire now visits q in
    redeliver_all envs gap (ltb 0 (length left.subscribers)) redeliver left

-- The loop of `distribute` once its channel is closed: it handles what the channel still holds, and
-- ends. `rounds` is fuel; `gaps` says what other goroutines do before each receive.
unfoldable pub drain :
    (ℕ → ℕ → Environment) → (ℕ → Environment) → (ℕ → List Action) → ℕ → ℕ → Queue → Queue
drain backlog_envs envs gaps zero i q = drop_subscribers (acts (gaps i) q)
drain backlog_envs envs gaps (suc rounds) i q =
    let t : Queue = acts (gaps i) q in
    elim t.messages [
      | [] ↦ drop_subscribers t
      | m ∷ ms ↦
          drain backlog_envs envs gaps rounds (suc i)
            (distribute_message (backlog_envs i) (envs i) m (record t { messages = ms }))
    ]

-- `Close`, which waits for `distribute` to end; `last` is what happens before it takes the lock again.
unfoldable pub close :
    (ℕ → ℕ → Environment) → (ℕ → Environment) → (ℕ → List Action) → List Action → Queue → Queue
close backlog_envs envs gaps last q =
    if q.closed
    then q
    else finish_close
        (acts last (drain backlog_envs envs gaps (length q.messages) 0 (begin_close q)))
