-- ===== src/Queue/Interference.antt =====
-- pkg/mq/inmemory.go: the invariant along the goroutines, with others in between.
use elastic_gpu_telemetry_pi.Common.{
  ℕ, zero, suc, ◌≡◌, ◌≢◌, refl, ap, inl, inr, Bool, true, false, List, [], ◌∷◌, arith, length, ltb,
  ◌==◌, Bool-cases, if◌then◌else◌, Text,
}
use elastic_gpu_telemetry_pi.Domain.{Time, Message}
use elastic_gpu_telemetry_pi.Queue.{Queue, PendingMessage}
use elastic_gpu_telemetry_pi.Queue.Steps.{
  Action, acts, safe_send, register, drop_subscribers, begin_close, finish_close,
}
use elastic_gpu_telemetry_pi.Queue.Goroutines.{
  Environment, Delivery, delivered, index_panic, deliver_loop, deliver_message, deliver_all,
  distribute_message, redelivery_tick, redeliver_all, buffer_all, drain, close, max_retries,
}
use elastic_gpu_telemetry_pi.Queue.Invariant.{IsValid, buffer-IsValid, safe_send-IsValid}
use elastic_gpu_telemetry_pi.Queue.Selecting.{select_cases}
use elastic_gpu_telemetry_pi.Queue.Pending.{register-IsValid, expire-IsValid}
use elastic_gpu_telemetry_pi.Queue.Subscribing.{drop_subscribers-IsValid}
use elastic_gpu_telemetry_pi.Queue.Schedules.{
  acts-IsValid, chosen-IsValid, take_backlog-IsValid, shorten-IsValid, begin_close-IsValid,
  finish_close-IsValid,
}

-- A result that is valid and no panic.
abbrev pub IsFine : Queue × Delivery → Type 0
IsFine r = IsValid r.0 × (r.1 ≢ index_panic)

attempt-IsFine :
    (env : Environment) (left k : ℕ) (m : Message) (ref : ℕ) (r : Queue × Bool)
    → IsValid r.0
    → ((t : Queue) → IsValid t → IsFine (deliver_loop env left (suc k) m t))
    → IsFine (elim r.1 [
      | true ↦ (register ref env.now m (acts (env.register_gap k) r.0), delivered)
      | false ↦ deliver_loop env left (suc k) m (acts (env.pause k) r.0)
    ])
attempt-IsFine env left k m ref (t, true) v rest =
    (register-IsValid ref env.now m _ (acts-IsValid (env.register_gap k) t v), λ e. cc)
attempt-IsFine env left k m ref (t, false) v rest = rest _ (acts-IsValid (env.pause k) t v)

deliver_loop-IsFine :
    (env : Environment) (left k : ℕ) (m : Message) (q : Queue)
    → IsValid q
    → IsFine (deliver_loop env left k m q)
unfolding deliver_loop
deliver_loop-IsFine env zero k m q v = (buffer-IsValid m q v, λ e. cc)
deliver_loop-IsFine env (suc left) k m q v = elim (select_cases q) [
  | inl (_, e) ↦ rw (e, deliver_loop) (buffer-IsValid m _ (acts-IsValid (env.gap k) q v), λ h. cc)
  | inr (ref, c) ↦
      rw (c.result, deliver_loop)
        (attempt-IsFine env left k m ref (safe_send (env.pick k) ref m (acts (env.gap k) _))
          (safe_send-IsValid (env.pick k) ref m _
            (acts-IsValid (env.gap k) _ (rw c.result at (chosen-IsValid q ref c v))))
          (λ t. deliver_loop-IsFine env left (suc k) m t))
]

-- Whatever other goroutines do between the steps of `deliverMessage`, a valid queue stays valid, and
-- the index of the chosen subscriber is never out of range.
pub deliver_message-IsFine :
    (env : Environment) (m : Message) (q : Queue) → IsValid q → IsFine (deliver_message env m q)
unfolding deliver_message
deliver_message-IsFine env m q v =
    deliver_loop-IsFine env max_retries 0 m _ (acts-IsValid env.start q v)

pub deliver_all-IsValid :
    (envs : ℕ → Environment) (i : ℕ) (ms : List Message) (q : Queue)
    → IsValid q
    → IsValid (deliver_all envs i ms q)
unfolding deliver_all
deliver_all-IsValid envs i [] q v = v
deliver_all-IsValid envs i (m ∷ ms) q v =
    deliver_all-IsValid envs (suc i) ms _ (deliver_message-IsFine (envs i) m q v).0

-- A round of `distribute`, with any interference before and during its deliveries, keeps a valid queue
-- valid.
pub distribute_message-IsValid :
    (envs : ℕ → Environment) (env : Environment) (m : Message) (q : Queue)
    → IsValid q
    → IsValid (distribute_message envs env m q)
unfolding distribute_message
distribute_message-IsValid envs env m q v = elim (Bool-cases (length q.subscribers == 0)) [
  | inl e ↦ rw e (buffer-IsValid m q v)
  | inr e ↦ rw e (elim (Bool-cases (ltb 0 (length q.undelivered))) [
    | inl e' ↦
        rw e'
          (deliver_message-IsFine env m _
            (deliver_all-IsValid envs 0 q.undelivered _ (take_backlog-IsValid q v))).0
    | inr e' ↦ rw e' (deliver_message-IsFine env m q v).0
  ])
]

buffer_all-IsValid : (ms : List Message) (q : Queue) → IsValid q → IsValid (buffer_all ms q)
unfolding buffer_all
buffer_all-IsValid [] q v = v
buffer_all-IsValid (m ∷ ms) q v = buffer_all-IsValid ms _ (buffer-IsValid m q v)

redeliver_all-IsValid :
    (envs : ℕ → Environment) (gap : List Action) (has_subs : Bool) (ms : List Message) (q : Queue)
    → IsValid q
    → IsValid (redeliver_all envs gap has_subs ms q)
unfolding redeliver_all
redeliver_all-IsValid envs gap has_subs [] q v = v
redeliver_all-IsValid envs gap true (m ∷ ms) q v =
    deliver_all-IsValid envs 0 (m ∷ ms) _ (acts-IsValid gap q v)
redeliver_all-IsValid envs gap false (m ∷ ms) q v =
    buffer_all-IsValid (m ∷ ms) _ (acts-IsValid gap q v)

-- A tick of the redelivery loop, with any interference and whatever order the pending messages are
-- visited in, keeps a valid queue valid.
pub redelivery_tick-IsValid :
    (envs : ℕ → Environment) (gap : List Action) (now : Time)
    (visits : List (Text × PendingMessage)) (q : Queue)
    → IsValid q
    → IsValid (redelivery_tick envs gap now visits q)
unfolding redelivery_tick
redelivery_tick-IsValid envs gap now visits q v =
    redeliver_all-IsValid envs gap _ _ _ (expire-IsValid now visits q v)

drain-IsValid :
    (backlog_envs : ℕ → ℕ → Environment) (envs : ℕ → Environment) (gaps : ℕ → List Action)
    (rounds i : ℕ) (q : Queue)
    → IsValid q
    → IsValid (drain backlog_envs envs gaps rounds i q)
unfolding drain
drain-IsValid backlog_envs envs gaps zero i q v =
    drop_subscribers-IsValid _ (acts-IsValid (gaps i) q v)
drain-IsValid backlog_envs envs gaps (suc rounds) i q v =
    go (acts (gaps i) q) (acts-IsValid (gaps i) q v)
      (drain-IsValid backlog_envs envs gaps rounds (suc i))
  where
    go :
        (t : Queue)
        → IsValid t
        → ((u : Queue) → IsValid u → IsValid (drain backlog_envs envs gaps rounds (suc i) u))
        → IsValid (elim t.messages [
          | [] ↦ drop_subscribers t
          | m ∷ rest ↦
              drain backlog_envs envs gaps rounds
                (suc i)
                (distribute_message (backlog_envs i) (envs i) m (record t { messages = rest }))
        ])
    go t w next = by_messages t.messages refl
      where
        by_messages :
            (ms : List Message)
            → t.messages ≡ ms
            → IsValid (elim ms [
              | [] ↦ drop_subscribers t
              | m ∷ rest ↦
                  drain backlog_envs envs gaps rounds
                    (suc i)
                    (distribute_message (backlog_envs i) (envs i) m (record t { messages = rest }))
            ])
        by_messages [] e = drop_subscribers-IsValid t w
        by_messages (m ∷ rest) e = next _ (
            distribute_message-IsValid (backlog_envs i) (envs i) m _
              (shorten-IsValid t rest (omega (arith, ap length e)) w))

-- `Close`, with any interference during it, keeps a valid queue valid.
pub close-IsValid :
    (backlog_envs : ℕ → ℕ → Environment) (envs : ℕ → Environment) (gaps : ℕ → List Action)
    (last : List Action) (q : Queue)
    → IsValid q
    → IsValid (close backlog_envs envs gaps last q)
unfolding close
close-IsValid backlog_envs envs gaps last q v = go q.closed
  where
    go :
        (closed : Bool)
        → IsValid (
            if closed
            then q
            else finish_close
                (acts last (drain backlog_envs envs gaps (length q.messages) 0 (begin_close q))))
    go true = v
    go false =
        finish_close-IsValid _ (
          acts-IsValid last _
            (drain-IsValid backlog_envs envs gaps _ 0 _ (begin_close-IsValid q v)))
