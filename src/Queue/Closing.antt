-- ===== src/Queue/Closing.antt =====
-- pkg/mq/inmemory.go: `Close` and the distributor that it waits for.
use elastic_gpu_telemetry_pi.Common.{
  ℕ, zero, suc, ◌≤◌, ◌≡◌, refl, ap, inl, inr, Bool, true, false, List, [], ◌∷◌, arith, length,
  Bool-cases, ltb, ◌==◌,
}
use elastic_gpu_telemetry_pi.Domain.{Message}
use elastic_gpu_telemetry_pi.Queue.{Queue}
use elastic_gpu_telemetry_pi.Queue.Steps.{
  Action, acts, safe_send, register, take_backlog, drop_subscribers, begin_close, finish_close,
}
use elastic_gpu_telemetry_pi.Queue.Goroutines.{
  Environment, deliver_loop, deliver_message, deliver_all, distribute_message, drain, close,
  delivered, max_retries, Delivery,
}
use elastic_gpu_telemetry_pi.Queue.Selecting.{select_cases}
use elastic_gpu_telemetry_pi.Queue.Draining.{
  IsDraining, buffer-IsDraining, safe_send-IsDraining, register-IsDraining, acts-IsDraining,
}

abbrev LeavesDraining : ℕ → Queue × Delivery → Type 0
LeavesDraining n r = IsDraining n r.0

attempt-IsDraining :
    (n : ℕ) (env : Environment) (left k : ℕ) (m : Message) (ref : ℕ) (r : Queue × Bool)
    → IsDraining n r.0
    → ((t : Queue) → IsDraining n t → IsDraining n (deliver_loop env left (suc k) m t).0)
    → LeavesDraining n (elim r.1 [
      | true ↦ (register ref env.now m (acts (env.register_gap k) r.0), delivered)
      | false ↦ deliver_loop env left (suc k) m (acts (env.pause k) r.0)
    ])
attempt-IsDraining n env left k m ref (t, true) d rest =
    register-IsDraining n ref env.now m _ (acts-IsDraining n (env.register_gap k) t d)
attempt-IsDraining n env left k m ref (t, false) d rest =
    rest _ (acts-IsDraining n (env.pause k) t d)

deliver_loop-IsDraining :
    (n : ℕ) (env : Environment) (left k : ℕ) (m : Message) (q : Queue)
    → IsDraining n q
    → IsDraining n (deliver_loop env left k m q).0
unfolding deliver_loop
deliver_loop-IsDraining n env zero k m q d = buffer-IsDraining n m q d
deliver_loop-IsDraining n env (suc left) k m q d = elim (select_cases q) [
  | inl (_, e) ↦ rw (e, deliver_loop) (buffer-IsDraining n m _ (acts-IsDraining n (env.gap k) q d))
  | inr (ref, c) ↦
      rw (c.result, deliver_loop)
        (attempt-IsDraining n env left k m ref (safe_send (env.pick k) ref m (acts (env.gap k) _))
          (safe_send-IsDraining n (env.pick k) ref m _ (acts-IsDraining n (env.gap k) _ d))
          (λ t. deliver_loop-IsDraining n env left (suc k) m t))
]

deliver_message-IsDraining :
    (n : ℕ) (env : Environment) (m : Message) (q : Queue)
    → IsDraining n q
    → IsDraining n (deliver_message env m q).0
unfolding deliver_message
deliver_message-IsDraining n env m q d =
    deliver_loop-IsDraining n env max_retries 0 m _ (acts-IsDraining n env.start q d)

deliver_all-IsDraining :
    (n : ℕ) (envs : ℕ → Environment) (i : ℕ) (ms : List Message) (q : Queue)
    → IsDraining n q
    → IsDraining n (deliver_all envs i ms q)
unfolding deliver_all
deliver_all-IsDraining n envs i [] q d = d
deliver_all-IsDraining n envs i (m ∷ ms) q d =
    deliver_all-IsDraining n envs (suc i) ms _ (deliver_message-IsDraining n (envs i) m q d)

distribute_message-IsDraining :
    (n : ℕ) (envs : ℕ → Environment) (env : Environment) (m : Message) (q : Queue)
    → IsDraining n q
    → IsDraining n (distribute_message envs env m q)
unfolding distribute_message take_backlog
distribute_message-IsDraining n envs env m q d = elim (Bool-cases (length q.subscribers == 0)) [
  | inl e ↦ rw e (buffer-IsDraining n m q d)
  | inr e ↦ elim (Bool-cases (ltb 0 (length q.undelivered))) [
    | inl e' ↦
        rw (e, e')
          (deliver_message-IsDraining n env m _
            (deliver_all-IsDraining n envs 0 q.undelivered (record q { undelivered = [] }) d))
    | inr e' ↦ rw (e, e') (deliver_message-IsDraining n env m q d)
  ]
]

drain-IsDraining :
    (backlog_envs : ℕ → ℕ → Environment) (envs : ℕ → Environment) (gaps : ℕ → List Action)
    (rounds i : ℕ) (q : Queue)
    → IsDraining rounds q
    → IsDraining 0 (drain backlog_envs envs gaps rounds i q)
unfolding drain drop_subscribers
drain-IsDraining backlog_envs envs gaps zero i q d = acts-IsDraining 0 (gaps i) q d
drain-IsDraining backlog_envs envs gaps (suc rounds) i q d =
    go (acts (gaps i) q) (acts-IsDraining (suc rounds) (gaps i) q d)
      (drain-IsDraining backlog_envs envs gaps rounds (suc i))
  where
    go :
        (t : Queue)
        → IsDraining (suc rounds) t
        → ((u : Queue)
            → IsDraining rounds u
            → IsDraining 0 (drain backlog_envs envs gaps rounds (suc i) u))
        → IsDraining 0 (elim t.messages [
          | [] ↦ drop_subscribers t
          | m ∷ rest ↦
              drain backlog_envs envs gaps rounds
                (suc i)
                (distribute_message (backlog_envs i) (envs i) m (record t { messages = rest }))
        ])
    go t b next = by_messages t.messages refl
      where
        by_messages :
            (ms : List Message)
            → t.messages ≡ ms
            → IsDraining 0 (elim ms [
              | [] ↦ drop_subscribers t
              | m ∷ rest ↦
                  drain backlog_envs envs gaps rounds
                    (suc i)
                    (distribute_message (backlog_envs i) (envs i) m (record t { messages = rest }))
            ])
        by_messages [] e = (b.0, omega (arith, ap length e))
        by_messages (m ∷ rest) e = next _ (
            distribute_message-IsDraining rounds (backlog_envs i) (envs i) m _
              (b.0, omega (arith, ap length e, b.1)))

empty_of_zero : (ms : List Message) → length ms ≤ 0 → ms ≡ []
empty_of_zero [] h = refl
empty_of_zero (m ∷ ms) h = absurd (omega arith)

-- `Close` of an open queue, whatever other goroutines do during it: the rounds that the distributor is
-- given are enough to empty the closed channel; then no subscriber is listed and nothing is pending.
pub close_empties :
    (backlog_envs : ℕ → ℕ → Environment) (envs : ℕ → Environment) (gaps : ℕ → List Action)
    (last : List Action) (q : Queue)
    → q.closed ≡ false
    → let t : Queue = close backlog_envs envs gaps last q in
      (t.messages ≡ []) × (t.subscribers ≡ []) × (t.pending ≡ [])
unfolding close begin_close finish_close drop_subscribers
close_empties backlog_envs envs gaps last q opened =
    rw (opened, close)
      (
        empty_of_zero _
            (acts-IsDraining 0 last _ (
              drain-IsDraining backlog_envs envs gaps (length q.messages) 0 _
                (refl, ground arith))).1,
        refl,
        refl,
      )
