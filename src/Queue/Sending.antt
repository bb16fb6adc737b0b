-- ===== src/Queue/Sending.antt =====
-- pkg/mq/inmemory.go: what `deliverMessage` does where no other goroutine interferes.
use elastic_gpu_telemetry_pi.Common.{
  ℕ, zero, suc, ◌<◌, ◌≡◌, refl, sym, subst, ◌∙◌, ◌⊎◌, inl, inr, Bool, true, false, [], ◌∷◌, ◌++◌,
  some, arith, length, ltb, ◌==◌, Bool-cases, if◌then◌else◌, lookup, lookup-insert_self,
}
use elastic_gpu_telemetry_pi.Domain.{Time, Message}
use elastic_gpu_telemetry_pi.Queue.{Queue, contains_ref}
use elastic_gpu_telemetry_pi.Queue.Steps.{acts, buffer, push, safe_send, register}
use elastic_gpu_telemetry_pi.Queue.Goroutines.{
  Environment, calm, Delivery, delivered, not_delivered, deliver_loop, deliver_message, max_retries,
}
use elastic_gpu_telemetry_pi.Queue.Invariant.{safe_send_cases}
use elastic_gpu_telemetry_pi.Queue.Selecting.{select_cases}

-- Message `m` went to the subscriber at `ref`, and to no other: it is the newest of its channel and,
-- where the pending messages have room, it is pending for the subscriber's consumer.
pub record Delivers (now : Time) (m : Message) (q : Queue) (ref : ℕ) (t : Queue) : Type 0 where
  pub listed : contains_ref ref q.subscribers ≡ true
  pub room : length (q.info ref).channel < q.buffer_size
  pub channels :
      (r : ℕ)
      → (t.info r).channel
        ≡ (if r == ref then (q.info ref).channel ++ m ∷ [] else (q.info r).channel)
  pub tracked :
      length q.pending < q.max_pending
      → lookup m.id t.pending
        ≡ some (record { message = m; consumer_id = (q.info ref).consumer_id; delivered_at = now })
  pub same_subscribers : t.subscribers ≡ q.subscribers
  pub same_backlog : t.undelivered ≡ q.undelivered
  pub same_messages : t.messages ≡ q.messages

-- Message `m` went to no channel: it is the newest of the backlog, or is lost as that is full.
pub record Keeps (m : Message) (q t : Queue) : Type 0 where
  pub channels : (r : ℕ) → (t.info r).channel ≡ (q.info r).channel
  pub backlog : t.undelivered ≡ (
      if ltb (length q.undelivered) q.max_undelivered
      then q.undelivered ++ m ∷ []
      else q.undelivered)
  pub same_pending : t.pending ≡ q.pending
  pub same_subscribers : t.subscribers ≡ q.subscribers

abbrev pub Outcome : Time → Message → Queue → Queue × Delivery → Type 0
Outcome now m q r =
    ((r.1 ≡ delivered) × ((ref : ℕ) × Delivers now m q ref r.0))
    ⊎ ((r.1 ≡ not_delivered) × Keeps m q r.0)

-- The queue after failed attempts: only the round-robin index has moved.
abbrev pub at_index : Queue → ℕ → Queue
at_index q i = record q { current = i }

buffer-Keeps : (m : Message) (q : Queue) (i : ℕ) → Keeps m q (buffer m (at_index q i))
unfolding buffer
buffer-Keeps m q i = elim (Bool-cases (ltb (length q.undelivered) q.max_undelivered)) [
  | inl e ↦ rw e (record {
    channels = λ r. refl;
    backlog = rw e;
    same_pending = refl;
    same_subscribers = refl;
  })
  | inr e ↦ rw e (record {
    channels = λ r. refl;
    backlog = rw e;
    same_pending = refl;
    same_subscribers = refl;
  })
]

register-Delivers :
    (now : Time) (m : Message) (q : Queue) (ref i : ℕ)
    → contains_ref ref q.subscribers ≡ true
    → length (q.info ref).channel < q.buffer_size
    → Delivers now m q ref (register ref now m (push (at_index q i) ref m))
unfolding register
register-Delivers now m q ref i listed room =
    elim (Bool-cases (ltb (length q.pending) q.max_pending)) [
      | inl e ↦ rw e (record {
        listed = listed;
        room = room;
        channels = λ r. ground arith;
        tracked = λ h. lookup-insert_self m.id _ q.pending ∙ ground arith;
        same_subscribers = refl;
        same_backlog = refl;
        same_messages = refl;
      })
      | inr e ↦ rw e (record {
        listed = listed;
        room = room;
        channels = λ r. ground arith;
        tracked = λ h. absurd (ground arith);
        same_subscribers = refl;
        same_backlog = refl;
        same_messages = refl;
      })
    ]

-- What the loop does with the result of a send.
abbrev pub attempted : Environment → ℕ → ℕ → Message → ℕ → Queue × Bool → Queue × Delivery
attempted env left k m ref r = elim r.1 [
  | true ↦ (register ref env.now m (acts (env.register_gap k) r.0), delivered)
  | false ↦ deliver_loop env left (suc k) m (acts (env.pause k) r.0)
]

attempt-Outcome :
    (pick : ℕ → Bool) (now : Time) (left k : ℕ) (m : Message) (q : Queue) (ref i : ℕ)
    → contains_ref ref q.subscribers ≡ true
    → Outcome now m q (deliver_loop (calm pick now) left (suc k) m (at_index q i))
    → Outcome now m q
        (attempted (calm pick now) left k m ref (safe_send (pick k) ref m (at_index q i)))
unfolding acts
attempt-Outcome pick now left k m q ref i listed rest =
    elim (safe_send_cases (pick k) ref m (at_index q i)) [
      | inl e ↦ subst (λ r. Outcome now m q (attempted (calm pick now) left k m ref r)) (sym e) rest
      | inr (_, _, room, e) ↦
          subst (λ r. Outcome now m q (attempted (calm pick now) left k m ref r)) (sym e)
            (inl (refl, (ref, register-Delivers now m q ref i listed room)))
    ]

deliver_loop-Outcome :
    (pick : ℕ → Bool) (now : Time) (left k : ℕ) (m : Message) (q : Queue) (i : ℕ)
    → Outcome now m q (deliver_loop (calm pick now) left k m (at_index q i))
unfolding deliver_loop acts
deliver_loop-Outcome pick now zero k m q i = inr (refl, buffer-Keeps m q i)
deliver_loop-Outcome pick now (suc left) k m q i = elim (select_cases (at_index q i)) [
  | inl (_, e) ↦ rw (e, deliver_loop) (inr (refl, buffer-Keeps m q i))
  | inr (ref, c) ↦
      rw (c.result, deliver_loop)
        (attempt-Outcome pick now left k m q ref _ c.listed
          (deliver_loop-Outcome pick now left (suc k) m q _))
]

-- Where no other goroutine interferes, `deliverMessage` gives the message to exactly one listed
-- subscriber, with room in its channel, as the newest of that channel, and tracks it as pending if
-- the pending messages have room; or it gives it to none and appends it to the backlog, or loses it
-- if the backlog is full. All other channels stay as they were.
pub deliver_message-Outcome :
    (pick : ℕ → Bool) (now : Time) (m : Message) (q : Queue)
    → Outcome now m q (deliver_message (calm pick now) m q)
unfolding deliver_message acts
deliver_message-Outcome pick now m q = deliver_loop-Outcome pick now max_retries 0 m q q.current
