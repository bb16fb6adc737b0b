-- ===== src/Queue/Racing.antt =====
-- pkg/mq/inmemory.go: an acknowledgement between the send of a message and its registration.
use elastic_gpu_telemetry_pi.Common.{
  ℕ, ◌+◌, ◌%◌, ◌<◌, ◌≡◌, refl, sym, subst, ◌∙◌, true, false, [], ◌∷◌, none, some, arith, Text,
  length, lookup, lookup-insert_self, ok,
}
use elastic_gpu_telemetry_pi.Domain.{Time, Message}
use elastic_gpu_telemetry_pi.Queue.{Queue, ack}
use elastic_gpu_telemetry_pi.Queue.Steps.{act, acts, acks, push, register}
use elastic_gpu_telemetry_pi.Queue.Goroutines.{
  Environment, delivered, deliver_loop, deliver_message, Delivery,
}
use elastic_gpu_telemetry_pi.Queue.Selecting.{Chooses, chosen_index}
use elastic_gpu_telemetry_pi.Queue.Finding.{Accepts, safe_send-Accepts}
use elastic_gpu_telemetry_pi.Queue.Sending.{attempted}

-- The consumer acknowledges the message right after it was sent to its channel.
abbrev pub early_ack : Message → Text → Time → Environment
early_ack m consumer_id now = record {
  start = [];
  pick = λ k. false;
  gap = λ k. [];
  register_gap = λ k. acks m.id consumer_id ∷ [];
  pause = λ k. [];
  now = now;
}

-- An `Ack` of a message that is not pending reports success and changes nothing.
ack_unknown :
    (id consumer_id : Text) (q : Queue)
    → lookup id q.pending ≡ none
    → acts (acks id consumer_id ∷ []) q ≡ q
unfolding acts act ack
ack_unknown id consumer_id q e = ground arith

lookup-register :
    (ref : ℕ) (now : Time) (m : Message) (q : Queue)
    → length q.pending < q.max_pending
    → lookup m.id (register ref now m q).pending
      ≡ some (record { message = m; consumer_id = (q.info ref).consumer_id; delivered_at = now })
unfolding register
lookup-register ref now m q room = ground (
  arith,
  lookup-insert_self m.id
      (record { message = m; consumer_id = (q.info ref).consumer_id; delivered_at = now })
      q.pending,
)

-- The queue after the send to the chosen subscriber.
abbrev pub sent_to : Queue → ℕ → Message → Queue
sent_to q ref m = push (record q { current = (chosen_index q + 1) % length q.subscribers }) ref m

-- What a delivery ends in.
abbrev EndsPending : Message → Text → Time → Queue × Delivery → Type 0
EndsPending m consumer_id now r =
    (r.1 ≡ delivered)
    × (lookup m.id r.0.pending
        ≡ some (record { message = m; consumer_id = consumer_id; delivered_at = now }))

register-EndsPending :
    (m : Message) (now : Time) (q : Queue) (ref left k : ℕ)
    → lookup m.id q.pending ≡ none
    → length q.pending < q.max_pending
    → EndsPending m
        (q.info ref).consumer_id
        now
        (attempted (early_ack m (q.info ref).consumer_id now) left k m ref (sent_to q ref m, true))
register-EndsPending m now q ref left k fresh room =
    rw (ack_unknown m.id (q.info ref).consumer_id (sent_to q ref m) fresh)
      (refl, lookup-register ref now m (sent_to q ref m) room ∙ ground arith)

-- For every queue whose next subscriber takes the message, with room among the pending messages and no
-- pending message with its ID: if the consumer acknowledges the message between the send and its
-- registration, the `Ack` succeeds and yet the message ends up pending.
pub early_ack_lost :
    (m : Message) (now : Time) (q : Queue) (ref : ℕ)
    → Chooses q ref
    → Accepts q ref
    → lookup m.id q.pending ≡ none
    → length q.pending < q.max_pending
    → let consumer_id = (q.info ref).consumer_id in
      let r = deliver_message (early_ack m consumer_id now) m q in
      (ack m.id consumer_id (sent_to q ref m) ≡ ok (sent_to q ref m))
      × (r.1 ≡ delivered)
      × (lookup m.id r.0.pending
          ≡ some (record { message = m; consumer_id = consumer_id; delivered_at = now }))
unfolding deliver_message deliver_loop ack acts
early_ack_lost m now q ref c a fresh room =
    let consumer_id = (q.info ref).consumer_id in
    let env = early_ack m consumer_id now in
    let moved : Queue = record q { current = (chosen_index q + 1) % length q.subscribers } in
    let accepts : Accepts moved ref = record {
      unflagged = a.unflagged;
      channel_open = a.channel_open;
      not_cancelled = a.not_cancelled;
      room = a.room;
    } in
    let ends : EndsPending m consumer_id now (deliver_loop env 100 0 m q) =
      rw (c.result, deliver_loop)
        (subst (λ r. EndsPending m consumer_id now (attempted env 99 0 m ref r))
          (sym (safe_send-Accepts false ref m moved accepts))
          (register-EndsPending m now q ref 99 0 fresh room)) in
    (ground arith, ends.0, ends.1)
