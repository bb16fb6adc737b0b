-- ===== src/Queue/Pending.antt =====
-- pkg/mq/inmemory.go: the invariant and the sections that change the pending messages.
use elastic_gpu_telemetry_pi.Common.{
  ℕ, ◌≤◌, ◌≡◌, inl, inr, some, List, [], ◌∷◌, arith, Text, text_eq, text_eq_iff, Map, lookup,
  remove, lookup-insert, lookup-remove, length-insert-le, length-remove-le, ltb, length, Bool-cases,
  Option-cases,
}
use elastic_gpu_telemetry_pi.Domain.{Time, Message}
use elastic_gpu_telemetry_pi.Queue.{Queue, PendingMessage, ack}
use elastic_gpu_telemetry_pi.Queue.Steps.{act, register, expire, expire_loop, acks}
use elastic_gpu_telemetry_pi.Queue.Invariant.{IsValid}

pub register-IsValid :
    (ref : ℕ) (now : Time) (m : Message) (q : Queue) → IsValid q → IsValid (register ref now m q)
unfolding register
register-IsValid ref now m q v = elim (Bool-cases (ltb (length q.pending) q.max_pending)) [
  | inl e ↦ rw e (record {
    messages_bounded = v.messages_bounded;
    backlog_bounded = v.backlog_bounded;
    pending_bounded = ground (arith, length-insert-le m.id p q.pending);
    keyed = λ id p'.
        λ h. ground (arith, lookup-insert m.id id p q.pending, text_eq_iff m.id id, v.keyed id p');
    sound = v.sound;
    distinct = v.distinct;
    listed = λ r h. record {
      made = (v.listed r h).made;
      unflagged = (v.listed r h).unflagged;
      channel_open = (v.listed r h).channel_open;
    };
    closing = v.closing;
  })
  | inr e ↦ rw e v
]
  where
    p : PendingMessage
    p = record { message = m; consumer_id = (q.info ref).consumer_id; delivered_at = now }

-- A queue with fewer pending messages.
pub forget-IsValid :
    (q : Queue) (pending : Map PendingMessage)
    → IsValid q
    → length pending ≤ length q.pending
    → ((id : Text) (p : PendingMessage) → lookup id pending ≡ some p → lookup id q.pending ≡ some p)
    → IsValid (record q { pending = pending })
forget-IsValid q pending v fewer part = record {
  messages_bounded = v.messages_bounded;
  backlog_bounded = v.backlog_bounded;
  pending_bounded = omega (arith, v.pending_bounded);
  keyed = λ id p h. v.keyed id p (part id p h);
  sound = v.sound;
  distinct = v.distinct;
  listed = λ r h. record {
    made = (v.listed r h).made;
    unflagged = (v.listed r h).unflagged;
    channel_open = (v.listed r h).channel_open;
  };
  closing = v.closing;
}

pub ack-IsValid :
    (id consumer_id : Text) (q : Queue) → IsValid q → IsValid (act (acks id consumer_id) q)
unfolding act ack
ack-IsValid id consumer_id q v = elim (Option-cases (lookup id q.pending)) [
  | inl e ↦ rw (e, ack, act) v
  | inr (p, e) ↦
      rw (e, ack, act)
        (elim (Bool-cases (text_eq p.consumer_id consumer_id)) [
          | inl same ↦ rw same (
              forget-IsValid q _ v (length-remove-le id q.pending)
                λ j p' h. ground (arith, lookup-remove id j q.pending))
          | inr other ↦ rw other v
        ])
]

expire_loop_shrinks :
    (ttl timeout now : Time) (visits : List (Text × PendingMessage)) (pending : Map PendingMessage)
    → (length (expire_loop ttl timeout now visits pending).0 ≤ length pending)
      × ((id : Text) (p : PendingMessage)
          → lookup id (expire_loop ttl timeout now visits pending).0 ≡ some p
          → lookup id pending ≡ some p)
unfolding expire_loop
expire_loop_shrinks ttl timeout now [] pending = (omega arith, λ id p h. h)
expire_loop_shrinks ttl timeout now ((k, x) ∷ visits) pending =
    let gone = expire_loop_shrinks ttl timeout now visits (remove k pending) in
    let kept = expire_loop_shrinks ttl timeout now visits pending in
    (
      ground (arith, gone.0, kept.0, length-remove-le k pending),
      λ id p h. ground (arith, gone.1 id p, kept.1 id p, lookup-remove k id pending),
    )

pub expire-IsValid :
    (now : Time) (visits : List (Text × PendingMessage)) (q : Queue)
    → IsValid q
    → IsValid (expire now visits q).0
unfolding expire
expire-IsValid now visits q v =
    let part = expire_loop_shrinks q.pending_ttl q.ack_timeout now visits q.pending in
    forget-IsValid q _ v part.0 part.1
