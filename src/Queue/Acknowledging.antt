-- ===== src/Queue/Acknowledging.antt =====
-- pkg/mq/inmemory.go: what `Ack` promises.
use elastic_gpu_telemetry_pi.Common.{
  ◌≡◌, ◌≢◌, ◌↔◌, refl, inl, inr, none, some, arith, Text, text_eq_iff, lookup, remove,
  lookup-remove, ok, err, Option-cases,
}
use elastic_gpu_telemetry_pi.Queue.{Queue, PendingMessage, ack, delivered_to}

-- The message is not pending, and every other message is pending as it was; nothing else of the queue
-- has changed.
pub record Acknowledges (id : Text) (q t : Queue) : Type 0 where
  pub forgotten : lookup id t.pending ≡ none
  pub others : (j : Text) → id ≢ j → lookup j t.pending ≡ lookup j q.pending
  pub rest : record t { pending = q.pending } ≡ q

-- After an `Ack` that succeeds the message is not pending, every other message is pending as it was,
-- and nothing else of the queue has changed.
pub ack-Acknowledges :
    (id consumer_id : Text) (q t : Queue) → ack id consumer_id q ≡ ok t → Acknowledges id q t
unfolding ack
ack-Acknowledges id consumer_id q t e = elim (Option-cases (lookup id q.pending)) [
  | inl h ↦
      let same : q ≡ t = ground arith in
      rw (← same) (record { forgotten = h; others = λ j n. refl; rest = refl })
  | inr (p, h) ↦
      let same : record q { pending = remove id q.pending } ≡ t = ground arith in
      rw (← same) (record {
        forgotten = ground (arith, lookup-remove id id q.pending, text_eq_iff id id);
        others = λ j n. ground (arith, lookup-remove id j q.pending, text_eq_iff id j);
        rest = refl;
      })
]

-- `Ack` fails exactly if the message is pending for another consumer, which the error names.
pub ack-err_iff :
    (id consumer_id holder : Text) (q : Queue)
    → (ack id consumer_id q ≡ err (delivered_to holder)) ↔ (
        (holder ≢ consumer_id)
        × ((p : PendingMessage) × (lookup id q.pending ≡ some p) × (p.consumer_id ≡ holder)))
unfolding ack
ack-err_iff id consumer_id holder q = elim (Option-cases (lookup id q.pending)) [
  | inl h ↦ (λ e. absurd (ground arith), λ r. absurd (ground (arith, r.1.1)))
  | inr (p, h) ↦ (
    λ e. (ground (arith, text_eq_iff p.consumer_id consumer_id), (p, h, ground arith)),
    λ r. ground (arith, r.1.1, r.1.2, r.0, text_eq_iff p.consumer_id consumer_id),
  )
]
