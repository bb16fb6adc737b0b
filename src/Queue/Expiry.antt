-- ===== src/Queue/Expiry.antt =====
-- pkg/mq/inmemory.go: which messages a tick of `redeliveryLoop` keeps, drops and delivers again.
use elastic_gpu_telemetry_pi.Common.{
  ◌-◌, ◌≡◌, refl, ◌∙◌, inl, inr, Bool, false, not, ◌&&◌, ◌||◌, List, [], ◌∷◌, map, none, some, ◌↔◌,
  Option-cases, arith, Text, text_eq_iff, Map, lookup, remove, lookup-remove, has, HasDistinctKeys,
  keep, ltb, if◌then◌else◌,
}
use elastic_gpu_telemetry_pi.Domain.{Time, Message}
use elastic_gpu_telemetry_pi.Queue.{Queue, PendingMessage}
use elastic_gpu_telemetry_pi.Queue.Steps.{expire, expire_loop}

-- Past the acknowledgement timeout or the time to live; and of these the ones still to be delivered.
abbrev pub is_overdue : Queue → Time → PendingMessage → Bool
is_overdue q now p =
    ltb q.pending_ttl (now - p.delivered_at) || ltb q.ack_timeout (now - p.delivered_at)

abbrev pub is_due : Queue → Time → PendingMessage → Bool
is_due q now p =
    not (ltb q.pending_ttl (now - p.delivered_at)) && ltb q.ack_timeout (now - p.delivered_at)

-- The messages that are handed on, in the order of the visit.
expire_loop-redelivers :
    (q : Queue) (now : Time) (visits : List (Text × PendingMessage)) (pending : Map PendingMessage)
    → (expire_loop q.pending_ttl q.ack_timeout now visits pending).1
      ≡ map (λ v. v.1.message) (keep (λ v. is_due q now v.1) visits)
unfolding expire_loop
expire_loop-redelivers q now [] pending = refl
expire_loop-redelivers q now ((id, p) ∷ visits) pending = ground (
  arith,
  expire_loop-redelivers q now visits pending,
  expire_loop-redelivers q now visits (remove id pending),
)

pub lookup-expire_loop :
    (q : Queue) (now : Time) (visits : List (Text × PendingMessage)) (pending : Map PendingMessage)
    (id : Text)
    → lookup id (expire_loop q.pending_ttl q.ack_timeout now visits pending).0
      ≡ (if has id (keep (λ v. is_overdue q now v.1) visits) then none else lookup id pending)
unfolding expire_loop
lookup-expire_loop q now [] pending id = refl
lookup-expire_loop q now ((k, p) ∷ visits) pending id = ground (
  arith,
  lookup-expire_loop q now visits pending id,
  lookup-expire_loop q now visits (remove k pending) id,
  lookup-remove k id pending,
)

has-keep_of_not :
    (f : PendingMessage → Bool) (id : Text) (visits : List (Text × PendingMessage))
    → has id visits ≡ false
    → has id (keep (λ v. f v.1) visits) ≡ false
has-keep_of_not f id [] h = refl
has-keep_of_not f id ((k, p) ∷ visits) h = ground (arith, has-keep_of_not f id visits)

has-keep :
    (f : PendingMessage → Bool) (id : Text) (p : PendingMessage)
    (visits : List (Text × PendingMessage))
    → HasDistinctKeys visits
    → lookup id visits ≡ some p
    → has id (keep (λ v. f v.1) visits) ≡ f p
unfolding lookup
has-keep f id p [] d h = cc
has-keep f id p ((k, x) ∷ visits) d h =
    ground (arith, has-keep f id p visits d.1, text_eq_iff k id, has-keep_of_not f k visits d.0)

-- One tick at time `now`: a message stays pending exactly if it was and is overdue by neither limit,
-- and the messages that are handed on are those past the acknowledgement timeout but not past the
-- time to live, in the order of the visit.
pub record Expires (q : Queue) (now : Time) (visits : List (Text × PendingMessage))
    (r : Queue × List Message) : Type 0 where
  pub stays :
      (id : Text) (p : PendingMessage)
      → (lookup id r.0.pending ≡ some p)
        ↔ ((lookup id q.pending ≡ some p) × (is_overdue q now p ≡ false))
  pub redelivered : r.1 ≡ map (λ v. v.1.message) (keep (λ v. is_due q now v.1) visits)

-- The locked section of a tick keeps, drops and hands on what `Expires` says, if it visits each
-- pending message once, in whatever order.
pub expire-Expires :
    (q : Queue) (now : Time) (visits : List (Text × PendingMessage))
    → HasDistinctKeys visits
    → ((id : Text) → lookup id visits ≡ lookup id q.pending)
    → Expires q now visits (expire now visits q)
unfolding expire
expire-Expires q now visits d each = record {
  stays = λ id p. (
    λ h. elim (Option-cases (lookup id q.pending)) [
      | inl e ↦ absurd (ground (arith, lookup-expire_loop q now visits q.pending id))
      | inr (x, e) ↦
          let known = has-keep (is_overdue q now) id x visits d (each id ∙ e) in
          ground (arith, lookup-expire_loop q now visits q.pending id, known)
    ],
    λ h.
        let known = has-keep (is_overdue q now) id p visits d (each id ∙ h.0) in
        ground (arith, lookup-expire_loop q now visits q.pending id, known),
  );
  redelivered = expire_loop-redelivers q now visits q.pending;
}
