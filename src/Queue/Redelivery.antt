-- ===== src/Queue/Redelivery.antt =====
-- pkg/mq/inmemory.go: `Ack` and the redelivery that follows.
use elastic_gpu_telemetry_pi.Common.{
  ◌≡◌, ◌≢◌, refl, sym, ap, subst, ◌∙◌, inl, inr, true, some, none, List, [], ◌∷◌, map, keep, arith,
  Text, text_eq_iff, text_eq_refl, lookup, has, HasDistinctKeys, Map, All, Result, ok, err, Option,
  Bool-cases, lookup-insert,
}
use elastic_gpu_telemetry_pi.Domain.{Time}
use elastic_gpu_telemetry_pi.Queue.{Queue, PendingMessage, AckError, ack, send_message, receive}
use elastic_gpu_telemetry_pi.Queue.Ledger.{moves_nothing}
use elastic_gpu_telemetry_pi.Queue.Ledger.Frame.{act-Frames}
use elastic_gpu_telemetry_pi.Queue.Schedules.{act-IsValid, acts-IsValid}
use elastic_gpu_telemetry_pi.Queue.Steps.{
  Action, act, acts, sends_message, subscribes, cancels, cleans_up, receives, acks, buffers,
  selects, sends, registers, expires, takes_message, takes_backlog, drops_subscribers, begins_close,
  finishes_close, buffer, safe_send, register, expire, take_message, take_backlog,
}
use elastic_gpu_telemetry_pi.Queue.Invariant.{IsValid}
use elastic_gpu_telemetry_pi.Queue.Acknowledging.{ack-Acknowledges}
use elastic_gpu_telemetry_pi.Queue.Expiry.{expire-Expires, is_due, lookup-expire_loop}

has_of_lookup : {V : Type 0} (j : Text) (w : V) (m : Map V) → lookup j m ≡ some w → has j m ≡ true
unfolding lookup
has_of_lookup j w [] e = cc
has_of_lookup j w ((k, v) ∷ m) e = ground (arith, has_of_lookup j w m)

-- A property of everything that can be looked up holds of all entries.
All_of_lookup :
    {V : Type 0} (P : V → Type 0) (m : Map V)
    → HasDistinctKeys m
    → ((j : Text) (w : V) → lookup j m ≡ some w → P w)
    → All (λ e. P e.1) m
unfolding lookup
All_of_lookup P [] d h = tt
All_of_lookup P ((k, v) ∷ m) (d, ds) h = (
  h k v (rw (text_eq_refl k) refl),
  All_of_lookup P m ds
      (λ j w e. h j w (ground (arith, e, d, has_of_lookup j w m e, text_eq_iff k j))),
)

All-map-keep :
    (now : Time) (q : Queue) (id : Text) (visits : Map PendingMessage)
    → All (λ e. e.1.message.id ≢ id) visits
    → All (λ m. m.id ≢ id) (map (λ v. v.1.message) (keep (λ v. is_due q now v.1) visits))
All-map-keep now q id [] h = tt
All-map-keep now q id (e ∷ visits) (h, hs) = elim (Bool-cases (is_due q now e.1)) [
  | inl d ↦ rw d (h, All-map-keep now q id visits hs)
  | inr d ↦ rw d (All-map-keep now q id visits hs)
]

-- A section that registers no message with the ID.
abbrev pub RegistersOther : Text → Action → Type 0
RegistersOther id (registers ref now m) = m.id ≢ id
RegistersOther id _ = Unit

none_of_implied :
    {V : Type 0} (x y : Option V) → ((v : V) → x ≡ some v → y ≡ some v) → y ≡ none → x ≡ none
none_of_implied none y h e = refl
none_of_implied (some v) y h e = cc (h v refl, e)

-- What moves no message makes nothing pending.
frame_forgets :
    (id : Text) (a : Action) (q : Queue)
    → moves_nothing a ≡ true
    → lookup id q.pending ≡ none
    → lookup id (act a q).pending ≡ none
frame_forgets id a q moves e =
    none_of_implied (lookup id (act a q).pending) (lookup id q.pending)
      ((act-Frames a q moves).pending id) e

act_forgets :
    (id : Text) (a : Action) (q : Queue)
    → RegistersOther id a
    → lookup id q.pending ≡ none
    → lookup id (act a q).pending ≡ none
unfolding act send_message receive buffer safe_send register expire take_message take_backlog
    moves_nothing
act_forgets id (sends_message done pick m) q o e = ground (arith, e)
act_forgets id (subscribes consumer_id) q o e = frame_forgets id (subscribes consumer_id) q refl e
act_forgets id (cancels ref) q o e = frame_forgets id (cancels ref) q refl e
act_forgets id (cleans_up ref) q o e = frame_forgets id (cleans_up ref) q refl e
act_forgets id (receives ref) q o e = ground (arith, e)
act_forgets id (acks i consumer_id) q o e = frame_forgets id (acks i consumer_id) q refl e
act_forgets id (buffers m) q o e = ground (arith, e)
act_forgets id selects q o e = frame_forgets id selects q refl e
act_forgets id (sends pick ref m) q o e = ground (arith, e)
act_forgets id (registers ref now m) q o e = ground (
  arith,
  e,
  o,
  text_eq_iff m.id id,
  lookup-insert m.id id
      (record { message = m; consumer_id = (q.info ref).consumer_id; delivered_at = now })
      q.pending,
)
act_forgets id (expires now visits) q o e =
    ground (arith, e, lookup-expire_loop q now visits q.pending id)
act_forgets id takes_message q o e = ground (arith, e)
act_forgets id takes_backlog q o e = e
act_forgets id drops_subscribers q o e = frame_forgets id drops_subscribers q refl e
act_forgets id begins_close q o e = frame_forgets id begins_close q refl e
act_forgets id finishes_close q o e = frame_forgets id finishes_close q refl e

acts_forget :
    (id : Text) (schedule : List Action) (q : Queue)
    → All (RegistersOther id) schedule
    → lookup id q.pending ≡ none
    → lookup id (acts schedule q).pending ≡ none
unfolding acts
acts_forget id [] q o e = e
acts_forget id (a ∷ rest) q (o, os) e = acts_forget id rest (act a q) os (act_forgets id a q o e)

-- A tick hands on no message with an ID that is not pending.
expire_forgotten :
    (id : Text) (now : Time) (visits : List (Text × PendingMessage)) (t : Queue)
    → IsValid t
    → lookup id t.pending ≡ none
    → HasDistinctKeys visits
    → ((j : Text) → lookup j visits ≡ lookup j t.pending)
    → All (λ m. m.id ≢ id) (expire now visits t).1
expire_forgotten id now visits t v forgotten d each =
    subst (All (λ m. m.id ≢ id)) (sym (expire-Expires t now visits d each).redelivered)
      (All-map-keep now t id visits (All_of_lookup (λ p. p.message.id ≢ id) visits d other))
  where
    other : (j : Text) (p : PendingMessage) → lookup j visits ≡ some p → p.message.id ≢ id
    other j p e same =
        let pending : lookup j t.pending ≡ some p = sym (each j) ∙ e in
        let key : id ≡ j = sym same ∙ v.keyed j p pending in
        absurd (none_some (sym forgotten ∙ ap (λ k. lookup k t.pending) key ∙ pending))
      where
        none_some : {x : PendingMessage} → none ≡ some x → ⊥
        none_some h = cc

-- After an `Ack` of a valid queue that succeeds, and then any interleaving of the sections of all
-- goroutines, earlier ticks of the redelivery loop included, in which no section registers a message
-- with the ID anew: a tick, at any time and in any order of the map's range, hands on no message with
-- the ID.
pub ack_not_redelivered :
    (id consumer_id : Text) (schedule : List Action) (now : Time)
    (visits : List (Text × PendingMessage)) (q t : Queue)
    → IsValid q
    → ack id consumer_id q ≡ ok t
    → All (RegistersOther id) schedule
    → HasDistinctKeys visits
    → ((j : Text) → lookup j visits ≡ lookup j (acts schedule t).pending)
    → All (λ m. m.id ≢ id) (expire now visits (acts schedule t)).1
unfolding act
ack_not_redelivered id consumer_id schedule now visits q t v acked others d each =
    let valid : IsValid t =
      subst IsValid (ap (settle) acked) (act-IsValid (acks id consumer_id) q v) in
    expire_forgotten id now visits (acts schedule t) (acts-IsValid schedule t valid)
      (acts_forget id schedule t others (ack-Acknowledges id consumer_id q t acked).forgotten) d
      each
  where
    settle : Result AckError Queue → Queue
    settle r = elim r [ ok u ↦ u | err e ↦ q ]
