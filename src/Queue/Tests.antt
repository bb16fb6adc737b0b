-- ===== src/Queue/Tests.antt =====
-- Runs of the queue at concrete inputs.
use elastic_gpu_telemetry_pi.Common.{
  ap, length, arith, All, ℕ, ◌≡◌, ◌≢◌, refl, List, [], ◌∷◌, some, none, true, false, Text, codes,
  lookup, insert, remove, text_eq, length, HasDistinctKeys, ok, arith, ◌<◌,
}
use elastic_gpu_telemetry_pi.Domain.{Message, TelemetryRecord, empty}
use elastic_gpu_telemetry_pi.Queue.{
  Queue, new_queue, ack, published, subscribe, check_message, contains_ref,
}
use elastic_gpu_telemetry_pi.Queue.Steps.{
  Action, act, acts, subscribes, sends, registers, acks, receives, takes_backlog, select, safe_send,
  register, expire,
}
use elastic_gpu_telemetry_pi.Queue.Goroutines.{calm, publish, delivered, deliver_message, close}
use elastic_gpu_telemetry_pi.Queue.Invariant.{IsValid}
use elastic_gpu_telemetry_pi.Queue.Schedules.{acts-new_queue-IsValid}
use elastic_gpu_telemetry_pi.Queue.Closing.{close_empties}
use elastic_gpu_telemetry_pi.Queue.Selecting.{Chooses}
use elastic_gpu_telemetry_pi.Queue.Sending.{Outcome, deliver_message-Outcome}
use elastic_gpu_telemetry_pi.Queue.Finding.{Accepts, deliver_message-finds}
use elastic_gpu_telemetry_pi.Queue.Expiry.{Expires, expire-Expires}
use elastic_gpu_telemetry_pi.Queue.Redelivery.{RegistersOther, ack_not_redelivered}
use elastic_gpu_telemetry_pi.Queue.Racing.{early_ack, sent_to, early_ack_lost}

abbrev reading : TelemetryRecord
reading = record {
  gpu_uuid = codes "GPU-1";
  metric_name = codes "DCGM_FI_DEV_GPU_UTIL";
  value = codes "1";
  ingestion_time = 10;
  container = empty;
  pod = empty;
  namespace = empty;
  hostname = empty;
  model_name = empty;
  gpu_id = empty;
  device = empty;
}

abbrev message : Text → Message
message id = record {
  id = id;
  payload = some reading;
  timestamp = 10;
  producer_id = codes "s";
  acked = false;
  acked_at = none;
  consumer_id = empty;
}

abbrev m1 : Message
m1 = message (codes "m1")

abbrev m2 : Message
m2 = message (codes "m2")

abbrev alice : Text
alice = codes "alice"

abbrev bob : Text
bob = codes "bob"

-- A queue of size 1 with two subscribers, of which the first one's channel is full.
abbrev schedule : List Action
schedule = subscribes alice ∷ subscribes bob ∷ sends false 0 m1 ∷ registers 0 5 m1 ∷ []

abbrev shared : Queue
shared = acts schedule (new_queue 1)

acts-new_queue-IsValid_example : IsValid (acts schedule (new_queue 1))
acts-new_queue-IsValid_example = acts-new_queue-IsValid 1 schedule

-- Between two rounds of the distributor, bob's channel is read and a message is acknowledged.
abbrev gaps : ℕ → List Action
gaps i = receives 1 ∷ acks (codes "m1") alice ∷ []

-- An open queue that still holds two messages.
abbrev waiting : Queue
waiting = record shared { messages = m1 ∷ m2 ∷ []; closed = false; messages_closed = false }

close_empties_example :
    let t : Queue =
      close
        (λ i j. early_ack m1 bob 7)
        (λ i. early_ack m1 alice 7)
        gaps
        (takes_backlog ∷ [])
        waiting in
    (t.messages ≡ []) × (t.subscribers ≡ []) × (t.pending ≡ [])
close_empties_example =
    close_empties (λ i j. early_ack m1 bob 7) (λ i. early_ack m1 alice 7) gaps (takes_backlog ∷ [])
      waiting refl

deliver_message-Outcome_example :
    Outcome 7 m2 shared (deliver_message (calm (λ k. true) 7) m2 shared)
deliver_message-Outcome_example = deliver_message-Outcome (λ k. true) 7 m2 shared

bob-Accepts : Accepts shared 1
unfolding acts act subscribe new_queue safe_send register
bob-Accepts = record {
  unflagged = refl;
  channel_open = refl;
  not_cancelled = refl;
  room = omega arith;
}

bob_listed : contains_ref 1 shared.subscribers ≡ true
unfolding acts act subscribe new_queue safe_send register
bob_listed = refl

few : length shared.subscribers ≡ 2
unfolding acts act subscribe new_queue safe_send register
few = refl

-- The first subscriber's channel is full, so the search goes on to the second one.
deliver_message-finds_example : (deliver_message (calm (λ k. false) 7) m2 shared).1 ≡ delivered
deliver_message-finds_example =
    deliver_message-finds (λ k. false) 7 m2 shared 1 bob-Accepts bob_listed (omega (arith, few))

cancelled_publish : (publish true true true [] (some m2) shared).1 ≢ published
unfolding publish check_message acts act subscribe new_queue safe_send register
cancelled_publish = λ e. cc

ack_m1 : ack (codes "m1") alice shared ≡ ok (record shared { pending = [] })
unfolding acts act subscribe new_queue safe_send register ack lookup insert remove text_eq
ack_m1 = refl

-- Both messages are pending, and the first one is acknowledged.
abbrev two_pending : Queue
two_pending =
    acts (subscribes alice ∷ subscribes bob ∷ registers 0 5 m1 ∷ registers 1 6 m2 ∷ [])
      (new_queue 1)

two_pending-IsValid : IsValid two_pending
two_pending-IsValid =
    acts-new_queue-IsValid 1
      (subscribes alice ∷ subscribes bob ∷ registers 0 5 m1 ∷ registers 1 6 m2 ∷ [])

abbrev carol : Text
carol = codes "carol"

abbrev one_pending : Queue
one_pending = record two_pending {
  pending = (codes "m2", record { message = m2; consumer_id = bob; delivered_at = 6 }) ∷ [];
}

first_acked : ack (codes "m1") alice two_pending ≡ ok one_pending
unfolding acts act subscribe new_queue register ack lookup insert remove text_eq
first_acked = refl

abbrev m22 : Message
m22 = record m2 { id = codes "m22" }

-- Meanwhile a subscriber comes, and another message is registered.
abbrev meanwhile : List Action
meanwhile = subscribes carol ∷ registers 1 7 m22 ∷ []

abbrev later : Queue
later = acts meanwhile one_pending

meanwhile_others : All (RegistersOther (codes "m1")) meanwhile
meanwhile_others = (tt, ((λ e. omega (arith, ap length e)), tt))

later_distinct : HasDistinctKeys later.pending
unfolding acts act subscribe new_queue register insert text_eq
later_distinct = (refl, (refl, tt))

ack_not_redelivered_example :
    All (λ m. m.id ≢ codes "m1") (expire 40000000000 later.pending later).1
ack_not_redelivered_example =
    ack_not_redelivered (codes "m1") alice meanwhile 40000000000 later.pending two_pending
      one_pending two_pending-IsValid first_acked meanwhile_others later_distinct (λ j. refl)

-- The visit of the only pending message.
m1_distinct : HasDistinctKeys shared.pending
unfolding acts act subscribe new_queue safe_send register insert
m1_distinct = (refl, tt)

expire-Expires_example :
    Expires shared 40000000000 shared.pending (expire 40000000000 shared.pending shared)
expire-Expires_example = expire-Expires shared 40000000000 shared.pending m1_distinct (λ id. refl)

-- Only the second subscriber is there, and takes the message.
abbrev lone : Queue
lone = acts (subscribes bob ∷ []) (new_queue 1)

lone-Chooses : Chooses lone 0
unfolding acts act subscribe new_queue select
lone-Chooses = record { at_index = refl; listed = refl; result = refl }

lone-Accepts : Accepts lone 0
unfolding acts act subscribe new_queue
lone-Accepts = record {
  unflagged = refl;
  channel_open = refl;
  not_cancelled = refl;
  room = omega arith;
}

lone_fresh : lookup (codes "m2") lone.pending ≡ none
unfolding acts act subscribe new_queue lookup
lone_fresh = refl

lone_room : length lone.pending < lone.max_pending
unfolding acts act subscribe new_queue
lone_room = omega arith

early_ack_lost_example :
    let r = deliver_message (early_ack m2 (lone.info 0).consumer_id 7) m2 lone in
    (ack (codes "m2") (lone.info 0).consumer_id (sent_to lone 0 m2) ≡ ok (sent_to lone 0 m2))
    × (r.1 ≡ delivered)
    × (lookup (codes "m2") r.0.pending
        ≡ some (record { message = m2; consumer_id = (lone.info 0).consumer_id; delivered_at = 7 }))
early_ack_lost_example = early_ack_lost m2 7 lone 0 lone-Chooses lone-Accepts lone_fresh lone_room
