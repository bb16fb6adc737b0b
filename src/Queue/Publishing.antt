-- ===== src/Queue/Publishing.antt =====
-- pkg/mq/inmemory.go: what `Publish` promises, and when it panics.
use elastic_gpu_telemetry_pi.Common.{
  ◌<◌, ◌≤◌, ◌≡◌, ◌≢◌, refl, ◌⊎◌, Bool, true, false, List, [], ◌∷◌, ◌++◌, Option, none, some, arith,
  length, Result, ok, err, if◌then◌else◌,
}
use elastic_gpu_telemetry_pi.Domain.{Message, empty}
use elastic_gpu_telemetry_pi.Queue.{
  Queue, check_message, send_message, PublishError, PublishOutcome, published, panicked, failed,
  queue_closed, context_cancelled, queue_full,
}
use elastic_gpu_telemetry_pi.Queue.Steps.{Action, acts, act, begin_close, begins_close}
use elastic_gpu_telemetry_pi.Queue.Goroutines.{publish}
use elastic_gpu_telemetry_pi.Queue.Invariant.{IsValid}

-- The messages that `Publish` lets through.
pub record IsWellFormed (m : Message) : Type 0 where
  pub has_id : m.id ≢ empty
  pub has_payload : m.payload ≢ none

check_message_of_IsWellFormed : (m : Message) → IsWellFormed m → check_message (some m) ≡ ok m
unfolding check_message
check_message_of_IsWellFormed m w = ground arith

-- What a publisher sees: the message is the newest of the channel, or the channel was full and
-- nothing changed.
abbrev pub Enqueues : Message → Queue → Queue × PublishOutcome → Type 0
Enqueues m q r =
    ((length q.messages < q.buffer_size)
      × (r ≡ (record q { messages = q.messages ++ m ∷ [] }, published)))
    ⊎ ((q.buffer_size ≤ length q.messages) × (r ≡ (q, failed queue_full)))

-- On a valid open queue, with a context that is not cancelled and no other goroutine in between,
-- `Publish` appends a message that has an ID and a payload to the channel if this has room, and
-- otherwise reports a full queue and changes nothing.
pub publish-Enqueues :
    (pick : Bool) (m : Message) (q : Queue)
    → IsValid q
    → q.closed ≡ false
    → IsWellFormed m
    → Enqueues m q (publish false false pick [] (some m) q)
unfolding publish send_message acts
publish-Enqueues pick m q v opened w =
    let closing : q.messages_closed ≡ false = ground (arith, v.closing) in
    ground (arith, check_message_of_IsWellFormed m w)

-- Without interference a `Publish` that does not succeed leaves the queue as it was, whatever the
-- message, the context and the select's choice.
pub publish_unchanged :
    (done done' pick : Bool) (msg : Option Message) (q : Queue)
    → (publish done done' pick [] msg q).1 ≢ published
    → (publish done done' pick [] msg q).0 ≡ q
unfolding publish send_message acts
publish_unchanged done done' pick msg q = go (check_message msg)
  where
    go :
        (r : Result PublishError Message)
        → let t : Queue × PublishOutcome = elim r [
          | err e ↦ (q, failed e)
          | ok m ↦
              if q.closed
              then (q, failed queue_closed)
              else if done
              then (q, failed context_cancelled)
              else send_message done' pick m q
        ] in
          t.1 ≢ published → t.0 ≡ q
    go (err e) h = refl
    go (ok m) h = ground arith

-- `Close` between the test of the closed flag and the send makes `Publish` panic, for every queue
-- that was open and every message that passes the tests, unless its context is cancelled meanwhile.
pub publish_panics :
    (pick : Bool) (m : Message) (q : Queue)
    → q.closed ≡ false
    → IsWellFormed m
    → (publish false false pick (begins_close ∷ []) (some m) q).1 ≡ panicked
unfolding publish send_message acts act begin_close
publish_panics pick m q opened w = ground (arith, check_message_of_IsWellFormed m w)

-- Only that makes it panic: the channel was closed after the test.
pub closed_of_publish_panics :
    (done done' pick : Bool) (gap : List Action) (msg : Option Message) (q : Queue)
    → (publish done done' pick gap msg q).1 ≡ panicked
    → (q.closed ≡ false) × ((acts gap q).messages_closed ≡ true)
unfolding publish send_message check_message
closed_of_publish_panics done done' pick gap msg q h = ground arith

-- Without interference a `Publish` that succeeds has appended the message.
pub publish_appends :
    (done done' pick : Bool) (m : Message) (q : Queue)
    → (publish done done' pick [] (some m) q).1 ≡ published
    → (publish done done' pick [] (some m) q).0 ≡ record q { messages = q.messages ++ m ∷ [] }
unfolding publish send_message acts check_message
publish_appends done done' pick m q h = ground arith
