-- ===== src/Queue.antt =====
-- pkg/mq/inmemory.go: the in-memory message queue. This file has the state and the sections that run
-- without interruption: each runs under the queue's lock, or is one channel operation. A schedule is
-- a list of such sections. Queue/Steps.antt has those of the internal goroutines and the schedules,
-- and Queue/Goroutines.antt the goroutines, which are made of several of them.
-- Subscribers are objects at addresses, which are numbers; a channel is its buffered content.
pub mod Steps
pub mod Goroutines
pub mod Invariant
pub mod Pending
pub mod Subscribing
pub mod Schedules
pub mod Sending
pub mod Selecting
pub mod Interference
pub mod Finding
pub mod Flushing
pub mod Publishing
pub mod Acknowledging
pub mod Draining
pub mod Closing
pub mod Racing
pub mod Redelivery
pub mod Expiry
pub mod Ledger
pub mod Streaming
mod Tests
use elastic_gpu_telemetry_pi.Common.{
  ℕ, suc, ◌+◌, ◌*◌, ◌-◌, ◌%◌, Bool, true, false, ◌&&◌, Option, none, some, List, [], ◌∷◌, ◌++◌,
  Text, Map, lookup, insert, remove, text_eq, is_empty, ltb, leb, ◌==◌, length, get_elem?, Result,
  ok, err, if◌then◌else◌,
}
use elastic_gpu_telemetry_pi.Domain.{Time, Message, TelemetryRecord, empty}

pub record PendingMessage : Type 0 where
  pub message : Message
  pub consumer_id : Text
  pub delivered_at : Time

-- `channel` is what the channel buffers, oldest first. `closed` is the atomic flag and `chan_closed`
-- says that the channel is closed. `ctx_done` says that the subscriber's context is cancelled.
pub record SubscriberInfo : Type 0 where
  pub consumer_id : Text
  pub channel : List Message
  pub closed : Bool
  pub chan_closed : Bool
  pub ctx_done : Bool

-- `messages_closed` and `redeliver_closed` say that the two channels of the queue are closed.
pub record Queue : Type 0 where
  pub messages : List Message
  pub messages_closed : Bool
  pub info : ℕ → SubscriberInfo
  pub next_ref : ℕ
  pub subscribers : List ℕ
  pub pending : Map PendingMessage
  pub closed : Bool
  pub buffer_size : ℕ
  pub current : ℕ
  pub undelivered : List Message
  pub max_undelivered : ℕ
  pub ack_timeout : Time
  pub pending_ttl : Time
  pub redeliver_closed : Bool
  pub max_pending : ℕ

abbrev second : Time
second = 1000000000

abbrev pub no_subscriber : SubscriberInfo
no_subscriber = record {
  consumer_id = empty;
  channel = [];
  closed = false;
  chan_closed = false;
  ctx_done = false;
}

-- The queue that `NewInMemoryMessageQueue` makes, with a size that is not positive replaced. A size
-- whose tenfold does not fit 64 bits is far beyond what `make` allows for the channel, so that the
-- product does not wrap around.
unfoldable pub new_queue_of_size : ℕ → Queue
new_queue_of_size size = record {
  messages = [];
  messages_closed = false;
  info = λ r. no_subscriber;
  next_ref = 0;
  subscribers = [];
  pending = [];
  closed = false;
  buffer_size = size;
  current = 0;
  undelivered = [];
  max_undelivered = size;
  ack_timeout = 30 * second;
  pending_ttl = 300 * second;
  redeliver_closed = false;
  max_pending = size * 10;
}

unfoldable pub new_queue : ℕ → Queue
unfolding new_queue_of_size
new_queue buffer_size = new_queue_of_size (if leb buffer_size 0 then 100 else buffer_size)

-- A write to the object at an address.
abbrev pub update : (ℕ → SubscriberInfo) → ℕ → SubscriberInfo → ℕ → SubscriberInfo
update info ref s r = if r == ref then s else info r

-- `Publish`

pub data PublishError : Type 0 where
  nil_message missing_id nil_payload queue_closed context_cancelled queue_full : PublishError

-- A send on a closed channel panics.
pub data PublishOutcome : Type 0 where
  published panicked : PublishOutcome
  failed : PublishError → PublishOutcome

-- What `Publish` tests before it takes the lock.
abbrev payload_given : Option TelemetryRecord → Bool
payload_given none = false
payload_given (some r) = true

unfoldable pub check_message : Option Message → Result PublishError Message
check_message none = err nil_message
check_message (some m) =
    if is_empty m.id
    then err missing_id
    else if payload_given m.payload
    then ok m
    else err nil_payload

-- The select that sends. `done` says that the context is cancelled by now, and `pick` that the select
-- takes that case where the send is ready too.
unfoldable pub send_message : Bool → Bool → Message → Queue → Queue × PublishOutcome
send_message done pick m q =
    if q.messages_closed
    then (if done && pick then (q, failed context_cancelled) else (q, panicked))
    else if ltb (length q.messages) q.buffer_size
    then (if done && pick
        then (q, failed context_cancelled)
        else (record q { messages = q.messages ++ m ∷ [] }, published))
    else if done
    then (q, failed context_cancelled)
    else (q, failed queue_full)

-- `Subscribe`, which hands out the new subscriber's address.
pub data SubscribeError : Type 0 where
  missing_consumer_id queue_closed : SubscribeError

unfoldable pub subscribe : Text → Queue → Result SubscribeError (Queue × ℕ)
subscribe consumer_id q =
    if is_empty consumer_id
    then err missing_consumer_id
    else if q.closed
    then err SubscribeError.queue_closed
    else ok (
      record q {
        info = update q.info q.next_ref (record no_subscriber { consumer_id = consumer_id });
        next_ref = suc q.next_ref;
        subscribers = q.subscribers ++ q.next_ref ∷ [];
      },
      q.next_ref,
    )

-- The subscriber's context is cancelled.
pub cancel : ℕ → Queue → Queue
cancel ref q = record q { info = update q.info ref (record (q.info ref) { ctx_done = true }) }

-- `append(q.subscribers[:i], q.subscribers[i+1:]...)` at the first place of the subscriber.
unfoldable pub remove_ref : ℕ → List ℕ → List ℕ
remove_ref ref [] = []
remove_ref ref (r ∷ rs) = if r == ref then rs else r ∷ remove_ref ref rs

abbrev pub contains_ref : ℕ → List ℕ → Bool
contains_ref ref [] = false
contains_ref ref (r ∷ rs) = if r == ref then true else contains_ref ref rs

-- `closeOnce.Do(close)`.
abbrev pub close_channel : SubscriberInfo → SubscriberInfo
close_channel s = record s { chan_closed = true }

-- What the goroutine of `Subscribe` does when the context is cancelled.
pub clean_up : ℕ → Queue → Queue
unfolding remove_ref
clean_up ref q =
    let left = remove_ref ref q.subscribers in
    record q {
      info = update q.info ref (close_channel (record (q.info ref) { closed = true }));
      subscribers = left;
      current =
          if contains_ref ref q.subscribers
          then (if leb (length left) q.current then 0 else q.current)
          else q.current;
    }

-- A consumer takes the oldest message of its channel.
pub receive : ℕ → Queue → Queue
receive ref q = elim (q.info ref).channel [
  | [] ↦ q
  | m ∷ rest ↦ record q { info = update q.info ref (record (q.info ref) { channel = rest }) }
]

-- `Ack`, with the consumer that holds the message in the error.
pub data AckError : Type 0 where
  delivered_to : Text → AckError

unfoldable pub ack : Text → Text → Queue → Result AckError Queue
ack message_id consumer_id q = elim (lookup message_id q.pending) [
  | none ↦ ok q
  | some p ↦
      if text_eq p.consumer_id consumer_id
      then ok (record q { pending = remove message_id q.pending })
      else err (delivered_to p.consumer_id)
]

-- The getters.
unfoldable pub is_closed : Queue → Bool
is_closed q = q.closed

unfoldable pub get_subscriber_count : Queue → ℕ
get_subscriber_count q = length q.subscribers

unfoldable pub get_pending_message_count : Queue → ℕ
get_pending_message_count q = length q.pending
