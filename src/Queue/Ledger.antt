-- ===== src/Queue/Ledger.antt =====
-- pkg/mq/inmemory.go: the queue with the history of its messages, while all goroutines run at the
-- same time. A move is one uninterrupted section of a goroutine, which handles only messages that a
-- goroutine has: those that it took off the channel, out of the backlog or out of the pending ones,
-- and has not sent or buffered yet.
pub mod Frame
pub mod Counting
pub mod Order
pub mod Origin
pub mod Delivering
pub mod Rounds
mod Tests
use elastic_gpu_telemetry_pi.Common.{
  ℕ, Bool, true, false, Option, none, some, List, [], ◌∷◌, ◌++◌, Text, Map, lookup, remove, length,
  ltb, get_elem?, remove_at, if◌then◌else◌,
}
use elastic_gpu_telemetry_pi.Domain.{Time, Message}
use elastic_gpu_telemetry_pi.Queue.{
  Queue, PendingMessage, PublishOutcome, published, panicked, failed, send_message, receive,
  new_queue,
}
use elastic_gpu_telemetry_pi.Queue.Steps.{
  Action, act, sends_message, subscribes, cancels, cleans_up, receives, acks, buffers, selects,
  sends, registers, expires, takes_message, takes_backlog, drops_subscribers, begins_close,
  finishes_close, buffer, safe_send, register, expire, take_message, take_backlog,
}

-- `hand` has the messages that the distributor and the redelivery loop are working on. `published`
-- lists what `Publish` accepted, `redelivered` what the redelivery loop handed on, `delivered` what
-- was sent to which subscriber's channel, `received` what was taken from it, and `dropped` what found
-- the backlog full.
pub record Ledger : Type 0 where
  pub queue : Queue
  pub hand : List Message
  pub published : List Message
  pub redelivered : List Message
  pub delivered : List (ℕ × Message)
  pub received : List (ℕ × Message)
  pub dropped : List Message

unfoldable pub new_ledger : ℕ → Ledger
new_ledger buffer_size = record {
  queue = new_queue buffer_size;
  hand = [];
  published = [];
  redelivered = [];
  delivered = [];
  received = [];
  dropped = [];
}

-- The sections that move no message.
unfoldable pub moves_nothing : Action → Bool
moves_nothing (subscribes consumer_id) = true
moves_nothing (cancels ref) = true
moves_nothing (cleans_up ref) = true
moves_nothing (acks id consumer_id) = true
moves_nothing selects = true
moves_nothing drops_subscribers = true
moves_nothing begins_close = true
moves_nothing finishes_close = true
moves_nothing (sends_message done pick m) = false
moves_nothing (receives ref) = false
moves_nothing (buffers m) = false
moves_nothing (sends pick ref m) = false
moves_nothing (registers ref now m) = false
moves_nothing (expires now visits) = false
moves_nothing takes_message = false
moves_nothing takes_backlog = false

-- The entries that `range` visits, by their keys: each at most once.
unfoldable pub visits_of : List Text → Map PendingMessage → List (Text × PendingMessage)
visits_of [] pending = []
visits_of (key ∷ keys) pending = elim (lookup key pending) [
  | none ↦ visits_of keys pending
  | some p ↦ (key, p) ∷ visits_of keys (remove key pending)
]

-- A section of `Publish`; of a consumer, that takes a message; of a goroutine that takes messages; and
-- of one that handles a message, which is named by its place in `hand`, or in `delivered`.
pub data Move : Type 0 where
  others : Action → Move
  publishes : Bool → Bool → Message → Move
  consumes : ℕ → Move
  takes flushes : Move
  times_out : Time → List Text → Move
  delivers : Bool → ℕ → ℕ → Move
  keeps : ℕ → Move
  tracks : ℕ → Time → Move

abbrev pub log_published : Message → Ledger → Queue × PublishOutcome → Ledger
log_published m l (q, published) = record l { queue = q; published = l.published ++ m ∷ [] }
log_published m l (q, panicked) = record l { queue = q }
log_published m l (q, failed e) = record l { queue = q }

abbrev pub log_received : ℕ → Ledger → List Message → Ledger
log_received ref l [] = l
log_received ref l (m ∷ rest) = record l {
  queue = receive ref l.queue;
  received = l.received ++ (ref, m) ∷ [];
}

abbrev pub log_taken : Ledger → List Message → Ledger
log_taken l [] = l
log_taken l (m ∷ rest) = record l { queue = take_message l.queue; hand = l.hand ++ m ∷ [] }

abbrev pub log_expired : Ledger → Queue × List Message → Ledger
log_expired l (q, ms) = record l {
  queue = q;
  hand = l.hand ++ ms;
  redelivered = l.redelivered ++ ms;
}

abbrev pub log_delivered : ℕ → ℕ → Message → Ledger → Queue × Bool → Ledger
log_delivered i ref m l (q, true) = record l {
  queue = q;
  hand = remove_at l.hand i;
  delivered = l.delivered ++ (ref, m) ∷ [];
}
log_delivered i ref m l (q, false) = record l { queue = q }

abbrev pub deliver_one : Bool → ℕ → ℕ → Ledger → Option Message → Ledger
deliver_one pick i ref l none = l
deliver_one pick i ref l (some m) = log_delivered i ref m l (safe_send pick ref m l.queue)

abbrev pub keep_one : ℕ → Ledger → Option Message → Ledger
keep_one i l none = l
keep_one i l (some m) = record l {
  queue = buffer m l.queue;
  hand = remove_at l.hand i;
  dropped =
      if ltb (length l.queue.undelivered) l.queue.max_undelivered
      then l.dropped
      else l.dropped ++ m ∷ [];
}

abbrev pub track_one : Time → Ledger → Option (ℕ × Message) → Ledger
track_one now l none = l
track_one now l (some (ref, m)) = record l { queue = register ref now m l.queue }

-- A move that is not possible changes nothing. A message is sent only to a subscriber that was made.
unfoldable pub move : Move → Ledger → Ledger
move (others a) l = if moves_nothing a then record l { queue = act a l.queue } else l
move (publishes done pick m) l = log_published m l (send_message done pick m l.queue)
move (consumes ref) l = log_received ref l (l.queue.info ref).channel
move takes l = log_taken l l.queue.messages
move flushes l = record l { queue = take_backlog l.queue; hand = l.hand ++ l.queue.undelivered }
move (times_out now keys) l = log_expired l (expire now (visits_of keys l.queue.pending) l.queue)
move (delivers pick i ref) l =
    if ltb ref l.queue.next_ref then deliver_one pick i ref l (get_elem? l.hand i) else l
move (keeps i) l = keep_one i l (get_elem? l.hand i)
move (tracks i now) l = track_one now l (get_elem? l.delivered i)

unfoldable pub moves : List Move → Ledger → Ledger
moves [] l = l
moves (a ∷ rest) l = moves rest (move a l)
