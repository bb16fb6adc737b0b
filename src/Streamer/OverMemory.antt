-- ===== src/Streamer/OverMemory.antt =====
-- internal/streamer/streamer.go and pkg/mq/inmemory.go: the streamer over the in-memory queue. While the
-- streamer waits, the distributor takes one message.
use mathlib.Core.List.{append_assoc}
use elastic_gpu_telemetry_pi.Common.{
  ℕ, suc, ◌+◌, ◌<◌, ◌≤◌, ◌≡◌, ◌≢◌, refl, sym, ap, ◌∙◌, inl, inr, Bool, true, false, some, List, [],
  ◌∷◌, ◌++◌, arith, Text, ltb, length, length-append, if◌then◌else◌,
}
use elastic_gpu_telemetry_pi.Domain.{Time, Message, empty}
use elastic_gpu_telemetry_pi.Queue.{
  Queue, PublishError, PublishOutcome, queue_full, failed, published, panicked,
}
use elastic_gpu_telemetry_pi.Queue.Steps.{take_message}
use elastic_gpu_telemetry_pi.Queue.Goroutines.{publish}
use elastic_gpu_telemetry_pi.Queue.Invariant.{IsValid}
use elastic_gpu_telemetry_pi.Queue.Schedules.{take_message-IsValid}
use elastic_gpu_telemetry_pi.Queue.Publishing.{publish-Enqueues}
use elastic_gpu_telemetry_pi.Streamer.{Publication, accepted, panics, refused, Outside}
use elastic_gpu_telemetry_pi.Streamer.Backpressure.{IsRelieved}

-- The queue, what the distributor has taken, and the clock.
pub record World : Type 0 where
  pub queue : Queue
  pub taken : List Message
  pub time : Time

abbrev publication : PublishOutcome → Publication PublishError
publication published = accepted
publication panicked = panics
publication (failed e) = refused e

abbrev is_full_error : PublishError → Bool
is_full_error queue_full = true
is_full_error _ = false

abbrev first : List Message → List Message
first [] = []
first (m ∷ ms) = m ∷ []

-- The identifiers come from the clock's time; `pick` is the choice of the select in `Publish`.
unfoldable pub memory_outside : Bool → (Time → Text) → Outside World PublishError
memory_outside pick id_at = record {
  publishes = λ m w.
      let r = publish false false pick [] (some m) w.queue in
      (record w { queue = r.0 }, publication r.1);
  is_queue_full = is_full_error;
  is_done = λ w. false;
  waits = λ d w. (
    record {
      queue = take_message w.queue;
      taken = w.taken ++ first w.queue.messages;
      time = w.time + d;
    },
    false,
  );
  ingestion_now = λ w. w.time;
  message_now = λ w. w.time;
  new_id = λ w. id_at w.time;
}

pub record IsServing (w : World) : Type 0 where
  pub valid : IsValid w.queue
  pub opened : w.queue.closed ≡ false
  pub sized : 0 < w.queue.buffer_size
  pub clocked : 0 < w.time

-- All messages that the queue has accepted, the ones taken first.
abbrev pub log : World → List Message
log w = w.taken ++ w.queue.messages

abbrev pub load : World → ℕ
load w = if ltb (length w.queue.messages) w.queue.buffer_size then 0 else 1

take_message-log :
    (taken : List Message) (q : Queue)
    → (taken ++ first q.messages) ++ (take_message q).messages ≡ taken ++ q.messages
unfolding take_message
take_message-log taken q = go q.messages refl
  where
    go :
        (ms : List Message)
        → q.messages ≡ ms
        → (taken ++ first q.messages) ++ (take_message q).messages ≡ taken ++ q.messages
    go [] e = rw e (append_assoc taken [] [])
    go (m ∷ ms) e = rw e (append_assoc taken (m ∷ []) ms)

take_message_keeps :
    (q : Queue)
    → ((take_message q).closed ≡ q.closed) × ((take_message q).buffer_size ≡ q.buffer_size)
unfolding take_message
take_message_keeps q = ground arith

length-take_message :
    (q : Queue) → 0 < length q.messages → suc (length (take_message q).messages) ≡ length q.messages
unfolding take_message
length-take_message q h = ground arith

appended-IsValid :
    (m : Message) (q : Queue)
    → length q.messages < q.buffer_size
    → IsValid q
    → IsValid (record q { messages = q.messages ++ m ∷ [] })
appended-IsValid m q h v = ground (arith, length-append q.messages (m ∷ []))

load_falls :
    (w : World)
    → IsServing w
    → w.queue.buffer_size ≤ length w.queue.messages
    → (if ltb (length (take_message w.queue).messages) (take_message w.queue).buffer_size
        then 0
        else 1)
      < load w
load_falls w g full =
    let k = take_message_keeps w.queue in
    let l = length-take_message w.queue (omega (arith, g.sized)) in
    let b = g.valid.messages_bounded in ground (arith, full, k.1, l, b)

-- A valid open in-memory queue meets what the streamer's loop relies on, whatever the identifiers, if
-- these are not empty: it refuses a message only while it is full, and then at most once, since a wait
-- takes a message.
pub memory_outside-IsRelieved :
    (pick : Bool) (id_at : Time → Text)
    → ((t : Time) → id_at t ≢ empty)
    → IsRelieved (memory_outside pick id_at) IsServing log load 1
unfolding memory_outside
memory_outside-IsRelieved pick id_at ids = record {
  bounded = λ w g. ground arith;
  goes_on = λ w g. refl;
  identified = λ w g. ids w.time;
  clocked = λ w g e. absurd (omega (arith, g.clocked, e));
  waits_well = λ d w g. (
    _,
    refl,
    record {
      valid = take_message-IsValid w.queue g.valid;
      opened = (take_message_keeps w.queue).0 ∙ g.opened;
      sized = omega (arith, g.sized, (take_message_keeps w.queue).1);
      clocked = omega (arith, g.clocked);
    },
    take_message-log w.taken w.queue,
  );
  publishes_well = λ m w g i p.
      elim (publish-Enqueues pick m w.queue g.valid g.opened
        (record { has_id = i; has_payload = p })) [
          | inl (room, e) ↦ inl (
            record w { queue = record w.queue { messages = w.queue.messages ++ m ∷ [] } },
            ap (λ r. (record w { queue = r.0 }, publication r.1)) e,
            record {
              valid = appended-IsValid m w.queue room g.valid;
              opened = g.opened;
              sized = g.sized;
              clocked = g.clocked;
            },
            sym (append_assoc w.taken w.queue.messages (m ∷ [])),
          )
          | inr (full, e) ↦ inr (
            w,
            queue_full,
            ap (λ r. (record w { queue = r.0 }, publication r.1)) e,
            refl,
            g,
            refl,
            load_falls w g full,
          )
        ];
}
