-- ===== src/Pipeline/EndToEnd.antt =====
-- internal/streamer/streamer.go, internal/collector/collector.go and pkg/storage/memory/store.go: a pass
-- of the streamer, its messages in the collector's loop, and a query of the store.
use mathlib.Core.List.{Perm}
use elastic_gpu_telemetry_pi.Common.{
  ℕ, suc, ◌+◌, ◌<◌, ◌≤◌, ◌≡◌, ◌≢◌, refl, ap, subst, some, List, [], ◌++◌, map, keep, arith, Text,
  length, All, ok, true,
}
use elastic_gpu_telemetry_pi.Common.Sorting.{SortSlice, IsSorted}
use elastic_gpu_telemetry_pi.Domain.{TelemetryRecord, TelemetryQuery, Message, matches, empty}
use elastic_gpu_telemetry_pi.Config.{StreamerConfig}
use elastic_gpu_telemetry_pi.Memory.{Store, time_less, copy_record, get_telemetry_by_gpu}
use elastic_gpu_telemetry_pi.Memory.Invariant.{IsConsistent}
use elastic_gpu_telemetry_pi.Memory.Queries.{get_telemetry_by_gpu-Answers}
use elastic_gpu_telemetry_pi.Storage.{Acknowledger, memory_repository}
use elastic_gpu_telemetry_pi.Collector.{Collector, Setting}
use elastic_gpu_telemetry_pi.Collector.Loop.{Event, arrived, process_messages}
use elastic_gpu_telemetry_pi.Collector.Batching.{stops}
use elastic_gpu_telemetry_pi.Streamer.{Outside, stream_records}
use elastic_gpu_telemetry_pi.Streamer.Backpressure.{
  Carries, none_left, one_more, IsRelieved, stream_records-Streams,
}
use elastic_gpu_telemetry_pi.Pipeline.{payloads, IsComplete}
use elastic_gpu_telemetry_pi.Pipeline.Batches.{Carries-IsSendable, process_messages-Handles}

length-Carries :
    {config : StreamerConfig} {rs : List TelemetryRecord} {ms : List Message}
    → Carries config rs ms
    → length ms ≡ length rs
length-Carries none_left = refl
length-Carries (one_more c h) = ap suc (length-Carries h)

-- What the collector's select takes, where it receives the messages, in order and no others, until it is
-- stopped; ticks may come between.
pub record IsDelivering (events : List Message → List Event) : Type 0 where
  pub all_arrive : (ms : List Message) → arrived (events ms) ≡ map some ms
  pub stopped : (ms : List Message) → stops (events ms) ≡ true

module _ (slice : SortSlice) (keys : Store → List Text) {Q F : Type 0} (queue : Acknowledger Q F)
    (setting : Setting) (config : StreamerConfig) (events : List Message → List Event) where
  -- What the collector's loop makes of the messages, and what a query of the store then answers.
  pub record IsAnswered (q : TelemetryQuery) (ms : List Message) (c : Collector Store Q)
      : Type 0 where
    pub after : Collector Store Q
    pub run :
        process_messages (memory_repository slice keys) queue setting (events ms) [] c
        ≡ ok (after, [])
    pub processed : after.processed_count ≡ c.processed_count + length ms
    pub errors : after.error_count ≡ c.error_count
    pub answer : List TelemetryRecord
    pub answered :
        get_telemetry_by_gpu slice q.gpu_uuid q.start_time q.end_time after.repository ≡ ok answer
    pub same :
        Perm answer (map copy_record (keep (matches q) (c.repository.telemetry ++ payloads ms)))
    pub sorted : IsSorted time_less answer

  loop-IsAnswered :
      (q : TelemetryQuery) {rs : List TelemetryRecord} {ms : List Message} (c : Collector Store Q)
      → IsDelivering events
      → 0 < setting.batch_size
      → Carries config rs ms
      → All IsComplete rs
      → IsConsistent c.repository
      → length c.repository.telemetry + length rs ≤ c.repository.max_records
      → q.gpu_uuid ≢ empty
      → IsAnswered q ms c
  loop-IsAnswered q {ms = ms} c delivering size carries h v room named =
      let (t, run, done) =
        process_messages-Handles slice keys queue setting config (events ms) ms c size
          (delivering.all_arrive ms) (delivering.stopped ms)
          (Carries-IsSendable slice keys queue setting config carries h)
          (v, omega (arith, room, length-Carries carries)) in
      let (answer, answered, a) =
        get_telemetry_by_gpu-Answers slice q t.repository done.consistent named in
      record {
        after = t;
        run = run;
        processed = done.processed;
        errors = done.errors;
        answer = answer;
        answered = answered;
        same = subst (λ l. Perm answer (map copy_record (keep (matches q) l))) done.contents a.same;
        sorted = a.sorted;
      }

  -- From the records of the streamer to the answer of the store. Over a queue that refuses a message
  -- only while it is full and is relieved meanwhile, one pass over records that name a GPU and a metric
  -- is accepted as messages that carry them, one each and in order. Where the loop of a collector, with
  -- a positive batch size, receives these messages in that order and no others, with ticks between them,
  -- until it is stopped, over an in-memory store with room for them: it processes all of them, in
  -- whatever batches, without an error, and leaves none behind. Each query of the store is then answered
  -- by the copies of exactly the matching records among those that the store had and those of the
  -- messages, sorted by time. That the queue hands all messages to this one collector, in order, is a
  -- condition.
  pub stream_records-IsAnswered :
      {W E : Type 0} (outside : Outside W E) (Good : W → Type 0) (log : W → List Message)
      (load : W → ℕ) (capacity : ℕ)
      → IsRelieved outside Good log load capacity
      → (attempts : ℕ) (rs : List TelemetryRecord) (w : W) (c : Collector Store Q)
        (q : TelemetryQuery)
      → IsDelivering events
      → 0 < setting.batch_size
      → Good w
      → capacity < attempts
      → All IsComplete rs
      → IsConsistent c.repository
      → length c.repository.telemetry + length rs ≤ c.repository.max_records
      → q.gpu_uuid ≢ empty
      → (ms : List Message) × (log (stream_records outside config attempts rs w).0 ≡ log w ++ ms)
        × Carries config rs ms
        × IsAnswered q ms c
  stream_records-IsAnswered outside Good log load capacity relieved attempts rs w c q delivering
        size g a h v room named =
      let (ends, good, (ms, added, carries)) =
        stream_records-Streams outside Good log load capacity relieved config attempts rs w g a in
      (ms, added, carries, loop-IsAnswered q c delivering size carries h v room named)
