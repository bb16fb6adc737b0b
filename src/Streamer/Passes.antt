-- ===== src/Streamer/Passes.antt =====
-- internal/streamer/streamer.go: a pass over the records, whatever the queue and the context do.
use mathlib.Core.List.{append_assoc, append-nil}
use elastic_gpu_telemetry_pi.Common.{
  ℕ, zero, suc, ◌≡◌, refl, sym, ap, ◌∙◌, ◌⊎◌, inl, inr, Bool, true, false, List, [], ◌∷◌, ◌++◌,
  Bool-cases,
}
use elastic_gpu_telemetry_pi.Domain.{TelemetryRecord, Message, new_message}
use elastic_gpu_telemetry_pi.Config.{StreamerConfig}
use elastic_gpu_telemetry_pi.Streamer.{
  Publication, accepted, refused, panics, Outside, Verdict, published, cancelled, panicked,
  retrying, skipped, Ending, retry_wait, after_wait, after_publish, publish_loop, make_message,
  after_interval, after_record, stream_records,
}
use elastic_gpu_telemetry_pi.Streamer.Backpressure.{IsCarriedBy}

-- The messages carry some of the records, in order, each record at most once.
pub data CarriesSome (config : StreamerConfig) : List TelemetryRecord → List Message → Type 0 where
  no_more : {rs : List TelemetryRecord} → CarriesSome config rs []
  passed_over :
      {r : TelemetryRecord} {rs : List TelemetryRecord} {ms : List Message}
      → CarriesSome config rs ms
      → CarriesSome config (r ∷ rs) ms
  carried :
      {r : TelemetryRecord} {m : Message} {rs : List TelemetryRecord} {ms : List Message}
      → IsCarriedBy config r m
      → CarriesSome config rs ms
      → CarriesSome config (r ∷ rs) (m ∷ ms)

abbrev add : {E : Type 0} → Publication E → Message → List Message → List Message
add accepted m ms = ms ++ m ∷ []
add panics m ms = ms
add (refused e) m ms = ms

-- The same world, with a record of the messages that the queue has accepted.
unfoldable pub logged : {W E : Type 0} → Outside W E → Outside (W × List Message) E
logged outside = record {
  publishes = λ m w. let r = outside.publishes m w.0 in ((r.0, add r.1 m w.1), r.1);
  is_queue_full = outside.is_queue_full;
  is_done = λ w. outside.is_done w.0;
  waits = λ d w. let r = outside.waits d w.0 in ((r.0, w.1), r.1);
  ingestion_now = λ w. outside.ingestion_now w.0;
  message_now = λ w. outside.message_now w.0;
  new_id = λ w. outside.new_id w.0;
}

module _ {W E : Type 0} (outside : Outside W E) (config : StreamerConfig) where
  abbrev pub Log : Type 0
  Log = W × List Message

  abbrev AddsOne : Message → List Message → Log × Verdict E → Type 0
  AddsOne m ms r = (r.0.1 ≡ ms) ⊎ (r.0.1 ≡ ms ++ m ∷ [])

  after_wait-AddsOne :
      (m : Message) (ms : List Message) (again : Log → Log × Verdict E) (y : W × Bool)
      → ((t : W) → AddsOne m ms (again (t, ms)))
      → AddsOne m ms (after_wait (logged outside) again ((y.0, ms), y.1))
  after_wait-AddsOne m ms again (t, true) rest = inl refl
  after_wait-AddsOne m ms again (t, false) rest = rest t

  -- The loop over the attempts publishes its message at most once.
  publish_loop-AddsOne :
      (left : ℕ) (m : Message) (w : Log) → AddsOne m w.1 (publish_loop (logged outside) left m w)
  unfolding publish_loop logged
  publish_loop-AddsOne zero m w = inl refl
  publish_loop-AddsOne (suc left) m (w, ms) =
      go (outside.publishes m w) (λ t. publish_loop-AddsOne left m (t, ms))
    where
      go :
          (x : W × Publication E)
          → ((t : W) → AddsOne m ms (publish_loop (logged outside) left m (t, ms)))
          → AddsOne m ms (
              after_publish
                (logged outside)
                (publish_loop (logged outside) left m)
                ((x.0, add x.1 m ms), x.1))
      go (t, accepted) rest = inr refl
      go (t, panics) rest = inl refl
      go (t, refused e) rest = elim (Bool-cases (outside.is_queue_full e)) [
        | inl full ↦ rw full (
            after_wait-AddsOne m ms (publish_loop (logged outside) left m)
              (outside.waits retry_wait t) rest)
        | inr other ↦ elim (Bool-cases (outside.is_done t)) [
          | inl done ↦ rw (other, done) (inl refl)
          | inr more ↦ rw (other, more) (inl refl)
        ]
      ]

  abbrev pub CarriesMore : List TelemetryRecord → List Message → Log × Ending → Type 0
  CarriesMore rs ms r = (more : List Message) × (r.0.1 ≡ ms ++ more) × CarriesSome config rs more

  stays : (rs : List TelemetryRecord) (w : Log) (e : Ending) → CarriesMore rs w.1 (w, e)
  stays rs w e = ([], sym (append-nil w.1), no_more)

  -- What follows one record, which is published at most once.
  follows :
      (r : TelemetryRecord) (rs : List TelemetryRecord) (m : Message) (ms ms' : List Message)
      (x : Log × Ending)
      → IsCarriedBy config r m
      → (ms' ≡ ms) ⊎ (ms' ≡ ms ++ m ∷ [])
      → CarriesMore rs ms' x
      → CarriesMore (r ∷ rs) ms x
  follows r rs m ms ms' x c (inl same) (more, e, k) =
      (more, e ∙ ap (λ l. l ++ more) same, passed_over k)
  follows r rs m ms ms' x c (inr added) (more, e, k) =
      (m ∷ more, e ∙ ap (λ l. l ++ more) added ∙ append_assoc ms (m ∷ []) more, carried c k)

  after_interval-CarriesMore :
      (rs : List TelemetryRecord) (ms : List Message) (rest : Log → Log × Ending) (y : W × Bool)
      → ((t : Log) → CarriesMore rs t.1 (rest t))
      → CarriesMore rs ms (after_interval (logged outside) rest ((y.0, ms), y.1))
  after_interval-CarriesMore rs ms rest (t, true) h = stays rs (t, ms) Ending.stopped
  after_interval-CarriesMore rs ms rest (t, false) h = h (t, ms)

  after_record-CarriesMore :
      (rs : List TelemetryRecord) (rest : Log → Log × Ending) (p : Log × Verdict E)
      → ((t : Log) → CarriesMore rs t.1 (rest t))
      → CarriesMore rs p.0.1 (after_record (logged outside) config rest p)
  unfolding logged
  after_record-CarriesMore rs rest (w, published) h =
      after_interval-CarriesMore rs w.1 rest (outside.waits config.stream_interval w.0) h
  after_record-CarriesMore rs rest (w, skipped e) h =
      after_interval-CarriesMore rs w.1 rest (outside.waits config.stream_interval w.0) h
  after_record-CarriesMore rs rest (w, cancelled) h = stays rs w Ending.stopped
  after_record-CarriesMore rs rest (w, panicked) h = stays rs w Ending.crashed
  after_record-CarriesMore rs rest (w, retrying) h = stays rs w Ending.waiting

  made-IsCarriedBy :
      (r : TelemetryRecord) (w : Log)
      → IsCarriedBy config r (make_message (logged outside) config r w)
  unfolding new_message
  made-IsCarriedBy r w = record {
    time = (logged outside).ingestion_now w;
    payload = refl;
    producer = refl;
  }

  -- Whatever the queue, the clock and the context do, and however many attempts are made: the messages
  -- that the queue accepts in one pass carry some of the records, in their order and each record at most
  -- once, with the ingestion time replaced and the streamer's instance as the producer.
  pub stream_records-CarriesMore :
      (attempts : ℕ) (rs : List TelemetryRecord) (w : Log)
      → CarriesMore rs w.1 (stream_records (logged outside) config attempts rs w)
  unfolding stream_records
  stream_records-CarriesMore attempts [] w = stays [] w Ending.completed
  stream_records-CarriesMore attempts (r ∷ rs) w = elim (Bool-cases ((logged outside).is_done w)) [
    | inl done ↦ rw done (stays (r ∷ rs) w Ending.stopped)
    | inr more ↦
        let m = make_message (logged outside) config r w in
        let rest = stream_records (logged outside) config attempts rs in
        let p = publish_loop (logged outside) attempts m w in
        let x : Log × Ending = after_record (logged outside) config rest p in
        rw more (
          follows r rs m w.1 p.0.1 x (made-IsCarriedBy r w) (publish_loop-AddsOne attempts m w)
            (after_record-CarriesMore rs rest p (stream_records-CarriesMore attempts rs)))
  ]
