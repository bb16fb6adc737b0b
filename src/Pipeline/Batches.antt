-- ===== src/Pipeline/Batches.antt =====
-- internal/collector/collector.go and pkg/storage/memory/store.go: the batches of the collector's loop,
-- whose messages carry records for which the store has room.
use mathlib.Core.List.{append_assoc, append-nil}
use elastic_gpu_telemetry_pi.Common.{
  ◌+◌, ◌<◌, ◌≤◌, ◌≡◌, refl, sym, ap, subst, ◌∙◌, some, Option, List, [], ◌∷◌, ◌++◌, map, arith,
  Text, length, length-append, All, true, ok, ◌>>=◌, Option-cases, inl, inr,
}
use elastic_gpu_telemetry_pi.Common.Sorting.{SortSlice}
use elastic_gpu_telemetry_pi.Domain.{TelemetryRecord, Message}
use elastic_gpu_telemetry_pi.Config.{StreamerConfig}
use elastic_gpu_telemetry_pi.Memory.{Store}
use elastic_gpu_telemetry_pi.Memory.Invariant.{IsConsistent}
use elastic_gpu_telemetry_pi.Storage.{Acknowledger, memory_repository}
use elastic_gpu_telemetry_pi.Collector.{Collector, Setting, process_batch, collect_batch}
use elastic_gpu_telemetry_pi.Collector.Processing.{process_batch-Processes}
use elastic_gpu_telemetry_pi.Collector.Loop.{
  Event, arrived, concat, process_messages, process_batches,
}
use elastic_gpu_telemetry_pi.Collector.Batching.{stops, process_messages-Splits}
use elastic_gpu_telemetry_pi.Streamer.Backpressure.{Carries, none_left, one_more, IsStamped}
use elastic_gpu_telemetry_pi.Pipeline.{payloads, IsComplete, stored-Stores, save_gpus-Keeps}

payloads-append : (ms ms' : List Message) → payloads (ms ++ ms') ≡ payloads ms ++ payloads ms'
payloads-append [] ms' = refl
payloads-append (m ∷ ms) ms' = elim (Option-cases m.payload) [
  | inl e ↦ rw e (payloads-append ms ms')
  | inr (r, e) ↦ rw e (ap (λ l. r ∷ l) (payloads-append ms ms'))
]

length-payloads-le : (ms : List Message) → length (payloads ms) ≤ length ms
length-payloads-le [] = omega arith
length-payloads-le (m ∷ ms) = elim (Option-cases m.payload) [
  | inl e ↦ rw e (omega (arith, length-payloads-le ms))
  | inr (r, e) ↦ rw e (omega (arith, length-payloads-le ms))
]

-- A part of the messages, as a batch.
part_of :
    (b bs : List (Option Message)) (ms : List Message)
    → b ++ bs ≡ map some ms
    → (first : List Message) × (rest : List Message) × (ms ≡ first ++ rest)
      × (b ≡ map some first)
      × (bs ≡ map some rest)
part_of [] bs ms e = ([], ms, refl, refl, e)
part_of (x ∷ b) bs [] e = cc
part_of (x ∷ b) bs (m ∷ ms) e =
    let (first, rest, same, e', e'') = part_of b bs ms (cc) in
    (m ∷ first, rest, ap (λ l. m ∷ l) same, (cc), e'')

All-split : {A : Type 0} (P : A → Type 0) (xs ys : List A) → All P (xs ++ ys) → All P xs × All P ys
All-split P [] ys h = (tt, h)
All-split P (x ∷ xs) ys (h, hs) = let (a, b) = All-split P xs ys hs in ((h, a), b)

module _ (slice : SortSlice) (keys : Store → List Text) {Q F : Type 0} (queue : Acknowledger Q F)
    (setting : Setting) (config : StreamerConfig) where
  -- The message carries a record that names a GPU and a metric.
  abbrev pub IsSendable : Message → Type 0
  IsSendable m = (r : TelemetryRecord) × IsStamped config r m × IsComplete r

  sendable-Carries :
      (ms : List Message)
      → All IsSendable ms
      → (rs : List TelemetryRecord) × Carries config rs ms × All IsComplete rs
  sendable-Carries [] h = ([], none_left, tt)
  sendable-Carries (m ∷ ms) ((r, stamped, complete), h) =
      let (rs, carries, completes) = sendable-Carries ms h in
      (r ∷ rs, one_more stamped carries, (complete, completes))

  pub Carries-IsSendable :
      {rs : List TelemetryRecord} {ms : List Message}
      → Carries config rs ms
      → All IsComplete rs
      → All IsSendable ms
  Carries-IsSendable none_left h = tt
  Carries-IsSendable (one_more {r} s more) (h, hs) = ((r, s, h), Carries-IsSendable more hs)

  -- The collector has stored the records of all messages, and counted each as processed.
  pub record Handles (c : Collector Store Q) (ms : List Message) (t : Collector Store Q)
      : Type 0 where
    pub contents : t.repository.telemetry ≡ c.repository.telemetry ++ payloads ms
    pub consistent : IsConsistent t.repository
    pub same_limit : t.repository.max_records ≡ c.repository.max_records
    pub processed : t.processed_count ≡ c.processed_count + length ms
    pub errors : t.error_count ≡ c.error_count

  abbrev Fits : Collector Store Q → List Message → Type 0
  Fits c ms =
      IsConsistent c.repository
      × (length c.repository.telemetry + length ms ≤ c.repository.max_records)

  nothing-Handles : (c : Collector Store Q) → IsConsistent c.repository → Handles c [] c
  nothing-Handles c v = record {
    contents = sym (append-nil c.repository.telemetry);
    consistent = v;
    same_limit = refl;
    processed = omega arith;
    errors = refl;
  }

  Handles-append :
      (c t u : Collector Store Q) (ms ms' : List Message)
      → Handles c ms t
      → Handles t ms' u
      → Handles c (ms ++ ms') u
  Handles-append c t u ms ms' h k = record {
    contents =
        k.contents
        ∙ ap (λ l. l ++ payloads ms') h.contents
        ∙ append_assoc c.repository.telemetry (payloads ms) (payloads ms')
        ∙ ap (λ l. c.repository.telemetry ++ l) (sym (payloads-append ms ms'));
    consistent = k.consistent;
    same_limit = k.same_limit ∙ h.same_limit;
    processed = omega (arith, k.processed, h.processed, length-append ms ms');
    errors = k.errors ∙ h.errors;
  }

  IsHandled : Collector Store Q → List Message → Type 0
  IsHandled c ms =
      (t : Collector Store Q) × (process_batch (memory_repository slice keys) queue setting
          (map some ms) c
        ≡ ok t)
      × Handles c ms t

  process_batch-Handles :
      (ms : List Message) (c : Collector Store Q) → All IsSendable ms → Fits c ms → IsHandled c ms
  unfolding IsHandled process_batch
  process_batch-Handles [] c h (v, room) = (c, refl, nothing-Handles c v)
  process_batch-Handles (m ∷ ms) c h (v, room) =
      let (rs, carries, completes) = sendable-Carries (m ∷ ms) h in
      let (w, same, limit) =
        save_gpus-Keeps slice keys queue setting config
          (setting.visits (collect_batch (map some (m ∷ ms)) [])) c.repository v in
      let (t, run, p) =
        process_batch-Processes (memory_repository slice keys) queue setting m ms c in
      let x =
        stored-Stores slice keys queue setting config carries completes _ w
          (omega (arith, ap length same, limit, room)) in
      (
        t,
        run,
        record {
          contents =
              ap (λ s. s.telemetry) p.repository_after
              ∙ x.contents
              ∙ ap (λ l. l ++ payloads (m ∷ ms)) same;
          consistent = subst IsConsistent (sym p.repository_after) x.consistent;
          same_limit = ap (λ s. s.max_records) p.repository_after ∙ x.same_limit ∙ limit;
          processed = p.processed ∙ ap (λ l. c.processed_count + length l) x.all;
          errors = omega (arith, p.failed, ap length x.all);
        },
      )

  process_batches-Handles :
      (bs : List (List (Option Message))) (ms : List Message) (c : Collector Store Q)
      → concat bs ≡ map some ms
      → All IsSendable ms
      → Fits c ms
      → (t : Collector Store Q) × (process_batches (memory_repository slice keys) queue setting bs c
          ≡ ok t)
        × Handles c ms t
  unfolding process_batches IsHandled
  process_batches-Handles [] [] c e h (v, room) = (c, refl, nothing-Handles c v)
  process_batches-Handles [] (m ∷ ms) c e h f = cc
  process_batches-Handles (b ∷ bs) ms c e h (v, room) =
      let (first, rest, same, batch, others) = part_of b (concat bs) ms e in
      let sizes = ap length same ∙ length-append first rest in
      let (h1, h2) = All-split IsSendable first rest (subst (All IsSendable) same h) in
      let (t, run, done) = process_batch-Handles first c h1 (v, omega (arith, room, sizes)) in
      let grown = ap length done.contents ∙ length-append c.repository.telemetry (payloads first) in
      let (u, run', done') = process_batches-Handles bs rest t others h2 (
        done.consistent,
        omega (arith, room, sizes, grown, length-payloads-le first, done.same_limit),
      ) in
      (
        u,
        ap
              (λ x.
                process_batch (memory_repository slice keys) queue setting x c
                >>= (λ c'. process_batches (memory_repository slice keys) queue setting bs c'))
              batch
            ∙ ap
                (λ r.
                  r >>= (λ c'. process_batches (memory_repository slice keys) queue setting bs c'))
                run
            ∙ run',
        subst (λ l. Handles c l u) (sym same) (Handles-append c t u first rest done done'),
      )

  -- The loop over events by which these messages arrive before it is stopped.
  pub process_messages-Handles :
      (es : List Event) (ms : List Message) (c : Collector Store Q)
      → 0 < setting.batch_size
      → arrived es ≡ map some ms
      → stops es ≡ true
      → All IsSendable ms
      → Fits c ms
      → (t : Collector Store Q) × (process_messages
            (memory_repository slice keys)
            queue
            setting
            es
            []
            c
          ≡ ok (t, []))
        × Handles c ms t
  process_messages-Handles es ms c size all_arrive stopped h f =
      let (r, splits, run, left) =
        process_messages-Splits (memory_repository slice keys) queue setting es c size in
      let whole : concat r.0 ≡ map some ms =
        sym (append-nil (concat r.0))
        ∙ ap (λ l. concat r.0 ++ l) (sym (left stopped))
        ∙ splits.whole
        ∙ all_arrive in
      let (t, run', done) = process_batches-Handles r.0 ms c whole h f in
      (
        t,
        run ∙ ap (λ x. x >>= (λ c'. ok (c', r.1))) run' ∙ ap (λ l. ok (t, l)) (left stopped),
        done,
      )
