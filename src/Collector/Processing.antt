-- ===== src/Collector/Processing.antt =====
-- internal/collector/collector.go: what a batch does to the store, the queue and the counters.
use elastic_gpu_telemetry_pi.Common.{
  ◌+◌, Bool, true, false, ◌≡◌, ◌≢◌, refl, sym, ap, ◌∙◌, inl, inr, Option, none, some, List, [], ◌∷◌,
  map, arith, length, keep, ok, ◌>>=◌, Option-cases, Map, ◌⊎◌,
}
use elastic_gpu_telemetry_pi.Domain.{Gpu, TelemetryRecord, Message, empty}
use elastic_gpu_telemetry_pi.Storage.{Repository, Acknowledger, IsAccepting}
use elastic_gpu_telemetry_pi.Collector.{
  Collector, Setting, validate_telemetry_record, collect_batch, save_gpus, ProcessError,
  payload_is_nil, invalid_record, save_failed, track_payload, count_error, count_processed,
  process_message, after_message, process_all, ack_all, acknowledged, process_batch,
}

-- The record of a message, if it has one that is valid.
unfoldable pub valid_record : Option TelemetryRecord → Option TelemetryRecord
valid_record none = none
valid_record (some r) = elim (validate_telemetry_record r) [ some e ↦ none | none ↦ some r ]

abbrev pub is_recordable : Message → Bool
is_recordable m = elim (valid_record m.payload) [ some r ↦ true | none ↦ false ]

module _ {S Q E F : Type 0} (repository : Repository S E) (queue : Acknowledger Q F)
    (setting : Setting) where
  -- The valid records are saved in order; the messages are those whose save succeeded.
  unfoldable pub stored : List Message → S → S × List Message
  stored [] s = (s, [])
  stored (m ∷ ms) s = elim (valid_record m.payload) [
    | none ↦ stored ms s
    | some r ↦
        let saved = repository.saves_telemetry r s in
        let rest = stored ms saved.0 in elim saved.1 [ none ↦ (rest.0, m ∷ rest.1) | some e ↦ rest ]
  ]

  -- What becomes of a message: it fails, or it is stored.
  abbrev Fails : Message → Map Gpu → S → Type 0
  Fails m gpu_map s =
      (t : S) × (tracked : Map Gpu) × (e : ProcessError E) × (process_message repository queue
          setting (some m) gpu_map s
        ≡ (t, tracked, some e))
      × ((ms : List Message) → stored (m ∷ ms) s ≡ stored ms t)

  abbrev Succeeds : Message → Map Gpu → S → Type 0
  Succeeds m gpu_map s =
      (t : S) × (tracked : Map Gpu) × (process_message repository queue setting (some m) gpu_map s
        ≡ (t, tracked, none))
      × ((ms : List Message) → stored (m ∷ ms) s ≡ ((stored ms t).0, m ∷ (stored ms t).1))

  process_message_cases :
      (m : Message) (gpu_map : Map Gpu) (s : S) → Fails m gpu_map s ⊎ Succeeds m gpu_map s
  unfolding process_message stored valid_record
  process_message_cases m gpu_map s = elim (Option-cases m.payload) [
    | inl h ↦ inl (s, gpu_map, payload_is_nil, ground arith, λ ms. ground arith)
    | inr (r, h) ↦ elim (Option-cases (validate_telemetry_record r)) [
      | inr (e, h') ↦ inl (s, gpu_map, invalid_record e, ground arith, λ ms. ground arith)
      | inl h' ↦
          let t = (repository.saves_telemetry r s).0 in
          let tracked = track_payload (some r) gpu_map in
          elim (Option-cases (repository.saves_telemetry r s).1) [
            | inr (e, h'') ↦ inl (t, tracked, save_failed e, ground arith, λ ms. ground arith)
            | inl h'' ↦ inr (t, tracked, ground arith, λ ms. ground arith)
          ]
    ]
  ]

  process_all-fails :
      (m : Message) (batch : List (Option Message)) (gpu_map tracked : Map Gpu) (c : Collector S Q)
      (t : S) (e : ProcessError E)
      → process_message repository queue setting (some m) gpu_map c.repository
        ≡ (t, tracked, some e)
      → process_all repository queue setting (some m ∷ batch) gpu_map c
        ≡ process_all repository queue setting batch tracked
            (count_error repository queue setting (record c { repository = t }))
  unfolding process_all
  process_all-fails m batch gpu_map tracked c t e h =
      ap (after_message repository queue setting (process_all repository queue setting batch) m c) h

  process_all-succeeds :
      (m : Message) (batch : List (Option Message)) (gpu_map tracked : Map Gpu) (c : Collector S Q)
      (t : S)
      → process_message repository queue setting (some m) gpu_map c.repository ≡ (t, tracked, none)
      → process_all repository queue setting (some m ∷ batch) gpu_map c ≡ (
          process_all repository queue setting batch tracked
            (count_processed repository queue setting (record c { repository = t }))
          >>= (λ r. ok (r.0, m ∷ r.1)))
  unfolding process_all
  process_all-succeeds m batch gpu_map tracked c t h =
      ap (after_message repository queue setting (process_all repository queue setting batch) m c) h

  pub record Processes (ms : List Message) (s : S) (c : Collector S Q) (q : Q) (t : Collector S Q)
      : Type 0 where
    pub repository_after : t.repository ≡ (stored ms s).0
    pub queue_after : t.queue ≡ q
    pub processed : t.processed_count ≡ c.processed_count + length (stored ms s).1
    pub failed : t.error_count + length (stored ms s).1 ≡ c.error_count + length ms

  process_all-Processes :
      (ms : List Message) (gpu_map : Map Gpu) (c : Collector S Q)
      → (t : Collector S Q) × (process_all repository queue setting (map some ms) gpu_map c
          ≡ ok (t, (stored ms c.repository).1))
        × Processes ms c.repository c c.queue t
  unfolding process_all stored
  process_all-Processes [] gpu_map c = (
    c,
    refl,
    record { repository_after = refl; queue_after = refl; processed = omega arith; failed = refl },
  )
  process_all-Processes (m ∷ ms) gpu_map c = elim (process_message_cases m gpu_map c.repository) [
    | inl (s, tracked, e, h, next) ↦
        let c' = count_error repository queue setting (record c { repository = s }) in
        let (t, run, p) = process_all-Processes ms tracked c' in
        (
          t,
          process_all-fails m (map some ms) gpu_map tracked c s e h
              ∙ run
              ∙ ap (λ r. ok (t, r.1)) (sym (next ms)),
          record {
            repository_after = p.repository_after ∙ ap (λ r. r.0) (sym (next ms));
            queue_after = p.queue_after;
            processed = p.processed ∙ ap (λ r. c.processed_count + length r.1) (sym (next ms));
            failed = omega (arith, ap (λ r. length r.1) (next ms), p.failed);
          },
        )
    | inr (s, tracked, h, next) ↦
        let c' = count_processed repository queue setting (record c { repository = s }) in
        let (t, run, p) = process_all-Processes ms tracked c' in
        (
          t,
          process_all-succeeds m (map some ms) gpu_map tracked c s h
              ∙ ap (λ r. r >>= (λ r'. ok (r'.0, m ∷ r'.1))) run
              ∙ ap (λ r. ok (t, r.1)) (sym (next ms)),
          record {
            repository_after = p.repository_after ∙ ap (λ r. r.0) (sym (next ms));
            queue_after = p.queue_after;
            processed = omega (arith, ap (λ r. length r.1) (next ms), p.processed);
            failed = omega (arith, ap (λ r. length r.1) (next ms), p.failed);
          },
        )
  ]

  -- The store after the first pass has saved the GPUs of a batch.
  abbrev pub gpus_saved : List Message → Collector S Q → S
  gpus_saved ms c =
      save_gpus repository queue setting (setting.visits (collect_batch (map some ms) []))
        c.repository

  -- A batch of messages, none of them nil, never panics. Its GPUs are saved first, then its valid
  -- records in order; exactly the messages whose record was saved are acknowledged and counted as
  -- processed, and the others are counted as errors.
  pub process_batch-Processes :
      (m : Message) (ms : List Message) (c : Collector S Q)
      → let batch : List Message = m ∷ ms in
        let s : S = gpus_saved batch c in
        (t : Collector S Q) × (process_batch repository queue setting (map some batch) c ≡ ok t)
        × Processes batch s c (ack_all repository queue setting (stored batch s).1 c.queue) t
  unfolding process_batch
  process_batch-Processes m ms c =
      let batch : List Message = m ∷ ms in
      let s = gpus_saved batch c in
      let start = record c { repository = s } in
      let (t, run, p) = process_all-Processes batch (collect_batch (map some batch) []) start in
      (
        record t { queue = ack_all repository queue setting (stored batch s).1 t.queue },
        ap (λ r. r >>= acknowledged repository queue setting) run,
        record {
          repository_after = p.repository_after;
          queue_after = ap (ack_all repository queue setting (stored batch s).1) p.queue_after;
          processed = p.processed;
          failed = p.failed;
        },
      )

  names_gpu : (r : TelemetryRecord) → validate_telemetry_record r ≡ none → r.gpu_uuid ≢ empty
  unfolding validate_telemetry_record
  names_gpu r h e = ground arith

  stored_of_IsAccepting :
      IsAccepting repository → (ms : List Message) (s : S) → (stored ms s).1 ≡ keep is_recordable ms
  unfolding stored valid_record
  stored_of_IsAccepting a [] s = refl
  stored_of_IsAccepting a (m ∷ ms) s = elim (Option-cases m.payload) [
    | inl h ↦ ground (arith, stored_of_IsAccepting a ms s)
    | inr (r, h) ↦ elim (Option-cases (validate_telemetry_record r)) [
      | inr (e, h') ↦ ground (arith, stored_of_IsAccepting a ms s)
      | inl h' ↦ ground (
        arith,
        a.accepts r s (names_gpu r h'),
        stored_of_IsAccepting a ms (repository.saves_telemetry r s).0,
      )
    ]
  ]

  -- Over a repository that stores each record with a GPU, a batch without nil messages acknowledges
  -- and counts as processed exactly the messages whose payload is valid.
  pub process_batch_of_IsAccepting :
      IsAccepting repository
      → (m : Message) (ms : List Message) (c : Collector S Q)
      → let valid : List Message = keep is_recordable (m ∷ ms) in
        (t : Collector S Q) × (process_batch repository queue setting (map some (m ∷ ms)) c ≡ ok t)
        × (t.queue ≡ ack_all repository queue setting valid c.queue)
        × (t.processed_count ≡ c.processed_count + length valid)
        × (t.error_count + length valid ≡ c.error_count + length (m ∷ ms))
  process_batch_of_IsAccepting a m ms c =
      let (t, run, p) = process_batch-Processes m ms c in
      let same = stored_of_IsAccepting a (m ∷ ms) (gpus_saved (m ∷ ms) c) in
      (
        t,
        run,
        p.queue_after ∙ ap (λ l. ack_all repository queue setting l c.queue) same,
        p.processed ∙ ap (λ l. c.processed_count + length l) same,
        ap (λ l. t.error_count + length l) (sym same) ∙ p.failed,
      )
