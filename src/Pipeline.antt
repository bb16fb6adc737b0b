-- ===== src/Pipeline.antt =====
-- internal/streamer/streamer.go, internal/collector/collector.go and pkg/storage/memory/store.go: the
-- way of the records from the streamer to the store.
pub mod Batches
pub mod EndToEnd
pub mod ReadPath
pub mod WritePath
mod Tests
mod PathTests
mod WriteTests
use elastic_gpu_telemetry_pi.Common.{
  ℕ, suc, ◌+◌, ◌≤◌, ◌≡◌, ◌≢◌, refl, sym, ap, subst, ◌∙◌, Option, none, some, List, [], ◌∷◌, ◌++◌,
  arith, Text, length, length-append, is_empty, drop, All, Result, ok, err, Bool, false, Bool-cases,
  inl, inr, if◌then◌else◌,
}
use mathlib.Core.List.{append_assoc, append-nil}
use elastic_gpu_telemetry_pi.Common.Sorting.{SortSlice}
use elastic_gpu_telemetry_pi.Domain.{Gpu, TelemetryRecord, Message, empty, zero_time}
use elastic_gpu_telemetry_pi.Config.{StreamerConfig}
use elastic_gpu_telemetry_pi.Memory.{Store, StoreError, save_gpu, save_telemetry}
use elastic_gpu_telemetry_pi.Memory.Invariant.{IsConsistent, save_gpu-IsConsistent}
use elastic_gpu_telemetry_pi.Memory.Eviction.{evicted, Saves, save_telemetry-Saves}
use elastic_gpu_telemetry_pi.Storage.{Repository, Acknowledger, memory_repository, settled}
use elastic_gpu_telemetry_pi.Collector.{Setting, validate_telemetry_record, save_gpus}
use elastic_gpu_telemetry_pi.Collector.Processing.{stored, valid_record}
use elastic_gpu_telemetry_pi.Streamer.Backpressure.{Carries, none_left, one_more, IsStamped}

abbrev with_payload : Option TelemetryRecord → List TelemetryRecord → List TelemetryRecord
with_payload none rs = rs
with_payload (some r) rs = r ∷ rs

-- The records of the messages.
abbrev pub payloads : List Message → List TelemetryRecord
payloads [] = []
payloads (m ∷ ms) = with_payload m.payload (payloads ms)

-- The record has what the collector asks for, but for its time.
abbrev pub IsComplete : TelemetryRecord → Type 0
IsComplete r = (is_empty r.gpu_uuid ≡ false) × (is_empty r.metric_name ≡ false)

nothing_evicted : (s : Store) → suc (length s.telemetry) ≤ s.max_records → evicted s ≡ 0
nothing_evicted s room = ground arith

module _ (slice : SortSlice) (keys : Store → List Text) {Q F : Type 0} (queue : Acknowledger Q F)
    (setting : Setting) (config : StreamerConfig) where
  -- All messages are stored, and the store has their records behind those that it had.
  pub record Stores (s : Store) (ms : List Message) (x : Store × List Message) : Type 0 where
    pub all : x.1 ≡ ms
    pub contents : x.0.telemetry ≡ s.telemetry ++ payloads ms
    pub consistent : IsConsistent x.0
    pub same_limit : x.0.max_records ≡ s.max_records

  -- A stamped message is valid.
  valid_record_of_IsStamped :
      (r : TelemetryRecord) (m : Message) (c : IsStamped config r m)
      → IsComplete r
      → valid_record m.payload ≡ some (record r { ingestion_time = c.carried.time })
  unfolding valid_record validate_telemetry_record
  valid_record_of_IsStamped r m c h =
      let payload = c.carried.payload in
      let stamped = c.stamped in rw payload (ground (arith, h.0, h.1, stamped))

  abbrev IsSaved : TelemetryRecord → Store → Store × Option StoreError → Type 0
  IsSaved r s x =
      (x.1 ≡ none)
      × (x.0.telemetry ≡ s.telemetry ++ r ∷ [])
      × (x.0.max_records ≡ s.max_records)
      × IsConsistent x.0

  saves_telemetry-IsSaved :
      (r : TelemetryRecord) (s : Store)
      → IsConsistent s
      → is_empty r.gpu_uuid ≡ false
      → suc (length s.telemetry) ≤ s.max_records
      → IsSaved r s ((memory_repository slice keys).saves_telemetry r s)
  unfolding memory_repository
  saves_telemetry-IsSaved r s v named room =
      let (t, run, w) = save_telemetry-Saves s r v (λ e. absurd (ground (arith, e, named))) in
      subst (IsSaved r s) (sym (ap (settled s) run)) (
        refl,
        w.contents ∙ ap (λ n. drop n s.telemetry ++ r ∷ []) (nothing_evicted s room),
        w.same_limit,
        w.consistent,
      )

  stored-Stores :
      {rs : List TelemetryRecord} {ms : List Message}
      → Carries config rs ms
      → All IsComplete rs
      → (s : Store) → IsConsistent s
      → length s.telemetry + length ms ≤ s.max_records
      → Stores s ms (stored (memory_repository slice keys) queue setting ms s)
  unfolding stored
  stored-Stores none_left h s v room = record {
    all = refl;
    contents = sym (append-nil s.telemetry);
    consistent = v;
    same_limit = refl;
  }
  stored-Stores (one_more {r} {m} {rs} {ms} c more) (h, hs) s v room =
      let payload = c.carried.payload in
      let r' : TelemetryRecord = record r { ingestion_time = c.carried.time } in
      let t = ((memory_repository slice keys).saves_telemetry r' s).0 in
      let (run, contents, limit, w) = saves_telemetry-IsSaved r' s v h.0 (omega arith) in
      let size = ap length contents ∙ length-append s.telemetry (r' ∷ []) in
      let rest = stored-Stores more hs t w (omega (arith, room, limit, size)) in
      rw (stored, valid_record_of_IsStamped r m c h, run)
        (record {
          all = ap (λ l. m ∷ l) rest.all;
          contents =
              rest.contents
              ∙ ap (λ l. l ++ payloads ms) contents
              ∙ append_assoc s.telemetry (r' ∷ []) (payloads ms)
              ∙ ap (λ p. s.telemetry ++ with_payload p (payloads ms)) (sym payload);
          consistent = rest.consistent;
          same_limit = rest.same_limit ∙ limit;
        })

  -- Saving GPUs changes no record.
  abbrev Keeps : Store → Store → Type 0
  Keeps s t = IsConsistent t × (t.telemetry ≡ s.telemetry) × (t.max_records ≡ s.max_records)

  save_gpu-Keeps :
      (gpu : Gpu) (s t : Store) → IsConsistent s → save_gpu (some gpu) s ≡ ok t → Keeps s t
  unfolding save_gpu
  save_gpu-Keeps gpu s t v e =
      (save_gpu-IsConsistent (some gpu) s t v e, ground (arith, e), ground (arith, e))

  save_gpus-Keeps :
      (gpus : List Gpu) (s : Store)
      → IsConsistent s
      → Keeps s (save_gpus (memory_repository slice keys) queue setting gpus s)
  unfolding save_gpus memory_repository
  save_gpus-Keeps [] s v = (v, refl, refl)
  save_gpus-Keeps (gpu ∷ gpus) s v = go (save_gpu (some gpu) s) refl (save_gpus-Keeps gpus)
    where
      save_rest : Store → Store
      save_rest = save_gpus (memory_repository slice keys) queue setting gpus

      go :
          (x : Result StoreError Store)
          → save_gpu (some gpu) s ≡ x
          → ((t : Store) → IsConsistent t → Keeps t (save_rest t))
          → Keeps s (save_rest (settled s x).0)
      go (err e) h rest = rest s v
      go (ok t) h rest =
          let (w, same, limit) = save_gpu-Keeps gpu s t v h in
          let (w', same', limit') = rest t w in (w', same' ∙ same, limit' ∙ limit)
