-- ===== src/Collector/Tracking.antt =====
-- internal/collector/collector.go: the GPUs that the first pass of `processBatch` collects.
use elastic_gpu_telemetry_pi.Common.{
  ◌≡◌, ◌≢◌, inl, inr, Option, none, some, List, [], ◌∷◌, arith, Text, Map, lookup, lookup-insert,
  text_eq, text_eq_iff, All, Bool-cases, Option-cases, is_empty, false, not, ◌&&◌,
  lookup-insert_self,
}
use elastic_gpu_telemetry_pi.Domain.{Gpu, TelemetryRecord, Message, empty}
use elastic_gpu_telemetry_pi.Collector.{gpu_of, track, payload_of, track_payload, collect_batch}

-- A record's GPU is in the map, with a model if the record names one.
abbrev pub Covers : Map Gpu → Option TelemetryRecord → Type 0
Covers gpu_map none = Unit
Covers gpu_map (some r) =
    r.gpu_uuid ≢ empty
    → (g : Gpu) × (lookup r.gpu_uuid gpu_map ≡ some g)
      × (is_empty r.model_name ≡ false → is_empty g.model ≡ false)

-- Each GPU stands under its own UUID.
abbrev pub IsKeyed : Map Gpu → Type 0
IsKeyed gpu_map = (uuid : Text) (g : Gpu) → lookup uuid gpu_map ≡ some g → g.uuid ≡ uuid

track-IsKeyed : (gpu : Gpu) (gpu_map : Map Gpu) → IsKeyed gpu_map → IsKeyed (track gpu gpu_map)
unfolding track
track-IsKeyed gpu gpu_map k uuid g h =
    ground (arith, k uuid g, lookup-insert gpu.uuid uuid gpu gpu_map, text_eq_iff gpu.uuid uuid)

track_payload-IsKeyed :
    (p : Option TelemetryRecord) (gpu_map : Map Gpu)
    → IsKeyed gpu_map
    → IsKeyed (track_payload p gpu_map)
track_payload-IsKeyed none gpu_map k = k
track_payload-IsKeyed (some r) gpu_map k = elim (Bool-cases (is_empty r.gpu_uuid)) [
  | inl e ↦ rw e k
  | inr e ↦ rw e (track-IsKeyed (gpu_of r) gpu_map k)
]

-- The entry of a GPU after an update, for an entry that was there.
track_keeps :
    (gpu : Gpu) (gpu_map : Map Gpu) (uuid : Text) (g : Gpu)
    → lookup uuid gpu_map ≡ some g
    → (g' : Gpu) × (lookup uuid (track gpu gpu_map) ≡ some g')
      × (is_empty g.model ≡ false → is_empty g'.model ≡ false)
unfolding track
track_keeps gpu gpu_map uuid g h = elim (Option-cases (lookup gpu.uuid gpu_map)) [
  | inl e ↦ (
    g,
    ground (arith, lookup-insert gpu.uuid uuid gpu gpu_map, text_eq_iff gpu.uuid uuid),
    λ n. n,
  )
  | inr (x, e) ↦ elim (Bool-cases (not (is_empty gpu.model) && is_empty x.model)) [
    | inr e' ↦ (g, ground arith, λ n. n)
    | inl e' ↦ elim (Bool-cases (text_eq gpu.uuid uuid)) [
      | inl same ↦ (gpu, ground (arith, lookup-insert gpu.uuid uuid gpu gpu_map), λ n. ground arith)
      | inr other ↦ (g, ground (arith, lookup-insert gpu.uuid uuid gpu gpu_map), λ n. n)
    ]
  ]
]

track_adds :
    (gpu : Gpu) (gpu_map : Map Gpu)
    → (g : Gpu) × (lookup gpu.uuid (track gpu gpu_map) ≡ some g)
      × (is_empty gpu.model ≡ false → is_empty g.model ≡ false)
unfolding track
track_adds gpu gpu_map = elim (Option-cases (lookup gpu.uuid gpu_map)) [
  | inl e ↦ (gpu, ground (arith, lookup-insert_self gpu.uuid gpu gpu_map), λ n. n)
  | inr (x, e) ↦ elim (Bool-cases (not (is_empty gpu.model) && is_empty x.model)) [
    | inr e' ↦ (x, ground arith, λ n. ground arith)
    | inl e' ↦ (gpu, ground (arith, lookup-insert_self gpu.uuid gpu gpu_map), λ n. n)
  ]
]

track_payload-Covers :
    (p o : Option TelemetryRecord) (gpu_map : Map Gpu)
    → Covers gpu_map o
    → Covers (track_payload p gpu_map) o
track_payload-Covers p none gpu_map c = tt
track_payload-Covers none (some r) gpu_map c = c
track_payload-Covers (some t) (some r) gpu_map c = λ named.
    let (g, at, model) = c named in
    elim (Bool-cases (is_empty t.gpu_uuid)) [
      | inl e ↦ rw e (g, at, model)
      | inr e ↦
          let (g', at', model') = track_keeps (gpu_of t) gpu_map r.gpu_uuid g at in
          rw e (g', at', λ n. model' (model n))
    ]

Covers-track_payload :
    (p : Option TelemetryRecord) (gpu_map : Map Gpu) → Covers (track_payload p gpu_map) p
Covers-track_payload none gpu_map = tt
Covers-track_payload (some r) gpu_map = λ named. elim (Bool-cases (is_empty r.gpu_uuid)) [
  | inl e ↦ absurd (ground arith)
  | inr e ↦ rw e (track_adds (gpu_of r) gpu_map)
]

collect_batch-Covers_kept :
    (batch : List (Option Message)) (o : Option TelemetryRecord) (gpu_map : Map Gpu)
    → Covers gpu_map o
    → Covers (collect_batch batch gpu_map) o
unfolding collect_batch
collect_batch-Covers_kept [] o gpu_map c = c
collect_batch-Covers_kept (m ∷ batch) o gpu_map c =
    collect_batch-Covers_kept batch o _ (track_payload-Covers (payload_of m) o gpu_map c)

collect_batch-IsKeyed :
    (batch : List (Option Message)) (gpu_map : Map Gpu)
    → IsKeyed gpu_map
    → IsKeyed (collect_batch batch gpu_map)
unfolding collect_batch
collect_batch-IsKeyed [] gpu_map k = k
collect_batch-IsKeyed (m ∷ batch) gpu_map k =
    collect_batch-IsKeyed batch _ (track_payload-IsKeyed (payload_of m) gpu_map k)

collect_batch-All :
    (batch : List (Option Message)) (gpu_map : Map Gpu)
    → All (λ m. Covers (collect_batch batch gpu_map) (payload_of m)) batch
unfolding collect_batch
collect_batch-All [] gpu_map = tt
collect_batch-All (m ∷ batch) gpu_map = (
  collect_batch-Covers_kept batch (payload_of m) _ (Covers-track_payload (payload_of m) gpu_map),
  collect_batch-All batch _,
)

-- For every record of a batch that names a GPU, the collected GPUs have one under its UUID, with a
-- model whenever the record names one; and each collected GPU stands under its own UUID.
pub collect_batch-Covers :
    (batch : List (Option Message))
    → All (λ m. Covers (collect_batch batch []) (payload_of m)) batch
      × IsKeyed (collect_batch batch [])
unfolding lookup
collect_batch-Covers batch =
    (collect_batch-All batch [], collect_batch-IsKeyed batch [] (λ uuid g h. cc))
