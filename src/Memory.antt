-- ===== src/Memory.antt =====
-- pkg/storage/memory/store.go and errors.go: the in-memory store. Each method runs under the store's
-- lock, so a method is one step on the store. `range` over a map visits the keys in an order that is
-- an argument. Records and GPUs are values: a caller that changes what it handed over is not modelled.
pub mod Invariant
pub mod Eviction
pub mod Queries
pub mod Listing
mod Tests
use elastic_gpu_telemetry_pi.Common.{
  ℕ, suc, ◌+◌, ◌/◌, Bool, true, Option, none, some, List, [], ◌∷◌, ◌++◌, Text, Map, lookup, insert,
  text_ltb, is_empty, ltb, leb, ◌==◌, length, drop, get_elem?, Result, ok, err, ◌>>=◌,
  if◌then◌else◌,
}
use elastic_gpu_telemetry_pi.Common.Sorting.{SortSlice}
use elastic_gpu_telemetry_pi.Domain.{Time, Gpu, TelemetryRecord, before_start, after_end, empty}

pub data StoreError : Type 0 where
  invalid_gpu invalid_gpu_uuid invalid_telemetry_record : StoreError

pub record Store : Type 0 where
  pub gpus : Map Gpu
  pub telemetry : List TelemetryRecord
  pub gpu_telemetry_index : Map (List ℕ)
  pub gpus_with_telemetry : Map Bool
  pub max_records : ℕ

abbrev pub max_telemetry_records : ℕ
max_telemetry_records = 100000

-- `NewStoreWithMaxRecords` and `NewStore`.
unfoldable pub new_store_with_max_records : ℕ → Store
new_store_with_max_records max = record {
  gpus = [];
  telemetry = [];
  gpu_telemetry_index = [];
  gpus_with_telemetry = [];
  max_records = if leb max 0 then max_telemetry_records else max;
}

pub new_store : Store
new_store = record {
  gpus = [];
  telemetry = [];
  gpu_telemetry_index = [];
  gpus_with_telemetry = [];
  max_records = max_telemetry_records;
}

-- `SaveGPU`; a nil pointer is `none`.
unfoldable pub save_gpu : Option Gpu → Store → Result StoreError Store
save_gpu none s = err invalid_gpu
save_gpu (some gpu) s =
    if is_empty gpu.uuid
    then err invalid_gpu_uuid
    else ok (record s { gpus = insert gpu.uuid gpu s.gpus })

-- The copy that `GetGPU` and `ListGPUs` return.
abbrev pub copy_gpu : Gpu → Gpu
copy_gpu g = record {
  uuid = g.uuid;
  gpu_id = g.gpu_id;
  device = g.device;
  model = g.model;
  hostname = g.hostname;
  container = g.container;
  pod = g.pod;
  namespace = g.namespace;
}

abbrev pub found_gpu : Option Gpu → Option Gpu
found_gpu none = none
found_gpu (some gpu) = some (copy_gpu gpu)

-- `GetGPU`; a GPU that is not there is nil, with no error.
unfoldable pub get_gpu : Text → Store → Result StoreError (Option Gpu)
get_gpu uuid s = if is_empty uuid then err invalid_gpu_uuid else ok (found_gpu (lookup uuid s.gpus))

-- The loop of `ListGPUs` over the keys of `gpusWithTelemetry`.
unfoldable pub collect_gpus : Map Gpu → List Text → List Gpu
collect_gpus gpus [] = []
collect_gpus gpus (uuid ∷ keys) =
    let rest = collect_gpus gpus keys in
    elim (lookup uuid gpus) [ none ↦ rest | some gpu ↦ copy_gpu gpu ∷ rest ]

abbrev pub uuid_less : Gpu → Gpu → Bool
uuid_less g h = text_ltb g.uuid h.uuid

-- `ListGPUs`; `keys` are the keys of `gpusWithTelemetry` in the order of this `range`.
pub list_gpus : SortSlice → List Text → Store → List Gpu
list_gpus slice keys s = slice.sort Gpu uuid_less (collect_gpus s.gpus keys)

-- `index[uuid] = append(index[uuid], i)`.
pub append_index : Text → ℕ → Map (List ℕ) → Map (List ℕ)
append_index uuid i index = elim (lookup uuid index) [
  | none ↦ insert uuid (i ∷ []) index
  | some is ↦ insert uuid (is ++ i ∷ []) index
]

-- The loop of `evictOldestRecords` that builds the two maps again, from position `i` on.
rebuild_index : ℕ → List TelemetryRecord → Map (List ℕ) → Map (List ℕ)
rebuild_index i [] index = index
rebuild_index i (r ∷ rs) index = rebuild_index (suc i) rs (append_index r.gpu_uuid i index)

rebuild_seen : List TelemetryRecord → Map Bool → Map Bool
rebuild_seen [] seen = seen
rebuild_seen (r ∷ rs) seen = rebuild_seen rs (insert r.gpu_uuid true seen)

drop_oldest : ℕ → Store → Store
drop_oldest count s =
    let rest = drop count s.telemetry in
    record s {
      telemetry = rest;
      gpu_telemetry_index = rebuild_index 0 rest [];
      gpus_with_telemetry = rebuild_seen rest [];
    }

-- `evictOldestRecords`.
pub evict_oldest_records : ℕ → Store → Store
evict_oldest_records count s =
    if leb count 0
    then s
    else if length s.telemetry == 0
    then s
    else drop_oldest (if ltb (length s.telemetry) count then length s.telemetry else count) s

-- How many records `SaveTelemetry` evicts at the limit: a tenth of it, and at least one.
abbrev pub evict_count : ℕ → ℕ
evict_count max = if ltb (max / 10) 1 then 1 else max / 10

unfoldable pub make_room : Store → Store
make_room s =
    if leb s.max_records (length s.telemetry)
    then evict_oldest_records (evict_count s.max_records) s
    else s

unfoldable pub append_record : TelemetryRecord → Store → Store
append_record r s = record s {
  telemetry = s.telemetry ++ r ∷ [];
  gpu_telemetry_index = append_index r.gpu_uuid (length s.telemetry) s.gpu_telemetry_index;
  gpus_with_telemetry = insert r.gpu_uuid true s.gpus_with_telemetry;
}

-- `SaveTelemetry`.
unfoldable pub save_telemetry : Option TelemetryRecord → Store → Result StoreError Store
save_telemetry none s = err invalid_telemetry_record
save_telemetry (some r) s =
    if is_empty r.gpu_uuid then err invalid_gpu_uuid else ok (append_record r (make_room s))

-- The copy that `GetTelemetryByGPU` returns: it names neither `GPUID` nor `Device`.
abbrev pub copy_record : TelemetryRecord → TelemetryRecord
copy_record r = record {
  gpu_uuid = r.gpu_uuid;
  metric_name = r.metric_name;
  value = r.value;
  ingestion_time = r.ingestion_time;
  container = r.container;
  pod = r.pod;
  namespace = r.namespace;
  hostname = r.hostname;
  model_name = r.model_name;
  gpu_id = empty;
  device = empty;
}

-- The loop of `GetTelemetryByGPU` over the indices of a GPU.
collect_records : Option Time → Option Time → List TelemetryRecord → List ℕ → List TelemetryRecord
collect_records start end telemetry [] = []
collect_records start end telemetry (i ∷ is) =
    let rest = collect_records start end telemetry is in
    elim (get_elem? telemetry i) [
      | none ↦ rest
      | some r ↦
          if before_start start r.ingestion_time
          then rest
          else if after_end end r.ingestion_time
          then rest
          else copy_record r ∷ rest
    ]

abbrev pub time_less : TelemetryRecord → TelemetryRecord → Bool
time_less r t = ltb r.ingestion_time t.ingestion_time

abbrev query_index :
    SortSlice
    → Option Time
    → Option Time
    → List TelemetryRecord
    → Option (List ℕ)
    → List TelemetryRecord
query_index slice start end telemetry none = []
query_index slice start end telemetry (some []) = []
query_index slice start end telemetry (some (i ∷ is)) =
    slice.sort TelemetryRecord time_less (collect_records start end telemetry (i ∷ is))

-- `GetTelemetryByGPU`.
pub get_telemetry_by_gpu :
    SortSlice → Text → Option Time → Option Time → Store → Result StoreError (List TelemetryRecord)
get_telemetry_by_gpu slice uuid start end s =
    if is_empty uuid
    then err invalid_gpu_uuid
    else ok (query_index slice start end s.telemetry (lookup uuid s.gpu_telemetry_index))
