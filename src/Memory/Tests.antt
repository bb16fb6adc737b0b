-- ===== src/Memory/Tests.antt =====
-- Runs of pkg/storage/memory at concrete inputs.
use mathlib.Core.List.Perm
use elastic_gpu_telemetry_pi.Common.{
  ◌≡◌, refl, List, [], ◌∷◌, some, none, Text, codes, lookup, ok, map, insert, text_eq, text_ltb,
}
use elastic_gpu_telemetry_pi.Common.Insertion.{insertion_sort, sort_by}
use elastic_gpu_telemetry_pi.Domain.{Gpu, TelemetryRecord, TelemetryQuery, empty, Time}
use elastic_gpu_telemetry_pi.Memory.{
  Store, new_store_with_max_records, save_gpu, save_telemetry, make_room, append_record,
  evict_oldest_records, drop_oldest, rebuild_index, rebuild_seen, append_index,
  get_telemetry_by_gpu, list_gpus, collect_gpus,
}
use elastic_gpu_telemetry_pi.Memory.Invariant.{IsConsistent}
use elastic_gpu_telemetry_pi.Memory.Eviction.{
  Call, saves_gpu, saves_telemetry, step, run, run-new_store-IsConsistent, Saves,
  save_telemetry-Saves,
}
use elastic_gpu_telemetry_pi.Memory.Queries.{Answers, get_telemetry_by_gpu-Answers}
use elastic_gpu_telemetry_pi.Memory.Listing.{list_gpus_deterministic, seen_keys}

abbrev uuid_a : Text
uuid_a = codes "GPU-a"

abbrev uuid_b : Text
uuid_b = codes "GPU-b"

abbrev gpu : Text → Gpu
gpu uuid = record {
  uuid = uuid;
  gpu_id = codes "0";
  device = codes "nvidia0";
  model = codes "H100";
  hostname = codes "host";
  container = empty;
  pod = empty;
  namespace = empty;
}

abbrev sample : Text → Time → TelemetryRecord
sample uuid t = record {
  gpu_uuid = uuid;
  metric_name = codes "DCGM_FI_DEV_GPU_UTIL";
  value = codes "98";
  ingestion_time = t;
  container = empty;
  pod = empty;
  namespace = empty;
  hostname = codes "host";
  model_name = codes "H100";
  gpu_id = codes "0";
  device = codes "nvidia0";
}

abbrev history : List Call
history =
    saves_gpu (some (gpu uuid_b))
    ∷ saves_gpu (some (gpu uuid_a))
    ∷ saves_gpu none
    ∷ saves_telemetry (some (sample uuid_b 1))
    ∷ saves_telemetry (some (sample uuid_b 5))
    ∷ saves_telemetry (some (sample uuid_a 3))
    ∷ []

abbrev busy : Store
busy = run history (new_store_with_max_records 2)

run-new_store-IsConsistent_example : IsConsistent (run history (new_store_with_max_records 2))
run-new_store-IsConsistent_example = run-new_store-IsConsistent 2 history

busy-IsConsistent : IsConsistent busy
busy-IsConsistent = run-new_store-IsConsistent 2 history

-- The third record has driven out the first.
busy_times : map (λ r. r.ingestion_time) busy.telemetry ≡ 5 ∷ 3 ∷ []
unfolding run step save_gpu save_telemetry make_room append_record evict_oldest_records drop_oldest
    rebuild_index rebuild_seen append_index insert lookup text_eq new_store_with_max_records
busy_times = refl

busy_lists_a :
    map (λ g. g.uuid) (list_gpus insertion_sort (seen_keys busy) busy) ≡ uuid_a ∷ uuid_b ∷ []
unfolding run step save_gpu save_telemetry make_room append_record evict_oldest_records drop_oldest
    rebuild_index rebuild_seen append_index insert lookup text_eq new_store_with_max_records
    list_gpus collect_gpus sort_by text_ltb
busy_lists_a = refl

save_telemetry-Saves_example :
    (t : Store) × (save_telemetry (some (sample uuid_a 7)) busy ≡ ok t)
    × Saves busy (sample uuid_a 7) t
save_telemetry-Saves_example =
    save_telemetry-Saves busy (sample uuid_a 7) busy-IsConsistent (λ e. cc)

abbrev window : TelemetryQuery
window = record { gpu_uuid = uuid_a; start_time = some 2; end_time = none }

get_telemetry_by_gpu-Answers_example :
    (rs : List TelemetryRecord) × (get_telemetry_by_gpu insertion_sort uuid_a (some 2) none busy
      ≡ ok rs)
    × Answers window busy rs
get_telemetry_by_gpu-Answers_example =
    get_telemetry_by_gpu-Answers insertion_sort window busy busy-IsConsistent (λ e. cc)

list_gpus_deterministic_example :
    list_gpus insertion_sort (uuid_a ∷ uuid_b ∷ []) busy
    ≡ list_gpus insertion_sort (uuid_b ∷ uuid_a ∷ []) busy
list_gpus_deterministic_example =
    list_gpus_deterministic insertion_sort insertion_sort busy (uuid_a ∷ uuid_b ∷ [])
      (uuid_b ∷ uuid_a ∷ []) busy-IsConsistent (Perm.swap uuid_b uuid_a [])
