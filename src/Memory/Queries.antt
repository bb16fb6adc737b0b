-- ===== src/Memory/Queries.antt =====
-- pkg/storage/memory/store.go: `GetTelemetryByGPU` and `TelemetryQuery.Matches`.
use mathlib.Core.List.{Perm}
use mathlib.Core.List.Perm
use elastic_gpu_telemetry_pi.Common.{
  ℕ, suc, ◌+◌, ◌≡◌, ◌≢◌, refl, ap, ◌∙◌, Option, none, some, List, [], ◌∷◌, map, arith, lookup,
  get_elem?, keep, ok,
}
use elastic_gpu_telemetry_pi.Common.Sorting.{SortSlice, IsSorted, IsStrictWeak}
use elastic_gpu_telemetry_pi.Domain.{TelemetryRecord, TelemetryQuery, matches, empty}
use elastic_gpu_telemetry_pi.Memory.{
  Store, copy_record, collect_records, time_less, query_index, get_telemetry_by_gpu,
}
use elastic_gpu_telemetry_pi.Memory.Invariant.{IsConsistent, positions, listed}

pub time_less-IsStrictWeak : IsStrictWeak time_less
time_less-IsStrictWeak = record {
  asymm = λ x y h. ground arith;
  negtrans = λ x y z h k. ground arith;
}

-- The records that a query asks for, as they are handed out, in the order in which they were saved.
abbrev pub asked : TelemetryQuery → Store → List TelemetryRecord
asked q s = map copy_record (keep (matches q) s.telemetry)

-- `rs` is what is left of `telemetry` from position `i` on.
collect_records-positions :
    (q : TelemetryQuery) (telemetry : List TelemetryRecord) (i : ℕ) (rs : List TelemetryRecord)
    → ((j : ℕ) → get_elem? telemetry (i + j) ≡ get_elem? rs j)
    → collect_records q.start_time q.end_time telemetry (positions q.gpu_uuid i rs)
      ≡ map copy_record (keep (matches q) rs)
unfolding collect_records positions matches
collect_records-positions q telemetry i [] h = refl
collect_records-positions q telemetry i (r ∷ rs) h = ground (
  arith,
  ap (get_elem? telemetry) (plus_zero i) ∙ h 0,
  collect_records-positions q telemetry (suc i) rs
      (λ j. ap (get_elem? telemetry) (plus_suc i j) ∙ h (suc j)),
)
  where
    plus_zero : (n : ℕ) → n ≡ n + 0
    plus_zero n = omega arith

    plus_suc : (n j : ℕ) → suc n + j ≡ n + suc j
    plus_suc n j = omega arith

collect_indexed :
    (q : TelemetryQuery) (s : Store)
    → IsConsistent s
    → collect_records q.start_time q.end_time s.telemetry
        (listed (lookup q.gpu_uuid s.gpu_telemetry_index))
      ≡ asked q s
collect_indexed q s v = rw (v.indexed q.gpu_uuid) (
    collect_records-positions q s.telemetry 0 s.telemetry
      (λ j. ap (get_elem? s.telemetry) (omega arith)))

-- An answer holds what was asked for, oldest first.
pub record Answers (q : TelemetryQuery) (s : Store) (rs : List TelemetryRecord) : Type 0 where
  pub same : Perm rs (asked q s)
  pub sorted : IsSorted time_less rs

query_index-Answers :
    (slice : SortSlice) (q : TelemetryQuery) (s : Store) (found : Option (List ℕ))
    → collect_records q.start_time q.end_time s.telemetry (listed found) ≡ asked q s
    → Answers q s (query_index slice q.start_time q.end_time s.telemetry found)
unfolding collect_records
query_index-Answers slice q s none e = record { same = rw (← e) (Perm.refl []); sorted = tt }
query_index-Answers slice q s (some []) e = record { same = rw (← e) (Perm.refl []); sorted = tt }
query_index-Answers slice q s (some (i ∷ is)) e = record {
  same = rw (← e) (slice.sort-perm TelemetryRecord time_less _);
  sorted = slice.sort-IsSorted TelemetryRecord time_less _ time_less-IsStrictWeak;
}

-- On a consistent store, with any sort that meets the contract of `sort.Slice`, the answer for a GPU
-- and an optional window is the copies of exactly the records that `TelemetryQuery.Matches` accepts,
-- each as often as it was saved, with no earlier time after a later one.
pub get_telemetry_by_gpu-Answers :
    (slice : SortSlice) (q : TelemetryQuery) (s : Store)
    → IsConsistent s
    → q.gpu_uuid ≢ empty
    → (rs : List TelemetryRecord) × (get_telemetry_by_gpu slice q.gpu_uuid q.start_time q.end_time s
        ≡ ok rs)
      × Answers q s rs
unfolding get_telemetry_by_gpu
get_telemetry_by_gpu-Answers slice q s v named = (
  query_index slice q.start_time q.end_time s.telemetry (lookup q.gpu_uuid s.gpu_telemetry_index),
  ground arith,
  query_index-Answers slice q s _ (collect_indexed q s v),
)
