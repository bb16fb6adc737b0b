-- ===== src/Postgres/Tests.antt =====
-- Runs of the PostgreSQL store over two small databases.
use mathlib.Core.List.{Perm}
use elastic_gpu_telemetry_pi.Common.{
  Bool, true, false, All, arith, subst, fun_ext, ◌∙◌, ◌⊎◌, inr, text_eq, text_eq_iff, ℕ, suc, sym,
  ◌≡◌, inl, refl, ap, none, some, List, [], ◌∷◌, map, keep, Option, Text, codes, ok, err,
}
use elastic_gpu_telemetry_pi.Common.Sorting.{IsSorted, IsStrictWeak}
use elastic_gpu_telemetry_pi.Common.Insertion.{insertion_sort}
use elastic_gpu_telemetry_pi.Domain.{Gpu, TelemetryRecord, matches, empty}
use elastic_gpu_telemetry_pi.Memory.{time_less}
use elastic_gpu_telemetry_pi.Memory.Queries.{time_less-IsStrictWeak}
use elastic_gpu_telemetry_pi.Postgres.{
  Value, time_value, Condition, Statement, upsert, select, create_table, Database, schema_failed,
  save_gpu, get_telemetry_by_gpu, init_schema, new_postgres_store, schema, create_gpus,
  create_telemetry,
}
use elastic_gpu_telemetry_pi.Postgres.Saving.{IsKeeping, IsRead, get_gpu-save_gpu}
use elastic_gpu_telemetry_pi.Postgres.Querying.{
  column, selected, is_time_column, comes_before, IsSelecting, get_telemetry_by_gpu-selects,
}

abbrev uuid : Text
uuid = codes "GPU-1"

abbrev gpu : Gpu
gpu = record {
  uuid = uuid;
  gpu_id = codes "0";
  device = codes "nvidia0";
  model = codes "H100";
  hostname = codes "h1";
  container = empty;
  pod = empty;
  namespace = empty;
}

-- A database with one row, the last that was written.
abbrev write : Statement → List Value → Option (List Value) → Option (List Value) × Option Text
write (upsert table columns key updated stamped) values d = (some values, none)
write _ values d = (d, none)

abbrev rows_of : Option (List Value) → List (List Value)
rows_of none = []
rows_of (some row) = row ∷ []

abbrev one_row : Database (Option (List Value))
one_row = record { executes = write; queries = λ s values d. ok (rows_of d, none) }

one_row-IsKeeping : IsKeeping one_row
one_row-IsKeeping = record {
  kept = λ table key details stamped k texts d d' e. inl (ap (λ r. ok (rows_of r.0, none)) (sym e));
}

saves : (save_gpu one_row (some gpu) none).1 ≡ none
unfolding save_gpu
saves = refl

get_gpu-save_gpu_example : IsRead one_row one_row-IsKeeping gpu (save_gpu one_row (some gpu) none).0
get_gpu-save_gpu_example = get_gpu-save_gpu one_row one_row-IsKeeping gpu none saves

abbrev reading : ℕ → TelemetryRecord
reading time = record {
  gpu_uuid = uuid;
  metric_name = codes "DCGM_FI_DEV_GPU_UTIL";
  value = codes "1";
  ingestion_time = time;
  container = empty;
  pod = empty;
  namespace = empty;
  hostname = empty;
  model_name = empty;
  gpu_id = empty;
  device = empty;
}

time_column :
    (r : TelemetryRecord) → column r (codes "ingestion_time") ≡ time_value r.ingestion_time
unfolding column text_eq
time_column r = refl

-- An order by times.
abbrev less_of : List Text → TelemetryRecord → TelemetryRecord → Bool
less_of [] r t = false
less_of (name ∷ order) r t = time_less r t

less_of_cases :
    (order : List Text) (r t : TelemetryRecord)
    → (less_of order r t ≡ false) ⊎ (less_of order r t ≡ time_less r t)
less_of_cases [] r t = inl refl
less_of_cases (name ∷ order) r t = inr refl

comes_before-less_of :
    (order : List Text) (r t : TelemetryRecord)
    → All (λ name. is_time_column name ≡ true) order
    → comes_before order r t ≡ less_of order r t
unfolding comes_before
comes_before-less_of [] r t h = refl
comes_before-less_of (name ∷ order) r t (h, hs) =
    ground (arith, times r, times t, comes_before-less_of order r t hs, less_of_cases order r t)
  where
    times : (x : TelemetryRecord) → column x name ≡ time_value x.ingestion_time
    times x = ap (column x) ((text_eq_iff name (codes "ingestion_time")).0 h) ∙ time_column x

less_of-IsStrictWeak : (order : List Text) → IsStrictWeak (less_of order)
less_of-IsStrictWeak [] = record { asymm = λ x y h. cc; negtrans = λ x y z h k. refl }
less_of-IsStrictWeak (name ∷ order) = time_less-IsStrictWeak

-- A database with a table of records, which sorts by times.
abbrev found : List Condition → List Text → List Value → List TelemetryRecord → List TelemetryRecord
found conditions order values d =
    insertion_sort.sort TelemetryRecord (less_of order) (keep (selected conditions values) d)

abbrev answer : Statement → List Value → List TelemetryRecord → List (List Value)
answer (select table columns conditions order) values d =
    map (λ r. map (column r) columns) (found conditions order values d)
answer _ values d = []

abbrev one_table : Database (List TelemetryRecord)
one_table = record {
  executes = λ s values d. (d, none);
  queries = λ s values d. ok (answer s values d, none);
}

one_table-IsSelecting : IsSelecting one_table (λ d. d)
one_table-IsSelecting = record {
  rows = λ columns conditions order values d named fitting counted ordered. (
    found conditions order values d,
    refl,
    insertion_sort.sort-perm TelemetryRecord (less_of order) (keep (selected conditions values) d),
    subst (λ less. IsSorted less (found conditions order values d))
        (fun_ext (λ r. fun_ext (λ t. sym (comes_before-less_of order r t ordered))))
        (insertion_sort.sort-IsSorted TelemetryRecord (less_of order)
          (keep (selected conditions values) d) (less_of-IsStrictWeak order)),
  );
}

abbrev table : List TelemetryRecord
table = reading 9 ∷ reading 3 ∷ reading 6 ∷ []

get_telemetry_by_gpu-selects_example :
    (l : List TelemetryRecord) × (get_telemetry_by_gpu one_table uuid (some 4) none table ≡ ok l)
    × Perm l
        (keep (matches (record { gpu_uuid = uuid; start_time = some 4; end_time = none })) table)
    × IsSorted time_less l
get_telemetry_by_gpu-selects_example =
    get_telemetry_by_gpu-selects one_table (λ d. d) one_table-IsSelecting uuid (some 4) none table
      refl

-- The schema stops at the first statement that fails.
abbrev refuses : Statement → List Value → ℕ → ℕ × Option Text
refuses (create_table name columns constraints) values d = (suc d, none)
refuses _ values d = (d, some (codes "no index"))

abbrev no_index : Database ℕ
no_index = record { executes = refuses; queries = λ s values d. ok ([], none) }

schema_run : new_postgres_store no_index (ok 0) none ≡ err (schema_failed (codes "no index"))
unfolding new_postgres_store init_schema schema create_gpus create_telemetry
schema_run = refl
