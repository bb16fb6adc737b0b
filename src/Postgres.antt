-- ===== src/Postgres.antt =====
-- pkg/storage/postgres/store.go: the PostgreSQL store over any database. A statement is given by its
-- tables, columns and conditions; an argument is referred to by its number, as `$1` is in the source.
mod Statements
pub mod Querying
pub mod Saving
mod Tests
unfoldable pub use Statements.*
use elastic_gpu_telemetry_pi.Common.{
  ℕ, zero, suc, ◌+◌, Bool, true, false, Option, none, some, List, [], ◌∷◌, ◌++◌, Text, codes,
  is_empty, Result, ok, err, if◌then◌else◌,
}
use elastic_gpu_telemetry_pi.Domain.{Time, Gpu, TelemetryRecord}

-- `ExecContext`, and `QueryContext` with the rows that `Next` gives and `Err` at their end.
pub record Database (D : Type 0) : Type 0 where
  pub executes : Statement → List Value → D → D × Option Text
  pub queries : Statement → List Value → D → Result Text (List (List Value) × Option Text)

pub data PostgresError : Type 0 where
  invalid_gpu invalid_gpu_uuid invalid_record : PostgresError
  open_failed ping_failed schema_failed save_failed query_failed scan_failed rows_failed :
      Text → PostgresError

-- `rows.Scan` into the fields of a GPU, and of a record.
unfoldable pub scan_gpu : List Value → Result Text Gpu
scan_gpu
      (text_value uuid
        ∷ text_value gpu_id
        ∷ text_value device
        ∷ text_value model
        ∷ text_value hostname
        ∷ text_value container
        ∷ text_value pod
        ∷ text_value namespace
        ∷ []) =
    ok (record {
      uuid = uuid;
      gpu_id = gpu_id;
      device = device;
      model = model;
      hostname = hostname;
      container = container;
      pod = pod;
      namespace = namespace;
    })
scan_gpu _ = err (codes "sql: Scan error")

unfoldable pub scan_record : List Value → Result Text TelemetryRecord
scan_record
      (text_value gpu_uuid
        ∷ text_value metric_name
        ∷ text_value value
        ∷ time_value ingestion_time
        ∷ text_value container
        ∷ text_value pod
        ∷ text_value namespace
        ∷ text_value hostname
        ∷ text_value model_name
        ∷ text_value gpu_id
        ∷ text_value device
        ∷ []) =
    ok (record {
      gpu_uuid = gpu_uuid;
      metric_name = metric_name;
      value = value;
      ingestion_time = ingestion_time;
      container = container;
      pod = pod;
      namespace = namespace;
      hostname = hostname;
      model_name = model_name;
      gpu_id = gpu_id;
      device = device;
    })
scan_record _ = err (codes "sql: Scan error")

-- The loop over the rows.
unfoldable pub scan_rows :
    {A : Type 0}
    → (List Value → Result Text A)
    → List (List Value)
    → Option Text
    → Result PostgresError (List A)
scan_rows scan [] none = ok []
scan_rows scan [] (some e) = err (rows_failed e)
scan_rows scan (row ∷ rows) end =
    let rest = scan_rows scan rows end in
    elim (scan row) [
      | err e ↦ err (scan_failed e)
      | ok a ↦ elim rest [ err e ↦ err e | ok list ↦ ok (a ∷ list) ]
    ]

abbrev pub scan_all :
    {A : Type 0}
    → (List Value → Result Text A)
    → Result Text (List (List Value) × Option Text)
    → Result PostgresError (List A)
scan_all scan (err e) = err (query_failed e)
scan_all scan (ok (rows, end)) = scan_rows scan rows end

-- `QueryRowContext` with `Scan`; no row means that there is no such GPU.
abbrev pub scan_one :
    Result Text (List (List Value) × Option Text) → Result PostgresError (Option Gpu)
scan_one (err e) = err (query_failed e)
scan_one (ok ([], some e)) = err (query_failed e)
scan_one (ok ([], none)) = ok none
scan_one (ok (row ∷ rows, end)) = elim (scan_gpu row) [
  | err e ↦ err (query_failed e)
  | ok g ↦ ok (some g)
]

abbrev pub saved : {D : Type 0} → D × Option Text → D × Option PostgresError
saved (d, none) = (d, none)
saved (d, some e) = (d, some (save_failed e))

module _ {D : Type 0} (db : Database D) where
  abbrev pub continues : (D → D × Option PostgresError) → D × Option Text → D × Option PostgresError
  continues rest (d, none) = rest d
  continues rest (d, some e) = (d, some (schema_failed e))

  -- `initSchema`, for the statements that are left.
  unfoldable pub init_schema : List Statement → D → D × Option PostgresError
  init_schema [] d = (d, none)
  init_schema (s ∷ ss) d = continues (λ t. init_schema ss t) (db.executes s [] d)

  abbrev pub initialised : D × Option PostgresError → Result PostgresError D
  initialised (d, none) = ok d
  initialised (d, some e) = err e

  -- `NewStore`, given the results of `sql.Open` and of the ping.
  unfoldable pub new_postgres_store : Result Text D → Option Text → Result PostgresError D
  new_postgres_store (err e) ping = err (open_failed e)
  new_postgres_store (ok d) (some e) = err (ping_failed e)
  new_postgres_store (ok d) none = initialised (init_schema schema d)

  unfoldable pub save_gpu : Option Gpu → D → D × Option PostgresError
  save_gpu none d = (d, some invalid_gpu)
  save_gpu (some g) d =
      if is_empty g.uuid
      then (d, some invalid_gpu_uuid)
      else saved (db.executes save_gpu_statement (gpu_arguments g) d)

  unfoldable pub get_gpu : Text → D → Result PostgresError (Option Gpu)
  get_gpu uuid d =
      if is_empty uuid
      then err invalid_gpu_uuid
      else scan_one (db.queries get_gpu_statement (text_value uuid ∷ []) d)

  unfoldable pub list_gpus : D → Result PostgresError (List Gpu)
  list_gpus d = scan_all scan_gpu (db.queries list_gpus_statement [] d)

  unfoldable pub save_telemetry : Option TelemetryRecord → D → D × Option PostgresError
  save_telemetry none d = (d, some invalid_record)
  save_telemetry (some r) d =
      if is_empty r.gpu_uuid
      then (d, some invalid_gpu_uuid)
      else saved (db.executes save_telemetry_statement (record_arguments r) d)

  unfoldable pub get_telemetry_by_gpu :
      Text → Option Time → Option Time → D → Result PostgresError (List TelemetryRecord)
  get_telemetry_by_gpu gpu_uuid start end d =
      let q : List Condition × List Value × ℕ = telemetry_query gpu_uuid start end in
      if is_empty gpu_uuid
      then err invalid_gpu_uuid
      else scan_all scan_record (db.queries (telemetry_statement q.0) q.1 d)
