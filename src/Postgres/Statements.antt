-- ===== src/Postgres/Statements.antt =====
-- pkg/storage/postgres/store.go: the statements of the PostgreSQL store and their arguments.
use elastic_gpu_telemetry_pi.Common.{ℕ, suc, Option, none, some, List, [], ◌∷◌, ◌++◌, Text, codes}
use elastic_gpu_telemetry_pi.Domain.{Time, Gpu, TelemetryRecord}

pub data Value : Type 0 where
  null : Value
  text_value : Text → Value
  time_value : Time → Value

-- A condition on a column, with the number of its argument.
pub data Condition : Type 0 where
  is_equal at_least at_most : Text → ℕ → Condition

pub data Constraint : Type 0 where
  unique : List Text → Constraint
  references : Text → Text → Text → Constraint

-- `create_table` has the columns with their definitions, and `create_index` an index's name. `upsert` is
-- an `INSERT` into columns with an `ON CONFLICT` on a key that updates columns; the columns that come
-- last are set to the current time.
pub data Statement : Type 0 where
  create_table : Text → List (Text × Text) → List Constraint → Statement
  create_index : Text → Text → List Text → Statement
  upsert : Text → List Text → List Text → List Text → List Text → Statement
  select : Text → List Text → List Condition → List Text → Statement
  select_distinct_joined : Text → List Text → Text → Text → Text → Text → Statement

abbrev pub gpu_table : Text
gpu_table = codes "gpus"

abbrev pub telemetry_table : Text
telemetry_table = codes "telemetry"

abbrev pub gpu_details : List Text
gpu_details =
    codes "gpu_id"
    ∷ codes "device"
    ∷ codes "model"
    ∷ codes "hostname"
    ∷ codes "container"
    ∷ codes "pod"
    ∷ codes "namespace"
    ∷ []

abbrev pub gpu_columns : List Text
gpu_columns = codes "uuid" ∷ gpu_details

abbrev pub telemetry_key : List Text
telemetry_key = codes "gpu_uuid" ∷ codes "metric_name" ∷ codes "ingestion_time" ∷ []

abbrev pub telemetry_rest : List Text
telemetry_rest =
    codes "container"
    ∷ codes "pod"
    ∷ codes "namespace"
    ∷ codes "hostname"
    ∷ codes "model_name"
    ∷ codes "gpu_id"
    ∷ codes "device"
    ∷ []

abbrev pub telemetry_columns : List Text
telemetry_columns =
    codes "gpu_uuid" ∷ codes "metric_name" ∷ codes "value" ∷ codes "ingestion_time" ∷ telemetry_rest

abbrev pub gpu_arguments : Gpu → List Value
gpu_arguments g =
    text_value g.uuid
    ∷ text_value g.gpu_id
    ∷ text_value g.device
    ∷ text_value g.model
    ∷ text_value g.hostname
    ∷ text_value g.container
    ∷ text_value g.pod
    ∷ text_value g.namespace
    ∷ []

abbrev pub record_arguments : TelemetryRecord → List Value
record_arguments r =
    text_value r.gpu_uuid
    ∷ text_value r.metric_name
    ∷ text_value r.value
    ∷ time_value r.ingestion_time
    ∷ text_value r.container
    ∷ text_value r.pod
    ∷ text_value r.namespace
    ∷ text_value r.hostname
    ∷ text_value r.model_name
    ∷ text_value r.gpu_id
    ∷ text_value r.device
    ∷ []

abbrev pub save_gpu_statement : Statement
save_gpu_statement =
    upsert gpu_table gpu_columns (codes "uuid" ∷ []) gpu_details (codes "updated_at" ∷ [])

abbrev pub get_gpu_statement : Statement
get_gpu_statement = select gpu_table gpu_columns (is_equal (codes "uuid") 1 ∷ []) []

abbrev pub list_gpus_statement : Statement
list_gpus_statement =
    select_distinct_joined gpu_table gpu_columns telemetry_table (codes "uuid") (codes "gpu_uuid")
      (codes "uuid")

abbrev pub save_telemetry_statement : Statement
save_telemetry_statement =
    upsert telemetry_table telemetry_columns telemetry_key (codes "value" ∷ telemetry_rest) []

-- The conditions and arguments of `GetTelemetryByGPU`; a bound's number is `argIndex`.
abbrev pub add_bound :
    (Text → ℕ → Condition)
    → Option Time
    → List Condition × List Value × ℕ
    → List Condition × List Value × ℕ
add_bound compare none q = q
add_bound compare (some t) (conditions, arguments, index) = (
  conditions ++ compare (codes "ingestion_time") index ∷ [],
  arguments ++ time_value t ∷ [],
  suc index,
)

unfoldable pub telemetry_query : Text → Option Time → Option Time → List Condition × List Value × ℕ
telemetry_query gpu_uuid start end =
    add_bound at_most end
      (add_bound at_least start (is_equal (codes "gpu_uuid") 1 ∷ [], text_value gpu_uuid ∷ [], 2))

abbrev pub telemetry_statement : List Condition → Statement
telemetry_statement conditions =
    select telemetry_table telemetry_columns conditions (codes "ingestion_time" ∷ [])

unfoldable pub create_gpus : Statement
create_gpus =
    create_table gpu_table
      ((codes "uuid", codes "VARCHAR(255) PRIMARY KEY")
        ∷ (codes "gpu_id", codes "VARCHAR(50) NOT NULL")
        ∷ (codes "device", codes "VARCHAR(100) NOT NULL")
        ∷ (codes "model", codes "VARCHAR(255) NOT NULL")
        ∷ (codes "hostname", codes "VARCHAR(255) NOT NULL")
        ∷ (codes "container", codes "VARCHAR(255)")
        ∷ (codes "pod", codes "VARCHAR(255)")
        ∷ (codes "namespace", codes "VARCHAR(255)")
        ∷ (codes "created_at", codes "TIMESTAMP DEFAULT CURRENT_TIMESTAMP")
        ∷ (codes "updated_at", codes "TIMESTAMP DEFAULT CURRENT_TIMESTAMP")
        ∷ [])
      []

unfoldable pub create_telemetry : Statement
create_telemetry =
    create_table telemetry_table
      ((codes "id", codes "SERIAL PRIMARY KEY")
        ∷ (codes "gpu_uuid", codes "VARCHAR(255) NOT NULL")
        ∷ (codes "metric_name", codes "VARCHAR(255) NOT NULL")
        ∷ (codes "value", codes "VARCHAR(100) NOT NULL")
        ∷ (codes "ingestion_time", codes "TIMESTAMP NOT NULL")
        ∷ (codes "container", codes "VARCHAR(255)")
        ∷ (codes "pod", codes "VARCHAR(255)")
        ∷ (codes "namespace", codes "VARCHAR(255)")
        ∷ (codes "hostname", codes "VARCHAR(255)")
        ∷ (codes "model_name", codes "VARCHAR(255)")
        ∷ (codes "gpu_id", codes "VARCHAR(50)")
        ∷ (codes "device", codes "VARCHAR(100)")
        ∷ (codes "created_at", codes "TIMESTAMP DEFAULT CURRENT_TIMESTAMP")
        ∷ [])
      (unique telemetry_key ∷ references (codes "gpu_uuid") gpu_table (codes "uuid") ∷ [])

unfoldable pub schema : List Statement
unfolding create_gpus create_telemetry
schema =
    create_gpus
    ∷ create_telemetry
    ∷ create_index (codes "idx_telemetry_gpu_uuid") telemetry_table (codes "gpu_uuid" ∷ [])
    ∷ create_index (codes "idx_telemetry_ingestion_time") telemetry_table
        (codes "ingestion_time" ∷ [])
    ∷ create_index (codes "idx_telemetry_gpu_time") telemetry_table
        (codes "gpu_uuid" ∷ codes "ingestion_time" ∷ [])
    ∷ create_index (codes "idx_gpus_hostname") gpu_table (codes "hostname" ∷ [])
    ∷ []
