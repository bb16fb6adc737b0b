-- ===== src/Postgres/Querying.antt =====
-- pkg/storage/postgres/store.go: the query that `GetTelemetryByGPU` builds, and its rows.
use mathlib.Core.List.{Perm}
use elastic_gpu_telemetry_pi.Common.{
  ℕ, zero, suc, ◌≡◌, refl, ap, subst, ◌∙◌, fun_ext, Bool, true, false, ◌&&◌, Option, none, some,
  List, [], ◌∷◌, map, keep, arith, Text, codes, is_empty, text_eq, text_eq_refl, leb, ltb, ok, not,
  ◌||◌, All, length, ◌≤◌, if◌then◌else◌,
}
use elastic_gpu_telemetry_pi.Common.Sorting.{IsSorted}
use elastic_gpu_telemetry_pi.Domain.{Time, TelemetryRecord, matches}
use elastic_gpu_telemetry_pi.Memory.{time_less}
use elastic_gpu_telemetry_pi.Postgres.{
  Value, telemetry_table, telemetry_columns, select, null, text_value, time_value, Condition,
  is_equal, at_least, at_most, Database, record_arguments, scan_record, scan_rows, scan_all,
  telemetry_query, get_telemetry_by_gpu,
}

-- Conditions, as SQL reads them

-- The argument `$n`; the first has number 1.
abbrev pub argument : ℕ → List Value → Value
argument n [] = null
argument zero (v ∷ vs) = null
argument (suc zero) (v ∷ vs) = v
argument (suc (suc n)) (v ∷ vs) = argument (suc n) vs

-- A record's row in the table, by the names of the columns that the store's schema gives them.
abbrev pub row : TelemetryRecord → List (Text × Value)
row r =
    (codes "gpu_uuid", text_value r.gpu_uuid)
    ∷ (codes "metric_name", text_value r.metric_name)
    ∷ (codes "value", text_value r.value)
    ∷ (codes "ingestion_time", time_value r.ingestion_time)
    ∷ (codes "container", text_value r.container)
    ∷ (codes "pod", text_value r.pod)
    ∷ (codes "namespace", text_value r.namespace)
    ∷ (codes "hostname", text_value r.hostname)
    ∷ (codes "model_name", text_value r.model_name)
    ∷ (codes "gpu_id", text_value r.gpu_id)
    ∷ (codes "device", text_value r.device)
    ∷ []

-- A column, by its name.
abbrev pub cell : List (Text × Value) → Text → Option Value
cell [] name = none
cell ((n, v) ∷ cells) name = if text_eq n name then some v else cell cells name

abbrev pub value_of : Option Value → Value
value_of none = null
value_of (some v) = v

unfoldable pub column : TelemetryRecord → Text → Value
column r name = value_of (cell (row r) name)

-- The table has the column.
unfoldable pub is_column : Text → Bool
is_column name = is_named telemetry_columns
  where
    is_named : List Text → Bool
    is_named [] = false
    is_named (n ∷ ns) = text_eq n name || is_named ns

-- Comparisons; one with null does not hold.
abbrev pub equals : Value → Value → Bool
equals (text_value s) (text_value t) = text_eq s t
equals (time_value s) (time_value t) = leb s t && leb t s
equals _ _ = false

abbrev pub is_before : Value → Value → Bool
is_before (time_value s) (time_value t) = leb s t
is_before _ _ = false

abbrev pub holds : List Value → TelemetryRecord → Condition → Bool
holds arguments r (is_equal name n) = equals (column r name) (argument n arguments)
holds arguments r (at_least name n) = is_before (argument n arguments) (column r name)
holds arguments r (at_most name n) = is_before (column r name) (argument n arguments)

unfoldable pub selected : List Condition → List Value → TelemetryRecord → Bool
selected [] arguments r = true
selected (c ∷ cs) arguments r = holds arguments r c && selected cs arguments r

abbrev pub is_time_column : Text → Bool
is_time_column name = text_eq name (codes "ingestion_time")

-- `ORDER BY` columns of times, as SQL reads it: the first column in which the rows differ decides.
abbrev pub precedes : Value → Value → Bool
precedes (time_value s) (time_value t) = ltb s t
precedes _ _ = false

unfoldable pub comes_before : List Text → TelemetryRecord → TelemetryRecord → Bool
comes_before [] r t = false
comes_before (name ∷ order) r t =
    let rest = comes_before order r t in
    precedes (column r name) (column t name)
    || (not (precedes (column t name) (column r name)) && rest)

-- The condition is on a column of the table, and has an argument.
abbrev pub condition_column : Condition → Text × ℕ
condition_column (is_equal name n) = (name, n)
condition_column (at_least name n) = (name, n)
condition_column (at_most name n) = (name, n)

abbrev pub IsFitting : List Value → Condition → Type 0
IsFitting arguments c =
    let (name, n) = condition_column c in (is_column name ≡ true) × (1 ≤ n) × (n ≤ length arguments)

-- The highest placeholder of the conditions: a statement takes as many arguments.
unfoldable pub placeholders : List Condition → ℕ
placeholders [] = 0
placeholders (c ∷ cs) =
    let (name, n) = condition_column c in
    let rest = placeholders cs in if ltb rest n then n else rest

-- The query

selected-telemetry_query :
    (uuid : Text) (start end : Option Time) (r : TelemetryRecord)
    → let q : List Condition × List Value × ℕ = telemetry_query uuid start end in
      selected q.0 q.1 r
      ≡ matches (record { gpu_uuid = uuid; start_time = start; end_time = end }) r
unfolding selected column telemetry_query matches text_eq
selected-telemetry_query uuid none none r = ground arith
selected-telemetry_query uuid (some s) none r = ground arith
selected-telemetry_query uuid none (some e) r = ground arith
selected-telemetry_query uuid (some s) (some e) r = ground arith

scan_rows-record_arguments :
    (l : List TelemetryRecord) → scan_rows scan_record (map record_arguments l) none ≡ ok l
unfolding scan_rows scan_record
scan_rows-record_arguments [] = refl
scan_rows-record_arguments (r ∷ l) = rw (scan_rows-record_arguments l) refl

-- A database whose table of records is `contents`, and that answers a `SELECT` as SQL says: for columns
-- and conditions that the table has, as many arguments as placeholders and an order by times, it gives
-- the rows for which the conditions hold, of each the columns that are named, in that order; in the
-- order of `ORDER BY`, and in any order without it.
pub record IsSelecting {D : Type 0} (db : Database D) (contents : D → List TelemetryRecord)
    : Type 0 where
  pub rows :
      (columns : List Text) (conditions : List Condition) (order : List Text)
      (arguments : List Value) (d : D)
      → All (λ name. is_column name ≡ true) columns
      → All (IsFitting arguments) conditions
      → length arguments ≡ placeholders conditions
      → All (λ name. is_time_column name ≡ true) order
      → (l : List TelemetryRecord) × (db.queries
            (select telemetry_table columns conditions order)
            arguments
            d
          ≡ ok (map (λ r. map (column r) columns) l, none))
        × Perm l (keep (selected conditions arguments) (contents d))
        × IsSorted (comes_before order) l

-- The placeholders of the query have arguments, whichever bounds are given.
telemetry_query-IsFitting :
    (uuid : Text) (start end : Option Time)
    → let q : List Condition × List Value × ℕ = telemetry_query uuid start end in
      All (IsFitting q.1) q.0
unfolding telemetry_query is_column text_eq
telemetry_query-IsFitting uuid none none = ((refl, omega arith, omega arith), tt)
telemetry_query-IsFitting uuid (some s) none =
    ((refl, omega arith, omega arith), ((refl, omega arith, omega arith), tt))
telemetry_query-IsFitting uuid none (some e) =
    ((refl, omega arith, omega arith), ((refl, omega arith, omega arith), tt))
telemetry_query-IsFitting uuid (some s) (some e) = (
  (refl, omega arith, omega arith),
  ((refl, omega arith, omega arith), ((refl, omega arith, omega arith), tt)),
)

telemetry_query-placeholders :
    (uuid : Text) (start end : Option Time)
    → let q : List Condition × List Value × ℕ = telemetry_query uuid start end in
      length q.1 ≡ placeholders q.0
unfolding telemetry_query placeholders
telemetry_query-placeholders uuid none none = refl
telemetry_query-placeholders uuid (some s) none = refl
telemetry_query-placeholders uuid none (some e) = refl
telemetry_query-placeholders uuid (some s) (some e) = refl

-- What the `SELECT` of the code names, and the order that it asks for.
telemetry_columns-are_columns : All (λ name. is_column name ≡ true) telemetry_columns
unfolding is_column text_eq
telemetry_columns-are_columns =
    (refl, (refl, (refl, (refl, (refl, (refl, (refl, (refl, (refl, (refl, (refl, tt)))))))))))

columns-record_arguments :
    (r : TelemetryRecord) → map (column r) telemetry_columns ≡ record_arguments r
unfolding column text_eq
columns-record_arguments r = refl

comes_before-time_less :
    (r t : TelemetryRecord) → comes_before (codes "ingestion_time" ∷ []) r t ≡ time_less r t
unfolding comes_before column text_eq
comes_before-time_less r t = ground arith

-- Over such a database `GetTelemetryByGPU` succeeds for each GPU that has a name, and returns exactly
-- the records of the table that `TelemetryQuery.Matches` accepts, each as often as it is there, oldest
-- first. So the numbers of the placeholders in the query fit its arguments, whichever bounds are given,
-- the query asks for the order, and the columns that it names are scanned into the fields of the record
-- that they hold.
pub get_telemetry_by_gpu-selects :
    {D : Type 0} (db : Database D) (contents : D → List TelemetryRecord)
    → IsSelecting db contents
    → (uuid : Text) (start end : Option Time) (d : D) → is_empty uuid ≡ false
    → (l : List TelemetryRecord) × (get_telemetry_by_gpu db uuid start end d ≡ ok l)
      × Perm l (
          keep
            (matches (record { gpu_uuid = uuid; start_time = start; end_time = end }))
            (contents d))
      × IsSorted time_less l
unfolding get_telemetry_by_gpu
get_telemetry_by_gpu-selects db contents selecting uuid start end d named =
    let q : List Condition × List Value × ℕ = telemetry_query uuid start end in
    let order : List Text = codes "ingestion_time" ∷ [] in
    let (l, answered, same, sorted) =
      selecting.rows telemetry_columns q.0 order q.1 d telemetry_columns-are_columns
        (telemetry_query-IsFitting uuid start end) (telemetry_query-placeholders uuid start end)
        ordered in
    (
      l,
      rw named (
          ap (scan_all scan_record) answered
          ∙ ap (λ f. scan_rows scan_record (map f l) none) (fun_ext columns-record_arguments)
          ∙ scan_rows-record_arguments l),
      subst (λ f. Perm l (keep f (contents d))) (fun_ext (selected-telemetry_query uuid start end))
          same,
      subst (λ less. IsSorted less l) (fun_ext (λ r. fun_ext (comes_before-time_less r))) sorted,
    )
  where
    ordered : All (λ name. is_time_column name ≡ true) (codes "ingestion_time" ∷ [])
    ordered = (text_eq_refl (codes "ingestion_time"), tt)
