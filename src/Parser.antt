-- ===== src/Parser.antt =====
-- pkg/telemetry/parser.go: the parser of telemetry in CSV. The results of `csv.Reader.Read` are given:
-- that for the header, and those up to the end of the file. The GPUs are given as the map that is made
-- a slice at the end.
pub mod Parsing
mod Tests
use elastic_gpu_telemetry_pi.Common.{
  ℕ, suc, ◌&&◌, Bool, true, false, Option, none, some, List, [], ◌∷◌, Text, Map, insert, is_empty,
  trim_space, length, get_elem?, ◌==◌, Result, ok, err, ◌>>=◌, if◌then◌else◌,
}
use elastic_gpu_telemetry_pi.Domain.{Gpu, TelemetryRecord, empty, zero_time}

-- An index out of range panics.
pub data ParseError (E : Type 0) : Type 0 where
  header_unread : E → ParseError E
  header_length : ℕ → ParseError E
  row_unread : ℕ → E → ParseError E
  column_count : ℕ → ℕ → ParseError E
  uuid_is_empty : ℕ → ParseError E
  index_panic : ParseError E

-- The columns.
abbrev col_metric_name : ℕ
col_metric_name = 1

abbrev col_gpu_id : ℕ
col_gpu_id = 2

abbrev col_device : ℕ
col_device = 3

abbrev pub col_uuid : ℕ
col_uuid = 4

abbrev col_model_name : ℕ
col_model_name = 5

abbrev col_hostname : ℕ
col_hostname = 6

abbrev col_container : ℕ
col_container = 7

abbrev col_pod : ℕ
col_pod = 8

abbrev col_namespace : ℕ
col_namespace = 9

abbrev col_value : ℕ
col_value = 10

-- The length of `expectedHeader`.
abbrev pub column_total : ℕ
column_total = 12

-- The text without its last byte, if this is a quote.
unfoldable pub without_quote : Text → Option Text
without_quote [] = none
without_quote (c ∷ []) = if c == 34 then some [] else none
without_quote (c ∷ d ∷ s) = elim (without_quote (d ∷ s)) [ none ↦ none | some t ↦ some (c ∷ t) ]

abbrev unquote : Text → Text
unquote [] = []
unquote (c ∷ s) = if c == 34 then (elim (without_quote s) [ none ↦ c ∷ s | some t ↦ t ]) else c ∷ s

-- `trim` of `parseRow`: white space, then the quotes around the text if both are there.
unfoldable pub trim : Text → Text
trim s = unquote (trim_space s)

module _ {E : Type 0} where
  abbrev pub trimmed : Option Text → Result (ParseError E) Text
  trimmed none = err index_panic
  trimmed (some s) = ok (trim s)

  abbrev pub cell : List Text → ℕ → Result (ParseError E) Text
  cell row i = trimmed (get_elem? row i)

  -- `parseRow`, after the test of the UUID.
  unfoldable pub parse_columns : Text → List Text → Result (ParseError E) (TelemetryRecord × Gpu)
  parse_columns uuid row = cell row col_gpu_id >>= (λ gpu_id. cell row col_device >>= (λ device.
      cell row col_model_name >>= (λ model. cell row col_hostname >>= (λ hostname.
        cell row col_metric_name >>= (λ metric_name. cell row col_value >>= (λ value.
          cell row col_container >>= (λ container. cell row col_pod >>= (λ pod.
            cell row col_namespace >>= (λ namespace. ok (
              record {
                gpu_uuid = uuid;
                metric_name = metric_name;
                value = value;
                ingestion_time = zero_time;
                container = container;
                pod = pod;
                namespace = namespace;
                hostname = hostname;
                model_name = model;
                gpu_id = gpu_id;
                device = device;
              },
              record {
                uuid = uuid;
                gpu_id = gpu_id;
                device = device;
                model = model;
                hostname = hostname;
                container = empty;
                pod = empty;
                namespace = empty;
              },
            ))))))))))

  -- `parseRow`.
  unfoldable pub parse_row : ℕ → List Text → Result (ParseError E) (TelemetryRecord × Gpu)
  parse_row n row =
      cell row col_uuid
      >>= (λ uuid. if is_empty uuid then err (uuid_is_empty n) else parse_columns uuid row)

  -- The loop of `Parse`, from row `n` on.
  unfoldable pub parse_rows :
      ℕ
      → List (Result E (List Text))
      → Map Gpu
      → Result (ParseError E) (List TelemetryRecord × Map Gpu)
  parse_rows n [] gpus = ok ([], gpus)
  parse_rows n (err e ∷ rows) gpus = err (row_unread n e)
  parse_rows n (ok row ∷ rows) gpus =
      if length row == column_total
      then (parse_row n row >>= (λ r.
          parse_rows (suc n) rows (insert r.1.uuid r.1 gpus) >>= (λ t. ok (r.0 ∷ t.0, t.1))))
      else err (column_count n (length row))

  -- `Parse`.
  unfoldable pub parse :
      Result E (List Text)
      → List (Result E (List Text))
      → Result (ParseError E) (List TelemetryRecord × Map Gpu)
  parse (err e) rows = err (header_unread e)
  parse (ok header) rows =
      if length header == column_total
      then parse_rows 1 rows []
      else err (header_length (length header))
