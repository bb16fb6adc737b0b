-- ===== src/Api.antt =====
-- pkg/api: the handlers of the API gateway. A request is its path parameter and its query parameters,
-- where one that is not given is the empty string. `time.Parse` and the texts of errors are
-- parameters. A response is what `c.JSON` is given.
pub mod Validation
pub mod Middleware
pub mod Responses
mod Tests
use elastic_gpu_telemetry_pi.Common.{
  ℕ, Bool, true, false, Option, none, some, List, [], ◌∷◌, ◌++◌, map, Text, codes, is_empty, ltb,
  length, Result, ok, err, ◌>>=◌, if◌then◌else◌,
}
use elastic_gpu_telemetry_pi.Domain.{
  Time, Gpu, TelemetryRecord, DomainError, invalid_time_range, is_reversed,
}
use elastic_gpu_telemetry_pi.Storage.{Repository}
use elastic_gpu_telemetry_pi.Api.Validation.{UuidError, validate_gpu_uuid}

pub record GpuResponse : Type 0 where
  pub uuid : Text
  pub device_id : Text
  pub gpu_index : Text
  pub model_name : Text
  pub hostname : Text
  pub container : Text
  pub pod : Text
  pub namespace : Text

pub record TelemetryResponse : Type 0 where
  pub gpu_uuid : Text
  pub metric_name : Text
  pub value : Text
  pub ingestion_time : Time
  pub container : Text
  pub pod : Text
  pub namespace : Text
  pub hostname : Text
  pub model_name : Text

pub record ListGpusResponse : Type 0 where
  pub gpus : List GpuResponse
  pub count : ℕ

pub record GetTelemetryResponse : Type 0 where
  pub gpu_uuid : Text
  pub records : List TelemetryResponse
  pub count : ℕ
  pub start_time : Option Time
  pub end_time : Option Time

pub record ErrorResponse : Type 0 where
  pub error : Text
  pub message : Text
  pub code : Text
  pub timestamp : Time

-- The status and the body.
pub data Response : Type 0 where
  gpus_listed : ListGpusResponse → Response
  telemetry_listed : GetTelemetryResponse → Response
  failed : ℕ → ErrorResponse → Response

abbrev pub respond_error : Time → ℕ → Text → Text → Response
respond_error now status code message =
    failed status (record { error = message; message = message; code = code; timestamp = now })

abbrev pub respond_bad_request : Time → Text → Text → Response
respond_bad_request now code message = respond_error now 400 code message

abbrev pub respond_not_found : Time → Text → Text → Response
respond_not_found now code message = respond_error now 404 code message

abbrev pub respond_internal_error : Time → Text → Response
respond_internal_error now reason =
    respond_error now 500 (codes "INTERNAL_ERROR") (codes "Internal server error: " ++ reason)

pub data TimeRangeError : Type 0 where
  invalid_start_time invalid_end_time : Text → TimeRangeError
  reversed_range : TimeRangeError

-- An empty query parameter is no bound.
abbrev pub parse_bound :
    (Text → Result Text Time) → (Text → TimeRangeError) → Text → Result TimeRangeError (Option Time)
parse_bound parse failure [] = ok none
parse_bound parse failure (c ∷ s) = elim (parse (c ∷ s)) [
  | ok t ↦ ok (some t)
  | err e ↦ err (failure e)
]

abbrev pub in_order : Option Time → Option Time → Result TimeRangeError (Option Time × Option Time)
in_order start end = if is_reversed start end then err reversed_range else ok (start, end)

-- `parseTimeRange`.
unfoldable pub parse_time_range :
    (Text → Result Text Time) → Text → Text → Result TimeRangeError (Option Time × Option Time)
parse_time_range parse start end =
    parse_bound parse invalid_start_time start
    >>= (λ s. parse_bound parse invalid_end_time end >>= (λ e. in_order s e))

abbrev pub gpu_response : Gpu → GpuResponse
gpu_response g = record {
  uuid = g.uuid;
  device_id = g.device;
  gpu_index = g.gpu_id;
  model_name = g.model;
  hostname = g.hostname;
  container = g.container;
  pod = g.pod;
  namespace = g.namespace;
}

abbrev pub telemetry_response : TelemetryRecord → TelemetryResponse
telemetry_response r = record {
  gpu_uuid = r.gpu_uuid;
  metric_name = r.metric_name;
  value = r.value;
  ingestion_time = r.ingestion_time;
  container = r.container;
  pod = r.pod;
  namespace = r.namespace;
  hostname = r.hostname;
  model_name = r.model_name;
}

-- What the handlers take from outside: `time.Parse`, the texts of errors, and the clock.
pub record Surroundings (E : Type 0) : Type 0 where
  pub parse_time : Text → Result Text Time
  pub describe_error : E → Text
  pub describe_range : TimeRangeError → Text
  pub now : Time

module _ {S E : Type 0} (repository : Repository S E) (around : Surroundings E) where
  -- `ListGPUs`.
  unfoldable pub list_gpus : S → Response
  list_gpus s = elim (repository.lists_gpus s) [
    | err e ↦ respond_internal_error around.now (around.describe_error e)
    | ok gpus ↦ gpus_listed (record { gpus = map gpu_response gpus; count = length gpus })
  ]

  abbrev pub telemetry_body : Text → Option Time → Option Time → List TelemetryRecord → Response
  telemetry_body uuid start end records = telemetry_listed (record {
    gpu_uuid = uuid;
    records = map telemetry_response records;
    count = length records;
    start_time = start;
    end_time = end;
  })

  -- `GetTelemetryByGPU`, last part first: the answer to the records, to the check that the GPU
  -- exists, and to the two checks of the request.
  abbrev pub answer_records :
      Text → Option Time → Option Time → Result E (List TelemetryRecord) → Response
  answer_records uuid start end (err e) =
      respond_internal_error around.now (around.describe_error e)
  answer_records uuid start end (ok records) = telemetry_body uuid start end records

  abbrev pub answer_gpu : Text → Option Time → Option Time → S → Result E (Option Gpu) → Response
  answer_gpu uuid start end s (err e) = respond_internal_error around.now (around.describe_error e)
  answer_gpu uuid start end s (ok none) =
      respond_not_found around.now (codes "GPU_NOT_FOUND")
        (codes "GPU with UUID '" ++ uuid ++ codes "' not found")
  answer_gpu uuid start end s (ok (some gpu)) =
      answer_records uuid start end (repository.gets_telemetry uuid start end s)

  abbrev pub answer_range : Text → S → Result TimeRangeError (Option Time × Option Time) → Response
  answer_range uuid s (err e) =
      respond_bad_request around.now (codes "INVALID_TIME_RANGE") (around.describe_range e)
  answer_range uuid s (ok (start, end)) = answer_gpu uuid start end s (repository.gets_gpu uuid s)

  abbrev pub answer_uuid : Text → Text → Text → S → Option UuidError → Response
  answer_uuid uuid start_text end_text s (some e) =
      respond_bad_request around.now (codes "INVALID_GPU_UUID") (codes "Invalid GPU UUID")
  answer_uuid uuid start_text end_text s none =
      answer_range uuid s (parse_time_range around.parse_time start_text end_text)

  -- `GetTelemetryByGPU`.
  unfoldable pub get_telemetry : Text → Text → Text → S → Response
  get_telemetry uuid start_text end_text s =
      answer_uuid uuid start_text end_text s (validate_gpu_uuid uuid)
