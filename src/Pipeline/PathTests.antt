-- ===== src/Pipeline/PathTests.antt =====
-- Runs of the gateway over the HTTP client of the storage service at concrete inputs.
use elastic_gpu_telemetry_pi.Common.{
  Option, Result, ok, err, ap, text_eq, if◌then◌else◌, lookup, insert, strip_prefix, trim_space,
  ◌≡◌, refl, none, some, Text, codes, List, [], ◌∷◌,
}
use elastic_gpu_telemetry_pi.Common.Insertion.{insertion_sort}
use elastic_gpu_telemetry_pi.Domain.{Time, Gpu, TelemetryRecord, empty}
use elastic_gpu_telemetry_pi.Memory.{Store, new_store_with_max_records}
use elastic_gpu_telemetry_pi.Storage.{memory_repository}
use elastic_gpu_telemetry_pi.Http.{HttpRequest}
use elastic_gpu_telemetry_pi.Memory.{StoreError, save_gpu, save_telemetry, make_room, append_record}
use elastic_gpu_telemetry_pi.Memory.Eviction.{
  Call, saves_gpu, saves_telemetry, run, step, run-new_store-IsConsistent,
}
use elastic_gpu_telemetry_pi.Memory.Queries.{Answers}
use elastic_gpu_telemetry_pi.StorageService.{
  StorageReply, StorageRequest, get_request, telemetry_request,
}
use elastic_gpu_telemetry_pi.StorageClient.{HttpRepository, RepositoryError, Encoding, gpu_url}
use elastic_gpu_telemetry_pi.Api.{Surroundings, parse_time_range, get_telemetry, telemetry_body}
use elastic_gpu_telemetry_pi.Api.Validation.{
  validate_gpu_uuid, validate_trimmed, has_prefix, gpu_uuid_pattern, hex_then, contains_dangerous,
}
use elastic_gpu_telemetry_pi.Pipeline.ReadPath.{IsReadable, remote_store, get_telemetry-IsRemote}

abbrev pub reading : Text → TelemetryRecord
reading uuid = record {
  gpu_uuid = uuid;
  metric_name = codes "DCGM_FI_DEV_GPU_UTIL";
  value = codes "1";
  ingestion_time = 10;
  container = empty;
  pod = empty;
  namespace = empty;
  hostname = empty;
  model_name = empty;
  gpu_id = empty;
  device = empty;
}

abbrev pub served_uuid : Text
served_uuid = codes "GPU-5fd4f087"

abbrev served : Gpu
served = record {
  uuid = served_uuid;
  gpu_id = codes "0";
  device = codes "nvidia0";
  model = codes "H100";
  hostname = empty;
  container = empty;
  pod = empty;
  namespace = empty;
}

-- The store behind the storage service has the GPU and two of its records.
abbrev saves : List Call
saves =
    saves_gpu (some served)
    ∷ saves_telemetry (some (reading served_uuid))
    ∷ saves_telemetry (some (record (reading served_uuid) { ingestion_time = 70 }))
    ∷ []

abbrev store : Store
store = run saves (new_store_with_max_records 5)

abbrev pub keys : Store → List Text
keys s = []

abbrev as_text : {A : Type 0} → Result StoreError A → Result Text A
as_text (ok a) = ok a
as_text (err e) = err []

abbrev found : Result StoreError (Option Gpu) → Result Text Gpu
found (ok (some g)) = ok g
found _ = err []

-- An encoding of the values that the store has, and of times by one byte.
abbrev pub encoding : Encoding
encoding = record {
  marshal_gpu = λ g. ok (codes "gpu");
  marshal_record = λ t. ok (codes "record");
  decode_gpu = λ text. found ((memory_repository insertion_sort keys).gets_gpu served_uuid store);
  decode_gpus = λ text. as_text ((memory_repository insertion_sort keys).lists_gpus store);
  decode_records = λ text.
      as_text
        ((memory_repository insertion_sort keys).gets_telemetry served_uuid none (some 50) store);
  path_escape = λ text. text;
  with_query = λ q url. url;
  rfc3339 = λ t. t ∷ [];
}

abbrev pub parse_time : Text → Result Text Time
parse_time [] = err empty
parse_time (c ∷ s) = ok c

abbrev pub client : HttpRepository
client = record { base_url = codes "http://s" }

abbrev route : HttpRequest → StorageRequest
route request =
    if text_eq request.url (gpu_url encoding client served_uuid)
    then get_request served_uuid
    else telemetry_request served_uuid [] (50 ∷ [])

abbrev pub print : StorageReply StoreError → Text
print a = []

abbrev around : Surroundings RepositoryError
around = record {
  parse_time = parse_time;
  describe_error = λ e. empty;
  describe_range = λ e. empty;
  now = 30;
}

store-IsReadable :
    IsReadable insertion_sort keys encoding parse_time route print client served_uuid none
      (some 50)
      store
unfolding text_eq
store-IsReadable = record {
  get_routed = refl;
  telemetry_routed = refl;
  gpu_decoded = λ g h. ap found h;
  records_decoded = λ l h. ap as_text h;
  start_parsed = refl;
  end_parsed = refl;
}

accepted : validate_gpu_uuid served_uuid ≡ none
unfolding validate_gpu_uuid validate_trimmed has_prefix trim_space strip_prefix gpu_uuid_pattern
    hex_then contains_dangerous
accepted = refl

in_range : parse_time_range parse_time [] (codes "2") ≡ ok (none, some 50)
unfolding parse_time_range
in_range = refl

lookup-served : lookup served_uuid store.gpus ≡ some served
unfolding lookup run step save_gpu save_telemetry make_room append_record insert
    new_store_with_max_records text_eq
lookup-served = refl

get_telemetry-IsRemote_example :
    (records : List TelemetryRecord) × (get_telemetry
        (remote_store insertion_sort keys encoding parse_time route print client)
        around
        served_uuid
        []
        (codes "2")
        store
      ≡ telemetry_body
          (remote_store insertion_sort keys encoding parse_time route print client)
          around
          served_uuid
          none
          (some 50)
          records)
    × Answers
        (record { gpu_uuid = served_uuid; start_time = none; end_time = some 50 })
        store
        records
get_telemetry-IsRemote_example =
    get_telemetry-IsRemote insertion_sort keys encoding parse_time route print client around store
      served_uuid [] (codes "2") none (some 50) served (run-new_store-IsConsistent 5 saves) accepted
      in_range lookup-served store-IsReadable
