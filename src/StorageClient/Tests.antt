-- ===== src/StorageClient/Tests.antt =====
-- Runs of the HTTP client of the storage service at concrete inputs.
use elastic_gpu_telemetry_pi.Common.{
  refl, ap, none, some, Text, codes, text_eq, Result, ok, err, [], ◌∷◌, Option, if◌then◌else◌,
}
use elastic_gpu_telemetry_pi.Common.Insertion.{insertion_sort}
use elastic_gpu_telemetry_pi.Domain.{Time, Gpu, TelemetryRecord, empty}
use elastic_gpu_telemetry_pi.Http.{HttpRequest, Method, get, post}
use elastic_gpu_telemetry_pi.Memory.{Store, StoreError, new_store_with_max_records}
use elastic_gpu_telemetry_pi.Storage.{Repository, memory_repository}
use elastic_gpu_telemetry_pi.StorageService.{
  StorageReply, StorageRequest, list_request, get_request, save_gpu_request, save_telemetry_request,
  telemetry_request,
}
use elastic_gpu_telemetry_pi.StorageClient.{HttpRepository, Encoding, gpus_url, gpu_url}
use elastic_gpu_telemetry_pi.StorageClient.Remote.{IsRemote, IsCarried, handle-IsRemote}

abbrev uuid : Text
uuid = codes "GPU-1"

abbrev reading : TelemetryRecord
reading = record {
  gpu_uuid = uuid;
  metric_name = codes "DCGM_FI_DEV_GPU_UTIL";
  value = codes "1";
  ingestion_time = 10;
  container = empty;
  pod = empty;
  namespace = empty;
  hostname = empty;
  model_name = empty;
  gpu_id = empty;
  device = empty;
}

abbrev gpu : Gpu
gpu = record {
  uuid = uuid;
  gpu_id = codes "0";
  device = codes "nvidia0";
  model = codes "H100";
  hostname = codes "h1";
  container = empty;
  pod = empty;
  namespace = empty;
}

abbrev repository : Repository Store StoreError
repository = memory_repository insertion_sort (λ s. uuid ∷ [])

-- The store behind the service has the GPU and its record.
abbrev store : Store
store =
    let with_gpu = (repository.saves_gpu gpu (new_store_with_max_records 5)).0 in
    (repository.saves_telemetry reading with_gpu).0

abbrev as_text : {A : Type 0} → Result StoreError A → Result Text A
as_text (ok a) = ok a
as_text (err e) = err []

abbrev found : Result StoreError (Option Gpu) → Result Text Gpu
found (ok (some g)) = ok g
found _ = err []

-- An encoding of the values that the store has.
abbrev encoding : Encoding
encoding = record {
  marshal_gpu = λ g. ok (codes "gpu");
  marshal_record = λ t. ok (codes "record");
  decode_gpu = λ text. found (repository.gets_gpu uuid store);
  decode_gpus = λ text. as_text (repository.lists_gpus store);
  decode_records = λ text. as_text (repository.gets_telemetry uuid (some 5) none store);
  path_escape = λ text. text;
  with_query = λ q url. url;
  rfc3339 = λ t. codes "five";
}

abbrev parse_time : Text → Result Text Time
parse_time text = ok 5

abbrev client : HttpRepository
client = record { base_url = codes "http://s" }

abbrev route_get : Text → StorageRequest
route_get url =
    if text_eq url (gpus_url client)
    then list_request
    else if text_eq url (gpu_url encoding client uuid)
    then get_request uuid
    else telemetry_request uuid (codes "five") []

abbrev route_post : Text → StorageRequest
route_post url =
    if text_eq url (gpus_url client)
    then save_gpu_request (ok gpu)
    else save_telemetry_request (ok reading)

abbrev route_of : Method → Text → StorageRequest
route_of get url = route_get url
route_of post url = route_post url

abbrev route : HttpRequest → StorageRequest
route request = route_of request.method request.url

abbrev print : StorageReply StoreError → Text
print a = []

call-IsCarried :
    IsCarried repository encoding parse_time route print client uuid (some 5) none gpu reading store
unfolding text_eq
call-IsCarried = record {
  list_routed = refl;
  get_routed = refl;
  telemetry_routed = refl;
  gpu_text = codes "gpu";
  gpu_encoded = refl;
  gpu_routed = refl;
  record_text = codes "record";
  record_encoded = refl;
  record_routed = refl;
  gpus_decoded = λ l h. ap as_text h;
  gpu_decoded = λ g h. ap found h;
  records_decoded = λ l h. ap as_text h;
  start_parsed = refl;
  end_parsed = refl;
}

handle-IsRemote_example :
    IsRemote repository encoding parse_time route print client uuid (some 5) none gpu reading store
handle-IsRemote_example =
    handle-IsRemote repository encoding parse_time route print client uuid (some 5) none gpu reading
      store call-IsCarried
