-- ===== src/Pipeline/ReadPath.antt =====
-- The way of a query: the API gateway, the HTTP client of its repository, the storage service, and the
-- in-memory store.
use elastic_gpu_telemetry_pi.Common.{
  ◌≡◌, ap, ◌∙◌, Option, none, some, List, Text, lookup, Result, ok,
}
use elastic_gpu_telemetry_pi.Common.Sorting.{SortSlice}
use elastic_gpu_telemetry_pi.Domain.{Time, Gpu, TelemetryRecord, TelemetryQuery}
use elastic_gpu_telemetry_pi.Http.{HttpRequest, HttpClient}
use elastic_gpu_telemetry_pi.Memory.{Store, StoreError, found_gpu}
use elastic_gpu_telemetry_pi.Memory.Invariant.{IsConsistent}
use elastic_gpu_telemetry_pi.Memory.Queries.{Answers, get_telemetry_by_gpu-Answers}
use elastic_gpu_telemetry_pi.Storage.{Repository, memory_repository}
use elastic_gpu_telemetry_pi.StorageService.{
  StorageReply, StorageRequest, one_gpu, record_list, get_request, telemetry_request, bound_of,
}
use elastic_gpu_telemetry_pi.StorageClient
use elastic_gpu_telemetry_pi.StorageClient.{
  HttpRepository, RepositoryError, Encoding, get_of, gpu_url, telemetry_url,
}
use elastic_gpu_telemetry_pi.StorageClient.Remote.{
  bound_text, service_network, remote, get_gpu-remote, get_telemetry-remote,
}
use elastic_gpu_telemetry_pi.Api.{
  Surroundings, parse_time_range, get_telemetry, telemetry_body, answer_uuid, answer_range,
  answer_gpu, answer_records,
}
use elastic_gpu_telemetry_pi.Api.Validation.{validate_gpu_uuid}
use elastic_gpu_telemetry_pi.Api.Responses.{get_gpu_found, named_of_validate}

-- The HTTP client as the gateway's repository. Over the storage service a read leaves the state as it
-- is, so that only its result is kept.
unfoldable pub http_repository :
    {N : Type 0} → HttpClient N → Encoding → HttpRepository → Repository N RepositoryError
http_repository client encoding r = record {
  saves_gpu = λ gpu n. StorageClient.save_gpu client encoding r gpu n;
  gets_gpu = λ uuid n. (StorageClient.get_gpu client encoding r uuid n).1;
  lists_gpus = λ n. (StorageClient.list_gpus client encoding r n).1;
  saves_telemetry = λ t n. StorageClient.save_telemetry client encoding r t n;
  gets_telemetry =
      λ uuid start end n. (StorageClient.get_telemetry_by_gpu client encoding r uuid start end n).1;
}

module _ (slice : SortSlice) (keys : Store → List Text) (encoding : Encoding)
    (parse_time : Text → Result Text Time) (route : HttpRequest → StorageRequest)
    (print : StorageReply StoreError → Text) (r : HttpRepository) where
  abbrev pub store_repository : Repository Store StoreError
  store_repository = memory_repository slice keys

  -- What the router and the encoding do for the two reads of the gateway's handler.
  pub record IsReadable (uuid : Text) (start end : Option Time) (s : Store) : Type 0 where
    pub get_routed : route (get_of (gpu_url encoding r uuid)) ≡ get_request uuid
    pub telemetry_routed :
        route (get_of (telemetry_url encoding r uuid start end))
        ≡ telemetry_request uuid
            (bound_text encoding.rfc3339 start)
            (bound_text encoding.rfc3339 end)
    pub gpu_decoded :
        (g : Gpu)
        → store_repository.gets_gpu uuid s ≡ ok (some g)
        → encoding.decode_gpu (print (one_gpu g)) ≡ ok g
    pub records_decoded :
        (l : List TelemetryRecord)
        → store_repository.gets_telemetry uuid start end s ≡ ok l
        → encoding.decode_records (print (record_list l)) ≡ ok l
    pub start_parsed : bound_of parse_time (bound_text encoding.rfc3339 start) ≡ ok start
    pub end_parsed : bound_of parse_time (bound_text encoding.rfc3339 end) ≡ ok end

  abbrev pub remote_store : Repository Store RepositoryError
  remote_store =
      http_repository (service_network store_repository encoding parse_time route print) encoding r

  -- A valid request to the gateway for a GPU that was saved, over the HTTP client of its repository, the
  -- storage service and the in-memory store: it is answered with copies of exactly the records of the
  -- store that the query matches, sorted by time, whatever the store's history; where the router and
  -- the encoding carry the two reads, and the bounds of the time range are read back as they were.
  pub get_telemetry-IsRemote :
      (around : Surroundings RepositoryError) (s : Store) (uuid start_text end_text : Text)
      (start end : Option Time) (gpu : Gpu)
      → IsConsistent s
      → validate_gpu_uuid uuid ≡ none
      → parse_time_range around.parse_time start_text end_text ≡ ok (start, end)
      → lookup uuid s.gpus ≡ some gpu
      → IsReadable uuid start end s
      → (records : List TelemetryRecord) × (get_telemetry remote_store around uuid start_text
            end_text s
          ≡ telemetry_body remote_store around uuid start end records)
        × Answers (record { gpu_uuid = uuid; start_time = start; end_time = end }) s records
  unfolding get_telemetry memory_repository http_repository
  get_telemetry-IsRemote around s uuid start_text end_text start end gpu consistent valid range
        saved c =
      let q : TelemetryQuery = record { gpu_uuid = uuid; start_time = start; end_time = end } in
      let named = named_of_validate uuid valid in
      let (records, run, answers) = get_telemetry_by_gpu-Answers slice q s consistent named in
      let gets : remote_store.gets_gpu uuid s ≡ ok (found_gpu (some gpu)) =
        ap (λ x. x.1)
          (get_gpu-remote store_repository encoding parse_time route print r uuid s c.get_routed
            c.gpu_decoded)
        ∙ ap remote' (get_gpu_found uuid s (some gpu) named saved) in
      let reads : remote_store.gets_telemetry uuid start end s ≡ ok records =
        ap (λ x. x.1)
          (get_telemetry-remote store_repository encoding parse_time route print r uuid start end s
            c.telemetry_routed c.records_decoded c.start_parsed c.end_parsed)
        ∙ ap remote'' run in
      (
        records,
        ap (answer_uuid remote_store around uuid start_text end_text s) valid
            ∙ ap (answer_range remote_store around uuid s) range
            ∙ ap (answer_gpu remote_store around uuid start end s) gets
            ∙ ap (answer_records remote_store around uuid start end) reads,
        answers,
      )
    where
      remote' : Result StoreError (Option Gpu) → Result RepositoryError (Option Gpu)
      remote' = remote store_repository encoding parse_time route print

      remote'' :
          Result StoreError (List TelemetryRecord) → Result RepositoryError (List TelemetryRecord)
      remote'' = remote store_repository encoding parse_time route print
