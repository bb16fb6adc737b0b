-- ===== src/StorageClient.antt =====
-- pkg/storage/httpclient.go: the HTTP client of the storage service. The JSON encoding, `url.PathEscape`,
-- the query's encoding and `time.Format` are parameters.
pub mod Remote
mod Tests
use elastic_gpu_telemetry_pi.Common.{
  ℕ, Bool, ◌&&◌, not, Option, none, some, List, [], ◌∷◌, ◌++◌, Text, codes, ◌==◌, Result, ok, err,
  if◌then◌else◌,
}
use elastic_gpu_telemetry_pi.Domain.{Time, Gpu, TelemetryRecord}
use elastic_gpu_telemetry_pi.Http.{HttpRequest, HttpResponse, HttpClient, get, post}

pub record HttpRepository : Type 0 where
  pub base_url : Text

unfoldable pub new_http_repository : Text → HttpRepository
new_http_repository base_url = record { base_url = base_url }

pub data RepositoryError : Type 0 where
  marshal_failed request_failed send_failed decode_failed : Text → RepositoryError
  status_error : ℕ → Text → RepositoryError

-- What the client uses of encoding/json, net/url and time. `with_query` sets query parameters of a URL.
pub record Encoding : Type 0 where
  pub marshal_gpu : Gpu → Result Text Text
  pub marshal_record : TelemetryRecord → Result Text Text
  pub decode_gpu : Text → Result Text Gpu
  pub decode_gpus : Text → Result Text (List Gpu)
  pub decode_records : Text → Result Text (List TelemetryRecord)
  pub path_escape : Text → Text
  pub with_query : List (Text × Text) → Text → Text
  pub rfc3339 : Time → Text

abbrev pub gpus_url : HttpRepository → Text
gpus_url r = r.base_url ++ codes "/api/v1/storage/gpus"

abbrev pub get_of : Text → HttpRequest
get_of url = record { method = get; url = url; body = [] }

abbrev pub post_of : Text → Text → HttpRequest
post_of url json = record { method = post; url = url; body = json }

module _ (encoding : Encoding) where
  abbrev pub gpu_url : HttpRepository → Text → Text
  gpu_url r uuid = gpus_url r ++ codes "/" ++ encoding.path_escape uuid

  abbrev pub time_parameter : Text → Option Time → List (Text × Text)
  time_parameter name none = []
  time_parameter name (some t) = (name, encoding.rfc3339 t) ∷ []

  abbrev pub telemetry_url : HttpRepository → Text → Option Time → Option Time → Text
  telemetry_url r uuid start end =
      encoding.with_query
        (time_parameter (codes "start_time") start ++ time_parameter (codes "end_time") end)
        (gpu_url r uuid ++ codes "/telemetry")

-- The body of a response with status 200.
abbrev pub decoded : {A : Type 0} → (Text → Result Text A) → HttpResponse → Result RepositoryError A
decoded decode r =
    if r.status == 200
    then elim (decode r.body) [ err e ↦ err (decode_failed e) | ok a ↦ ok a ]
    else err (status_error r.status r.body)

abbrev pub save_outcome : HttpResponse → Option RepositoryError
save_outcome r =
    if not (r.status == 200) && not (r.status == 201)
    then some (status_error r.status r.body)
    else none

-- 404 means that there is no such GPU.
abbrev pub gpu_found : (Text → Result Text Gpu) → HttpResponse → Result RepositoryError (Option Gpu)
gpu_found decode r =
    if r.status == 404
    then ok none
    else elim (decoded decode r) [ err e ↦ err e | ok g ↦ ok (some g) ]

module _ {N : Type 0} (client : HttpClient N) where
  abbrev pub on_reply :
      {A : Type 0}
      → (HttpResponse → Result RepositoryError A)
      → N × Result Text HttpResponse
      → N × Result RepositoryError A
  on_reply read (n, err e) = (n, err (send_failed e))
  on_reply read (n, ok r) = (n, read r)

  -- A request that reads. The URL that `NewRequestWithContext` checks has no query yet.
  unfoldable pub fetch :
      {A : Type 0}
      → (HttpResponse → Result RepositoryError A)
      → Text
      → HttpRequest
      → N
      → N × Result RepositoryError A
  fetch read url request n = elim (client.url_error url) [
    | some e ↦ (n, err (request_failed e))
    | none ↦ on_reply read (client.sends request n)
  ]

  abbrev pub on_saved : N × Result Text HttpResponse → N × Option RepositoryError
  on_saved (n, err e) = (n, some (send_failed e))
  on_saved (n, ok r) = (n, save_outcome r)

  -- A request that saves what has been encoded.
  unfoldable pub send_json : Text → Result Text Text → N → N × Option RepositoryError
  send_json url (err e) n = (n, some (marshal_failed e))
  send_json url (ok json) n = elim (client.url_error url) [
    | some e ↦ (n, some (request_failed e))
    | none ↦ on_saved (client.sends (post_of url json) n)
  ]

  module _ (encoding : Encoding) (r : HttpRepository) where
    unfoldable pub list_gpus : N → N × Result RepositoryError (List Gpu)
    list_gpus n = fetch (decoded encoding.decode_gpus) (gpus_url r) (get_of (gpus_url r)) n

    unfoldable pub get_gpu : Text → N → N × Result RepositoryError (Option Gpu)
    get_gpu uuid n =
        fetch (gpu_found encoding.decode_gpu) (gpu_url encoding r uuid)
          (get_of (gpu_url encoding r uuid)) n

    unfoldable pub save_gpu : Gpu → N → N × Option RepositoryError
    save_gpu gpu n = send_json (gpus_url r) (encoding.marshal_gpu gpu) n

    unfoldable pub save_telemetry : TelemetryRecord → N → N × Option RepositoryError
    save_telemetry t n =
        send_json (r.base_url ++ codes "/api/v1/storage/telemetry") (encoding.marshal_record t) n

    unfoldable pub get_telemetry_by_gpu :
        Text → Option Time → Option Time → N → N × Result RepositoryError (List TelemetryRecord)
    get_telemetry_by_gpu uuid start end n =
        fetch (decoded encoding.decode_records) (gpu_url encoding r uuid ++ codes "/telemetry")
          (get_of (telemetry_url encoding r uuid start end)) n
