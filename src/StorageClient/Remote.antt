-- ===== src/StorageClient/Remote.antt =====
-- pkg/storage/httpclient.go and cmd/storage-service/main.go: the HTTP client over a network that hands
-- each request to the storage service.
use elastic_gpu_telemetry_pi.Common.{
  ◌≡◌, refl, ap, ◌∙◌, Option, none, some, List, [], ◌++◌, Text, codes, Result, ok, err,
}
use elastic_gpu_telemetry_pi.Domain.{Time, Gpu, TelemetryRecord}
use elastic_gpu_telemetry_pi.Http.{HttpRequest, HttpResponse, HttpClient}
use elastic_gpu_telemetry_pi.Storage.{Repository}
use elastic_gpu_telemetry_pi.StorageService.{
  StorageReply, failed, gpu_list, one_gpu, telemetry_saved, gpu_saved, record_list, reply_status,
  StorageRequest, list_request, get_request, save_gpu_request, save_telemetry_request,
  telemetry_request, handle, answer_list, answer_get, answer_save_gpu, answer_save_telemetry,
  answer_telemetry, found_reply, saved_reply, bound_of, answer_start, found_records,
}
use elastic_gpu_telemetry_pi.StorageClient.{
  HttpRepository, RepositoryError, status_error, Encoding, get_of, post_of, gpus_url, gpu_url,
  telemetry_url, decoded, gpu_found, on_reply, on_saved, fetch, send_json, list_gpus, get_gpu,
  save_gpu, save_telemetry, get_telemetry_by_gpu,
}

-- A bound of the time range as the query has it.
abbrev pub bound_text : (Time → Text) → Option Time → Text
bound_text format none = []
bound_text format (some t) = format t

module _ {S E : Type 0} (repository : Repository S E) (encoding : Encoding)
    (parse_time : Text → Result Text Time) (route : HttpRequest → StorageRequest)
    (print : StorageReply E → Text) where
  abbrev pub response : S × StorageReply E → S × Result Text HttpResponse
  response (s, a) = (s, ok (record { status = reply_status a; body = print a }))

  -- The network: the service answers every request, over the repository.
  unfoldable pub service_network : HttpClient S
  service_network = record {
    sends = λ request s. response (handle repository parse_time (route request) s);
    url_error = λ url. none;
  }

  -- What the encoding and the router do for a call's arguments and results.
  pub record IsCarried (r : HttpRepository) (uuid : Text) (start end : Option Time) (gpu : Gpu)
      (t : TelemetryRecord) (s : S) : Type 0 where
    pub list_routed : route (get_of (gpus_url r)) ≡ list_request
    pub get_routed : route (get_of (gpu_url encoding r uuid)) ≡ get_request uuid
    pub telemetry_routed :
        route (get_of (telemetry_url encoding r uuid start end))
        ≡ telemetry_request uuid
            (bound_text encoding.rfc3339 start)
            (bound_text encoding.rfc3339 end)
    pub gpu_text : Text
    pub gpu_encoded : encoding.marshal_gpu gpu ≡ ok gpu_text
    pub gpu_routed : route (post_of (gpus_url r) gpu_text) ≡ save_gpu_request (ok gpu)
    pub record_text : Text
    pub record_encoded : encoding.marshal_record t ≡ ok record_text
    pub record_routed :
        route (post_of (r.base_url ++ codes "/api/v1/storage/telemetry") record_text)
        ≡ save_telemetry_request (ok t)
    pub gpus_decoded :
        (l : List Gpu)
        → repository.lists_gpus s ≡ ok l
        → encoding.decode_gpus (print (gpu_list l)) ≡ ok l
    pub gpu_decoded :
        (g : Gpu)
        → repository.gets_gpu uuid s ≡ ok (some g)
        → encoding.decode_gpu (print (one_gpu g)) ≡ ok g
    pub records_decoded :
        (l : List TelemetryRecord)
        → repository.gets_telemetry uuid start end s ≡ ok l
        → encoding.decode_records (print (record_list l)) ≡ ok l
    pub start_parsed : bound_of parse_time (bound_text encoding.rfc3339 start) ≡ ok start
    pub end_parsed : bound_of parse_time (bound_text encoding.rfc3339 end) ≡ ok end

  -- The repository's results, as a client sees them: an error is a status 500 with the error's text.
  abbrev pub remote : {A : Type 0} → Result E A → Result RepositoryError A
  remote (ok a) = ok a
  remote (err e) = err (status_error 500 (print (failed e)))

  abbrev pub remote_save : S × Option E → S × Option RepositoryError
  remote_save (s, none) = (s, none)
  remote_save (s, some e) = (s, some (status_error 500 (print (failed e))))

  list_gpus-remote :
      (r : HttpRepository) (s : S)
      → route (get_of (gpus_url r)) ≡ list_request
      → ((l : List Gpu)
          → repository.lists_gpus s ≡ ok l
          → encoding.decode_gpus (print (gpu_list l)) ≡ ok l)
      → list_gpus service_network encoding r s ≡ (s, remote (repository.lists_gpus s))
  unfolding list_gpus fetch service_network handle answer_list reply_status
  list_gpus-remote r s routed d = rw routed (go (repository.lists_gpus s) refl)
    where
      read : StorageReply E → S × Result RepositoryError (List Gpu)
      read a = on_reply service_network (decoded encoding.decode_gpus) (response (s, a))

      go :
          (x : Result E (List Gpu))
          → repository.lists_gpus s ≡ x
          → ◌≡◌ {A = S × Result RepositoryError (List Gpu)}
              (read (elim x [ err e ↦ failed e | ok gpus ↦ gpu_list gpus ]))
              (s, remote x)
      go (err e) h = refl
      go (ok l) h = rw (d l h) refl

  pub get_gpu-remote :
      (r : HttpRepository) (uuid : Text) (s : S)
      → route (get_of (gpu_url encoding r uuid)) ≡ get_request uuid
      → ((g : Gpu)
          → repository.gets_gpu uuid s ≡ ok (some g)
          → encoding.decode_gpu (print (one_gpu g)) ≡ ok g)
      → get_gpu service_network encoding r uuid s ≡ (s, remote (repository.gets_gpu uuid s))
  unfolding get_gpu fetch service_network handle answer_get reply_status
  get_gpu-remote r uuid s routed d = rw routed (go (repository.gets_gpu uuid s) refl)
    where
      read : StorageReply E → S × Result RepositoryError (Option Gpu)
      read a = on_reply service_network (gpu_found encoding.decode_gpu) (response (s, a))

      go :
          (x : Result E (Option Gpu))
          → repository.gets_gpu uuid s ≡ x
          → ◌≡◌ {A = S × Result RepositoryError (Option Gpu)}
              (read (elim x [ err e ↦ failed e | ok gpu ↦ found_reply repository gpu ]))
              (s, remote x)
      go (err e) h = refl
      go (ok none) h = refl
      go (ok (some g)) h = rw (d g h) refl

  on_saved-remote :
      (saved : StorageReply E) (x : S × Option E)
      → reply_status saved ≡ 201
      → on_saved service_network (response (saved_reply repository saved x)) ≡ remote_save x
  unfolding reply_status
  on_saved-remote saved (s, none) h = rw h refl
  on_saved-remote saved (s, some e) h = refl

  pub save_gpu-remote :
      (r : HttpRepository) (gpu : Gpu) (text : Text) (s : S)
      → encoding.marshal_gpu gpu ≡ ok text
      → route (post_of (gpus_url r) text) ≡ save_gpu_request (ok gpu)
      → save_gpu service_network encoding r gpu s ≡ remote_save (repository.saves_gpu gpu s)
  unfolding save_gpu send_json service_network handle answer_save_gpu reply_status
  save_gpu-remote r gpu text s encoded routed =
      rw (encoded, routed) (on_saved-remote (gpu_saved gpu.uuid) (repository.saves_gpu gpu s) refl)

  pub save_telemetry-remote :
      (r : HttpRepository) (t : TelemetryRecord) (text : Text) (s : S)
      → encoding.marshal_record t ≡ ok text
      → route (post_of (r.base_url ++ codes "/api/v1/storage/telemetry") text)
        ≡ save_telemetry_request (ok t)
      → save_telemetry service_network encoding r t s ≡ remote_save (repository.saves_telemetry t s)
  unfolding save_telemetry send_json service_network handle answer_save_telemetry reply_status
  save_telemetry-remote r t text s encoded routed =
      rw (encoded, routed) (on_saved-remote telemetry_saved (repository.saves_telemetry t s) refl)

  pub get_telemetry-remote :
      (r : HttpRepository) (uuid : Text) (start end : Option Time) (s : S)
      → route (get_of (telemetry_url encoding r uuid start end))
        ≡ telemetry_request uuid
            (bound_text encoding.rfc3339 start)
            (bound_text encoding.rfc3339 end)
      → ((l : List TelemetryRecord)
          → repository.gets_telemetry uuid start end s ≡ ok l
          → encoding.decode_records (print (record_list l)) ≡ ok l)
      → bound_of parse_time (bound_text encoding.rfc3339 start) ≡ ok start
      → bound_of parse_time (bound_text encoding.rfc3339 end) ≡ ok end
      → get_telemetry_by_gpu service_network encoding r uuid start end s
        ≡ (s, remote (repository.gets_telemetry uuid start end s))
  unfolding get_telemetry_by_gpu fetch service_network handle answer_telemetry reply_status
  get_telemetry-remote r uuid start end s routed d b b' =
      ap (λ q. read (handle repository parse_time q s)) routed
      ∙ ap
          (λ p. read (
            s,
            answer_start repository uuid s p
                (bound_of parse_time (bound_text encoding.rfc3339 end)),
          ))
          b
      ∙ ap (λ p. read (s, answer_start repository uuid s (ok start) p)) b'
      ∙ go (repository.gets_telemetry uuid start end s) refl
    where
      read : S × StorageReply E → S × Result RepositoryError (List TelemetryRecord)
      read a = on_reply service_network (decoded encoding.decode_records) (response a)

      go :
          (x : Result E (List TelemetryRecord))
          → repository.gets_telemetry uuid start end s ≡ x
          → ◌≡◌ {A = S × Result RepositoryError (List TelemetryRecord)}
              (read (s, found_records repository x))
              (s, remote x)
      go (err e) h = refl
      go (ok l) h = rw (d l h) refl

  -- Each method of the HTTP repository, in terms of the repository behind the service.
  pub record IsRemote (r : HttpRepository) (uuid : Text) (start end : Option Time) (gpu : Gpu)
      (t : TelemetryRecord) (s : S) : Type 0 where
    pub lists : list_gpus service_network encoding r s ≡ (s, remote (repository.lists_gpus s))
    pub gets : get_gpu service_network encoding r uuid s ≡ (s, remote (repository.gets_gpu uuid s))
    pub saves : save_gpu service_network encoding r gpu s ≡ remote_save (repository.saves_gpu gpu s)
    pub saves_record :
        save_telemetry service_network encoding r t s ≡ remote_save (repository.saves_telemetry t s)
    pub gets_records :
        get_telemetry_by_gpu service_network encoding r uuid start end s
        ≡ (s, remote (repository.gets_telemetry uuid start end s))

  -- The HTTP client of the storage service over the service's handlers is the repository behind the
  -- service: where the router and the encoding carry a call's arguments and results, and the bounds of
  -- the time range are read back as they were, each method leaves the repository as its own method
  -- does and returns what this returns; an error becomes a status 500, and a missing GPU stays one.
  pub handle-IsRemote :
      (r : HttpRepository) (uuid : Text) (start end : Option Time) (gpu : Gpu) (t : TelemetryRecord)
      (s : S)
      → IsCarried r uuid start end gpu t s
      → IsRemote r uuid start end gpu t s
  handle-IsRemote r uuid start end gpu t s c = record {
    lists = list_gpus-remote r s c.list_routed c.gpus_decoded;
    gets = get_gpu-remote r uuid s c.get_routed c.gpu_decoded;
    saves = save_gpu-remote r gpu c.gpu_text s c.gpu_encoded c.gpu_routed;
    saves_record = save_telemetry-remote r t c.record_text s c.record_encoded c.record_routed;
    gets_records =
        get_telemetry-remote r uuid start end s c.telemetry_routed c.records_decoded c.start_parsed
          c.end_parsed;
  }
