-- ===== src/Pipeline/WritePath.antt =====
-- The way of the messages of a collector over the HTTP client of its repository and the storage service
-- to the repository behind the service.
use elastic_gpu_telemetry_pi.Common.{
  ◌≡◌, refl, sym, subst, Option, none, some, List, ◌++◌, Text, codes, Map, Result, ok, All,
}
use elastic_gpu_telemetry_pi.Domain.{Time, Gpu, TelemetryRecord}
use elastic_gpu_telemetry_pi.Http.{HttpRequest}
use elastic_gpu_telemetry_pi.Storage.{Repository, Acknowledger}
use elastic_gpu_telemetry_pi.StorageService.{
  StorageReply, StorageRequest, save_gpu_request, save_telemetry_request,
}
use elastic_gpu_telemetry_pi.StorageClient.{
  HttpRepository, RepositoryError, Encoding, gpus_url, post_of,
}
use elastic_gpu_telemetry_pi.StorageClient.Remote.{
  service_network, remote_save, save_gpu-remote, save_telemetry-remote,
}
use elastic_gpu_telemetry_pi.Collector.{Setting, gpu_of}
use elastic_gpu_telemetry_pi.Collector.Loop.{Event, arrived}
use elastic_gpu_telemetry_pi.Collector.Lifecycle.{Lifecycle, Cause, start}
use elastic_gpu_telemetry_pi.Collector.Agreeing.{SavesAlike, IsAgreeing, Fits, start_agree}
use elastic_gpu_telemetry_pi.Pipeline.ReadPath.{http_repository}

-- `range` visits entries of the map only.
abbrev pub VisitsEntries : Setting → Type 1
VisitsEntries setting =
    (P : Gpu → Type 0) (g : Map Gpu) → All (λ e. P e.1) g → All P (setting.visits g)

module _ {S E : Type 0} (repository : Repository S E) (encoding : Encoding)
    (parse_time : Text → Result Text Time) (route : HttpRequest → StorageRequest)
    (print : StorageReply E → Text) (r : HttpRepository) where
  -- The encoding and the router carry the GPU to its handler.
  pub record IsGpuCarried (gpu : Gpu) : Type 0 where
    pub gpu_text : Text
    pub gpu_encoded : encoding.marshal_gpu gpu ≡ ok gpu_text
    pub gpu_routed : route (post_of (gpus_url r) gpu_text) ≡ save_gpu_request (ok gpu)

  -- They carry the record, and the GPU that the collector makes of it.
  pub record IsWritable (t : TelemetryRecord) : Type 0 where
    pub gpu_carried : IsGpuCarried (gpu_of t)
    pub record_text : Text
    pub record_encoded : encoding.marshal_record t ≡ ok record_text
    pub record_routed :
        route (post_of (r.base_url ++ codes "/api/v1/storage/telemetry") record_text)
        ≡ save_telemetry_request (ok t)

  abbrev pub remote_repository : Repository S RepositoryError
  remote_repository =
      http_repository (service_network repository encoding parse_time route print) encoding r

  abbrev remote_saved : S × Option E → S × Option RepositoryError
  remote_saved = remote_save repository encoding parse_time route print

  remote_save-SavesAlike : (x : S × Option E) → SavesAlike x (remote_saved x)
  remote_save-SavesAlike (s, none) = refl
  remote_save-SavesAlike (s, some e) = refl

  remote_repository-IsAgreeing : IsAgreeing repository remote_repository IsGpuCarried IsWritable
  unfolding http_repository
  remote_repository-IsAgreeing = record {
    gpu_fits = λ t c. c.gpu_carried;
    gpus = λ g s c.
        subst (SavesAlike (repository.saves_gpu g s))
          (sym (
            save_gpu-remote repository encoding parse_time route print r g c.gpu_text s
              c.gpu_encoded c.gpu_routed))
          (remote_save-SavesAlike (repository.saves_gpu g s));
    records = λ t s c.
        subst (SavesAlike (repository.saves_telemetry t s))
          (sym (
            save_telemetry-remote repository encoding parse_time route print r t c.record_text s
              c.record_encoded c.record_routed))
          (remote_save-SavesAlike (repository.saves_telemetry t s));
  }

  -- A collector over the HTTP client and the storage service does what the collector over the
  -- repository behind the service does: whatever its select takes, `Start` and the loop end in the same
  -- way, and leave the same repository, queue and counters; where the router and the encoding carry each
  -- record that arrives, and its GPU, and `range` visits entries of the map only.
  pub start-IsRemote :
      {Q F G : Type 0} (queue : Acknowledger Q G) (setting : Setting)
      (subscribes : Text → Q → Result F Q) (cause : Option Cause) (es : List Event)
      (l : Lifecycle S Q)
      → VisitsEntries setting
      → All (Fits IsWritable) (arrived es)
      → start remote_repository queue setting subscribes cause es l
        ≡ start repository queue setting subscribes cause es l
  start-IsRemote queue setting subscribes cause es l visits fits = sym (
      start_agree repository remote_repository queue setting IsGpuCarried IsWritable
        remote_repository-IsAgreeing (visits IsGpuCarried) subscribes cause es l fits)
