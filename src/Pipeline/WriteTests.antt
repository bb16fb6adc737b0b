-- ===== src/Pipeline/WriteTests.antt =====
-- A run of the collector over the HTTP client of the storage service at concrete inputs.
use elastic_gpu_telemetry_pi.Common.{
  Result, ok, text_eq, if◌then◌else◌, ◌≡◌, refl, some, Text, codes, List, [], ◌∷◌, map, All,
}
use elastic_gpu_telemetry_pi.Common.Insertion.{insertion_sort}
use elastic_gpu_telemetry_pi.Domain.{Message}
use elastic_gpu_telemetry_pi.Queue.{Queue, new_queue}
use elastic_gpu_telemetry_pi.Memory.{Store, new_store_with_max_records}
use elastic_gpu_telemetry_pi.Storage.{memory_acknowledger, memory_repository}
use elastic_gpu_telemetry_pi.Collector.{Setting}
use elastic_gpu_telemetry_pi.Http.{HttpRequest}
use elastic_gpu_telemetry_pi.StorageService.{StorageRequest, get_request}
use elastic_gpu_telemetry_pi.Collector.Loop.{Event, arrived, received, channel_closed}
use elastic_gpu_telemetry_pi.Collector.Agreeing.{Fits}
use elastic_gpu_telemetry_pi.Collector.Lifecycle.{Lifecycle, signal_received, new_lifecycle, start}
use elastic_gpu_telemetry_pi.Collector.{gpu_of}
use elastic_gpu_telemetry_pi.Domain.{Message, new_message}
use elastic_gpu_telemetry_pi.Http.{Method, get, post}
use elastic_gpu_telemetry_pi.StorageService.{save_gpu_request, save_telemetry_request}
use elastic_gpu_telemetry_pi.StorageClient.{gpus_url}
use elastic_gpu_telemetry_pi.Pipeline.WritePath.{
  IsWritable, remote_repository, VisitsEntries, start-IsRemote,
}
use elastic_gpu_telemetry_pi.Pipeline.PathTests.{
  reading, served_uuid, keys, encoding, parse_time, client, print,
}

-- A collector that receives a record, and then the end of the stream.
abbrev route_post : Text → StorageRequest
route_post url =
    if text_eq url (gpus_url client)
    then save_gpu_request (ok (gpu_of (reading served_uuid)))
    else save_telemetry_request (ok (reading served_uuid))

abbrev route_of : Method → Text → StorageRequest
route_of get url = get_request served_uuid
route_of post url = route_post url

abbrev route_write : HttpRequest → StorageRequest
route_write request = route_of request.method request.url

abbrev message : Message
message = new_message (codes "m") (reading served_uuid) (codes "s1") 7

abbrev lifecycle : Lifecycle Store Queue
lifecycle = new_lifecycle (record {
  repository = new_store_with_max_records 5;
  queue = new_queue 1;
  processed_count = 0;
  error_count = 0;
  last_processed_time = 0;
})

abbrev setting : Setting
setting = record {
  instance_id = codes "c1";
  batch_size = 1;
  clock = λ k. k;
  visits = λ gpu_map. map (λ e. e.1) gpu_map;
}

setting_visits : VisitsEntries setting
setting_visits P [] h = tt
setting_visits P (e ∷ g) h = (h.0, setting_visits P g h.1)

abbrev subscribes : Text → Queue → Result Text Queue
subscribes consumer_id q = ok q

abbrev events : List Event
events = received (some message) ∷ channel_closed ∷ []

message-IsWritable :
    IsWritable
      (memory_repository insertion_sort keys)
      encoding
      parse_time
      route_write
      print
      client
      (reading served_uuid)
unfolding text_eq
message-IsWritable = record {
  gpu_carried = record { gpu_text = codes "gpu"; gpu_encoded = refl; gpu_routed = refl };
  record_text = codes "record";
  record_encoded = refl;
  record_routed = refl;
}

events-Fits :
    All
      (Fits (
        IsWritable
          (memory_repository insertion_sort keys)
          encoding
          parse_time
          route_write
          print
          client))
      (arrived events)
unfolding arrived new_message
events-Fits = (message-IsWritable, tt)

start-IsRemote_example :
    start
      (remote_repository
        (memory_repository insertion_sort keys)
        encoding
        parse_time
        route_write
        print
        client)
      memory_acknowledger
      setting
      subscribes
      (some signal_received)
      events
      lifecycle
    ≡ start
        (memory_repository insertion_sort keys)
        memory_acknowledger
        setting
        subscribes
        (some signal_received)
        events
        lifecycle
start-IsRemote_example =
    start-IsRemote (memory_repository insertion_sort keys) encoding parse_time route_write print
      client memory_acknowledger setting subscribes (some signal_received) events lifecycle
      setting_visits events-Fits
