-- ===== src/Pipeline/Tests.antt =====
-- A run of the streamer, the collector and a query of the store at concrete inputs.
use elastic_gpu_telemetry_pi.Common.{
  ap, true, ◌≡◌, ◌≢◌, refl, none, some, Text, codes, List, [], ◌∷◌, ◌++◌, ◌+◌, ◌≤◌, false, arith,
  map, length, All,
}
use elastic_gpu_telemetry_pi.Common.Insertion.{insertion_sort}
use elastic_gpu_telemetry_pi.Domain.{Time, Message, TelemetryRecord, TelemetryQuery, empty}
use elastic_gpu_telemetry_pi.Config.{StreamerConfig}
use elastic_gpu_telemetry_pi.Queue.{Queue, new_queue, new_queue_of_size}
use elastic_gpu_telemetry_pi.Queue.Invariant.{new_queue-IsValid}
use elastic_gpu_telemetry_pi.Memory.{Store, new_store_with_max_records}
use elastic_gpu_telemetry_pi.Memory.Invariant.{new_store_with_max_records-IsConsistent}
use elastic_gpu_telemetry_pi.Storage.{memory_acknowledger}
use elastic_gpu_telemetry_pi.Collector.{Collector, Setting}
use elastic_gpu_telemetry_pi.Collector.Loop.{Event, received, tick, channel_closed, arrived}
use elastic_gpu_telemetry_pi.Collector.Batching.{stops}
use elastic_gpu_telemetry_pi.Streamer.{stream_records}
use elastic_gpu_telemetry_pi.Streamer.Backpressure.{Carries}
use elastic_gpu_telemetry_pi.Streamer.OverMemory.{
  World, memory_outside, IsServing, log, load, memory_outside-IsRelieved,
}
use elastic_gpu_telemetry_pi.Pipeline.{IsComplete}
use elastic_gpu_telemetry_pi.Pipeline.EndToEnd.{IsDelivering, IsAnswered, stream_records-IsAnswered}

abbrev reading : Text → TelemetryRecord
reading uuid = record {
  gpu_uuid = uuid;
  metric_name = codes "DCGM_FI_DEV_GPU_UTIL";
  value = codes "1";
  ingestion_time = 10;
  container = empty;
  pod = empty;
  namespace = empty;
  hostname = empty;
  model_name = empty;
  gpu_id = empty;
  device = empty;
}

abbrev readings : List TelemetryRecord
readings = reading (codes "GPU-1") ∷ reading (codes "GPU-2") ∷ reading (codes "GPU-3") ∷ []

abbrev config : StreamerConfig
config = record {
  csv_file_path = codes "f.csv";
  stream_interval = 5;
  instance_id = codes "s1";
  queue_service_url = codes "http://q";
}

abbrev identifier : Time → Text
identifier t = codes "id"

-- A queue with room for one message.
abbrev world : World
world = record { queue = new_queue 1; taken = []; time = 7 }

world-IsServing : IsServing world
unfolding new_queue new_queue_of_size
world-IsServing = record {
  valid = new_queue-IsValid 1;
  opened = refl;
  sized = omega arith;
  clocked = omega arith;
}

identifier_given : (t : Time) → identifier t ≢ empty
identifier_given t e = cc

abbrev setting : Setting
setting = record {
  instance_id = codes "c1";
  batch_size = 2;
  clock = λ k. k;
  visits = λ gpu_map. map (λ e. e.1) gpu_map;
}

abbrev collector : Collector Store Queue
collector = record {
  repository = new_store_with_max_records 5;
  queue = new_queue 1;
  processed_count = 0;
  error_count = 0;
  last_processed_time = 0;
}

abbrev query : TelemetryQuery
query = record { gpu_uuid = codes "GPU-2"; start_time = none; end_time = some 100 }

readings-IsComplete : All IsComplete readings
readings-IsComplete = ((refl, refl), ((refl, refl), ((refl, refl), tt)))

room : length collector.repository.telemetry + length readings ≤ collector.repository.max_records
unfolding new_store_with_max_records
room = omega arith

-- The messages arrive with a tick after each, until the channel is closed.
abbrev events : List Message → List Event
events [] = channel_closed ∷ []
events (m ∷ ms) = received (some m) ∷ tick ∷ events ms

events-arrive : (ms : List Message) → arrived (events ms) ≡ map some ms
unfolding arrived
events-arrive [] = refl
events-arrive (m ∷ ms) = ap (λ l. some m ∷ l) (events-arrive ms)

events_stop : (ms : List Message) → stops (events ms) ≡ true
unfolding stops
events_stop [] = refl
events_stop (m ∷ ms) = events_stop ms

events-IsDelivering : IsDelivering events
events-IsDelivering = record { all_arrive = events-arrive; stopped = events_stop }

stream_records-IsAnswered_example :
    (ms : List Message) × (log
        (stream_records (memory_outside false identifier) config 2 readings world).0
      ≡ log world ++ ms)
    × Carries config readings ms
    × IsAnswered insertion_sort
        (λ s. [])
        memory_acknowledger
        setting
        config
        events
        query
        ms
        collector
stream_records-IsAnswered_example =
    stream_records-IsAnswered insertion_sort (λ s. []) memory_acknowledger setting config events
      (memory_outside false identifier) IsServing log load 1
      (memory_outside-IsRelieved false identifier identifier_given) 2 readings world collector query
      events-IsDelivering (omega arith) world-IsServing (omega arith) readings-IsComplete
      (new_store_with_max_records-IsConsistent 5) room (λ e. cc)
