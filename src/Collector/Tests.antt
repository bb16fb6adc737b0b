-- ===== src/Collector/Tests.antt =====
-- Runs of the collector over the in-memory store and queue at concrete inputs.
use elastic_gpu_telemetry_pi.Common.{
  ◌+◌, ◌≡◌, refl, false, length, Result, Option, some, none, List, [], ◌∷◌, map, true, false, Text,
  codes, ok, err, ◌>>=◌, All, arith,
}
use elastic_gpu_telemetry_pi.Common.Insertion.{insertion_sort}
use elastic_gpu_telemetry_pi.Domain.{Message, TelemetryRecord, empty}
use elastic_gpu_telemetry_pi.Memory.{Store, StoreError, new_store}
use elastic_gpu_telemetry_pi.Queue.{Queue, new_queue, new_queue_of_size, SubscribeError, subscribe}
use elastic_gpu_telemetry_pi.Queue.Steps.{act, acts, subscribes}
use elastic_gpu_telemetry_pi.Storage.{Repository, memory_repository, memory_acknowledger}
use elastic_gpu_telemetry_pi.Collector.{Collector, Setting, ack_all, process_batch}
use elastic_gpu_telemetry_pi.Collector.Processing.{
  stored, Processes, gpus_saved, process_batch-Processes,
}
use elastic_gpu_telemetry_pi.Collector.Loop.{
  Event, received, tick, context_done, arrived, Splits, process_messages, process_batches,
}
use elastic_gpu_telemetry_pi.Collector.Batching.{stops, process_messages-Splits}
use elastic_gpu_telemetry_pi.Collector.Lifecycle.{
  Lifecycle, Ending, signal_received, returned, started_twice, start,
}
use elastic_gpu_telemetry_pi.Collector.Accounting.{IsGiven, counted, start_accounts}

abbrev reading : Text → TelemetryRecord
reading uuid = record {
  gpu_uuid = uuid;
  metric_name = codes "DCGM_FI_DEV_GPU_UTIL";
  value = codes "1";
  ingestion_time = 10;
  container = empty;
  pod = empty;
  namespace = empty;
  hostname = empty;
  model_name = codes "H100";
  gpu_id = empty;
  device = empty;
}

abbrev message : Text → Option TelemetryRecord → Message
message id payload = record {
  id = id;
  payload = payload;
  timestamp = 10;
  producer_id = codes "s";
  acked = false;
  acked_at = none;
  consumer_id = empty;
}

abbrev good : Message
good = message (codes "a") (some (reading (codes "GPU-1")))

abbrev bad : Message
bad = message (codes "b") (some (reading empty))

abbrev memory : Repository Store StoreError
memory = memory_repository insertion_sort (λ s. codes "GPU-1" ∷ [])

abbrev setting : Setting
setting = record {
  instance_id = codes "c";
  batch_size = 2;
  clock = λ n. 20;
  visits = λ gpu_map. map (λ e. e.1) gpu_map;
}

abbrev collector : Collector Store Queue
collector = record {
  repository = new_store;
  queue = new_queue 10;
  processed_count = 0;
  error_count = 0;
  last_processed_time = 0;
}

abbrev batch : List Message
batch = good ∷ bad ∷ []

process_batch-Processes_example :
    let s : Store = gpus_saved memory memory_acknowledger setting batch collector in
    let done : List Message = (stored memory memory_acknowledger setting batch s).1 in
    (t : Collector Store Queue) × (process_batch memory memory_acknowledger setting
        (map some batch)
        collector
      ≡ ok t)
    × Processes memory memory_acknowledger setting batch s collector
        (ack_all memory memory_acknowledger setting done collector.queue)
        t
process_batch-Processes_example =
    process_batch-Processes memory memory_acknowledger setting good (bad ∷ []) collector

abbrev events : List Event
events = received (some good) ∷ tick ∷ received (some bad) ∷ context_done ∷ []

process_messages-Splits_example :
    (r : List (List (Option Message)) × List (Option Message)) × Splits 2 (arrived events) r
    × (process_messages memory memory_acknowledger setting events [] collector ≡ (
        process_batches memory memory_acknowledger setting r.0 collector >>= (λ c'. ok (c', r.1))))
    × (stops events ≡ true → r.1 ≡ [])
process_messages-Splits_example =
    process_messages-Splits memory memory_acknowledger setting events collector (omega arith)

-- A collector that subscribes to its queue, and stops at a signal.
abbrev subscribing : Text → Queue → Result SubscribeError Queue
subscribing id q = elim (subscribe id q) [ ok r ↦ ok r.0 | err e ↦ err e ]

abbrev fresh : Lifecycle Store Queue
fresh = record { collector = collector; started = false; cancelled = false }

subscribed :
    subscribing (codes "c") (new_queue 10) ≡ ok (acts (subscribes (codes "c") ∷ []) (new_queue 10))
unfolding subscribe acts act new_queue new_queue_of_size
subscribed = refl

events_stop : stops events ≡ true
unfolding stops
events_stop = refl

events-IsGiven : All IsGiven (arrived events)
unfolding arrived
events-IsGiven = (tt, (tt, tt))

start_accounts_example :
    let r : Lifecycle Store Queue × Ending SubscribeError =
      start memory memory_acknowledger setting subscribing (some signal_received) events fresh in
    (r.1 ≡ returned)
    × (r.0.cancelled ≡ true)
    × (counted r.0.collector ≡ counted collector + length (arrived events))
start_accounts_example =
    start_accounts memory memory_acknowledger setting subscribing signal_received events fresh
      (acts (subscribes (codes "c") ∷ []) (new_queue 10)) refl subscribed events_stop events-IsGiven

-- A second call closes the channel again.
start_again :
    (start memory memory_acknowledger setting subscribing none []
      (record fresh { started = true })).1
    ≡ started_twice
unfolding start subscribe new_queue new_queue_of_size
start_again = refl
