-- ===== src/Streamer/Tests.antt =====
-- Runs of the streamer at concrete inputs.
use elastic_gpu_telemetry_pi.Common.{
  ◌-◌, true, ℕ, Bool, ◌==◌, ◌≡◌, ◌≢◌, refl, Text, codes, Result, ok, err, List, [], ◌∷◌, false,
  arith,
}
use elastic_gpu_telemetry_pi.Domain.{Time, TelemetryRecord, Message, new_message, Gpu, empty}
use elastic_gpu_telemetry_pi.Config.{StreamerConfig}
use elastic_gpu_telemetry_pi.Queue.{Queue, new_queue, new_queue_of_size, send_message}
use elastic_gpu_telemetry_pi.Queue.Invariant.{new_queue-IsValid, send_message-IsValid}
use elastic_gpu_telemetry_pi.Streamer.{
  Streamer, refused, new_streamer, load_csv, get_record_count, stream_records, stream_loop, Outside,
  Ending, completed,
}
use elastic_gpu_telemetry_pi.Streamer.Command.{run_streamer, after_start}
use elastic_gpu_telemetry_pi.Commands.{failed_exit}
use elastic_gpu_telemetry_pi.Streamer.Backpressure.{cycles, stream_loop-Streams, Streams}
use elastic_gpu_telemetry_pi.HttpQueue.{HttpQueue, ClientError}
use elastic_gpu_telemetry_pi.Server.Publishing.{Service}
use elastic_gpu_telemetry_pi.Streamer.OverHttp.{
  IsFull, http_outside, service_outside, IsCarried, stream_records_of_IsFull,
}
use elastic_gpu_telemetry_pi.Streamer.Starting.{Signals, no_records, start}
use elastic_gpu_telemetry_pi.Streamer.Passes.{logged, stream_records-CarriesMore, CarriesMore}
use elastic_gpu_telemetry_pi.Streamer.OverMemory.{
  World, memory_outside, IsServing, log, load, memory_outside-IsRelieved,
}

abbrev reading : Text → TelemetryRecord
reading uuid = record {
  gpu_uuid = uuid;
  metric_name = codes "DCGM_FI_DEV_GPU_UTIL";
  value = codes "1";
  ingestion_time = 10;
  container = empty;
  pod = empty;
  namespace = empty;
  hostname = empty;
  model_name = empty;
  gpu_id = empty;
  device = empty;
}

abbrev readings : List TelemetryRecord
readings = reading (codes "GPU-1") ∷ reading (codes "GPU-2") ∷ reading (codes "GPU-3") ∷ []

abbrev config : StreamerConfig
config = record {
  csv_file_path = codes "f.csv";
  stream_interval = 5;
  instance_id = codes "s1";
  queue_service_url = codes "http://q";
}

abbrev identifier : Time → Text
identifier t = codes "id"

-- A queue with room for one message.
abbrev world : World
world = record { queue = new_queue 1; taken = []; time = 7 }

world-IsServing : IsServing world
unfolding new_queue new_queue_of_size
world-IsServing = record {
  valid = new_queue-IsValid 1;
  opened = refl;
  sized = omega arith;
  clocked = omega arith;
}

identifier_given : (t : Time) → identifier t ≢ empty
identifier_given t e = cc

stream_loop-Streams_example :
    Streams
      (memory_outside false identifier)
      IsServing
      log
      load
      1
      (memory_outside-IsRelieved false identifier identifier_given)
      config
      (cycles 2 readings)
      world
      (stream_loop (memory_outside false identifier) config 2 2 readings world)
stream_loop-Streams_example =
    stream_loop-Streams (memory_outside false identifier) IsServing log load 1
      (memory_outside-IsRelieved false identifier identifier_given) config 2 2 readings world
      world-IsServing (omega arith)

stream_records-CarriesMore_example :
    CarriesMore
      (memory_outside false identifier)
      config
      readings
      []
      (stream_records (logged (memory_outside false identifier)) config 2 readings (world, []))
stream_records-CarriesMore_example =
    stream_records-CarriesMore (memory_outside false identifier) config 2 readings (world, [])

abbrev parses : Text → Result Text (List TelemetryRecord × List Gpu)
parses text = ok (readings, [])

loaded :
    get_record_count (load_csv {O = Text} parses (ok (codes "csv")) (new_streamer config)).0 ≡ 3
unfolding get_record_count load_csv new_streamer
loaded = refl

-- No signal, and no request to stop.
abbrev undisturbed : Signals World
undisturbed = record { is_signalled = λ w. false; is_shut_down = λ w. false; cancels = λ w. w }

nothing_loaded :
    start (memory_outside false identifier) undisturbed (new_streamer config) 2 1 world
    ≡ (world, no_records)
unfolding start new_streamer
nothing_loaded = refl

-- The queue of the service has room for one message, and has it.
abbrev first_reading : TelemetryRecord
first_reading = reading (codes "GPU-1")

abbrev made : Message
made = new_message (codes "id") (record first_reading { ingestion_time = 7 }) (codes "s1") 7

abbrev full_queue : Queue
full_queue = (send_message false false made (new_queue 1)).0

full_queue-IsFull : IsFull full_queue
unfolding send_message new_queue new_queue_of_size
full_queue-IsFull = record {
  valid = send_message-IsValid false false made (new_queue 1) (new_queue-IsValid 1);
  opened = refl;
  full = omega arith;
}

abbrev decode : Text → Result Text Message
decode text = ok made

abbrev lost : ℕ → Bool
lost k = k == 1

abbrev client : HttpQueue
client = record { base_url = codes "http://q"; closed = false; consumer_id = codes "c" }

abbrev outside : Outside Service ClientError
outside =
    service_outside decode (λ a. []) lost client refl (λ m. codes "{}") (λ s. 7) identifier
      identifier_given config

first_reading-IsCarried :
    IsCarried decode
      (λ a. [])
      lost
      client
      refl
      (λ m. codes "{}")
      (λ s. 7)
      identifier
      identifier_given
      config
      first_reading
unfolding http_outside new_message
first_reading-IsCarried s = refl

stream_records_of_IsFull_example :
    let r : Service × Ending =
      stream_records outside config 1 (first_reading ∷ first_reading ∷ []) (full_queue, 0) in
    (r.1 ≡ completed) × (r.0.0 ≡ full_queue)
stream_records_of_IsFull_example =
    stream_records_of_IsFull decode (λ a. []) lost client refl (λ m. codes "{}") (λ s. 7) identifier
      identifier_given config 0 (first_reading ∷ first_reading ∷ []) (full_queue, 0)
      full_queue-IsFull (first_reading-IsCarried, (first_reading-IsCarried, tt))

unreadable :
    (run_streamer {O = Text} {F = Text}
      (memory_outside false identifier)
      undisturbed
      (λ w. w)
      parses
      (err (codes "no such file"))
      config
      2
      1
      world).1
    ≡ failed_exit
unfolding run_streamer load_csv new_streamer
unreadable = refl

abbrev parses_nothing : Text → Result Text (List TelemetryRecord × List Gpu)
parses_nothing text = ok ([], [])

no_rows :
    (run_streamer {O = Text}
      (memory_outside false identifier)
      undisturbed
      (λ w. w)
      parses_nothing
      (ok (codes "csv"))
      config
      2
      1
      world).1
    ≡ failed_exit
unfolding run_streamer load_csv new_streamer start after_start
no_rows = refl

-- A queue that is full until a signal comes, after a number of nanoseconds; the flag says that the
-- context is cancelled.
abbrev Countdown : Type 0
Countdown = ℕ × Bool

abbrev limited : Outside Countdown Text
limited = record {
  publishes = λ m w. (w, refused (codes "queue is full"));
  is_queue_full = λ e. true;
  is_done = λ w. w.1;
  waits = λ d w. ((w.0 - d, w.1), w.1);
  ingestion_now = λ w. 7;
  message_now = λ w. 7;
  new_id = λ w. codes "id";
}

abbrev interrupt : Signals Countdown
interrupt = record {
  is_signalled = λ w. w.0 == 0;
  is_shut_down = λ w. false;
  cancels = λ w. (w.0, true);
}

abbrev streamer : Streamer
streamer = record { config = config; records = readings; gpus = [] }
