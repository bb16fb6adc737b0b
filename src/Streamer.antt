-- ===== src/Streamer.antt =====
-- internal/streamer/streamer.go: the streamer over any message queue. `W` is the state of everything
-- outside the streamer: the queue, the clock, and the context, which may be cancelled while it waits.
pub mod Backpressure
pub mod Command
pub mod OverHttp
pub mod OverMemory
pub mod Passes
pub mod Starting
pub mod Timing
pub mod Stopping
mod Tests
use elastic_gpu_telemetry_pi.Common.{
  ℕ, zero, suc, ◌*◌, Bool, true, false, Option, none, some, List, [], ◌∷◌, Text, Result, ok, err,
  length, if◌then◌else◌,
}
use elastic_gpu_telemetry_pi.Domain.{Time, Gpu, TelemetryRecord, Message, new_message}
use elastic_gpu_telemetry_pi.Config.{StreamerConfig}

-- What `MessageQueue.Publish` does to its caller.
pub data Publication (E : Type 0) : Type 0 where
  accepted panics : Publication E
  refused : E → Publication E

-- What the streamer uses: `Publish`, `errors.Is(err, mq.ErrQueueFull)`, the context, a wait, whose flag
-- says that the context was cancelled meanwhile, and what it reads of the clock and of `uuid.New`.
pub record Outside (W E : Type 0) : Type 0 where
  pub publishes : Message → W → W × Publication E
  pub is_queue_full : E → Bool
  pub is_done : W → Bool
  pub waits : ℕ → W → W × Bool
  pub ingestion_now : W → Time
  pub message_now : W → Time
  pub new_id : W → Text

pub record Streamer : Type 0 where
  pub config : StreamerConfig
  pub records : List TelemetryRecord
  pub gpus : List Gpu

unfoldable pub new_streamer : StreamerConfig → Streamer
new_streamer config = record { config = config; records = []; gpus = [] }

pub data LoadError (O P : Type 0) : Type 0 where
  open_failed : O → LoadError O P
  parse_failed : P → LoadError O P

-- `LoadCSV`, given what `os.Open` and the parser return.
unfoldable pub load_csv :
    {O F P : Type 0}
    → (F → Result P (List TelemetryRecord × List Gpu))
    → Result O F
    → Streamer
    → Streamer × Option (LoadError O P)
load_csv parses (err e) s = (s, some (open_failed e))
load_csv parses (ok file) s = elim (parses file) [
  | err e ↦ (s, some (parse_failed e))
  | ok loaded ↦ (record s { records = loaded.0; gpus = loaded.1 }, none)
]

unfoldable pub get_record_count : Streamer → ℕ
get_record_count s = length s.records

unfoldable pub get_gpu_count : Streamer → ℕ
get_gpu_count s = length s.gpus

-- How the loop over the attempts ends. `retrying` says that it has not ended.
pub data Verdict (E : Type 0) : Type 0 where
  published cancelled panicked retrying : Verdict E
  skipped : E → Verdict E

-- How a pass over the records ends. `completed` says that the loop goes on.
pub data Ending : Type 0 where
  completed stopped crashed waiting : Ending

-- 50 ms.
abbrev pub retry_wait : ℕ
retry_wait = 50000000

module _ {W E : Type 0} (outside : Outside W E) where
  abbrev pub after_wait : (W → W × Verdict E) → W × Bool → W × Verdict E
  after_wait again (w, true) = (w, cancelled)
  after_wait again (w, false) = again w

  abbrev pub after_publish : (W → W × Verdict E) → W × Publication E → W × Verdict E
  after_publish again (w, accepted) = (w, published)
  after_publish again (w, panics) = (w, panicked)
  after_publish again (w, refused e) =
      if outside.is_queue_full e
      then after_wait again (outside.waits retry_wait w)
      else if outside.is_done w
      then (w, cancelled)
      else (w, skipped e)

  -- The loop that publishes one message, with `left` attempts left. The source has no limit.
  unfoldable pub publish_loop : ℕ → Message → W → W × Verdict E
  publish_loop zero m w = (w, retrying)
  publish_loop (suc left) m w = after_publish (λ t. publish_loop left m t) (outside.publishes m w)

  abbrev pub make_message : StreamerConfig → TelemetryRecord → W → Message
  make_message config r w =
      new_message (outside.new_id w) (record r { ingestion_time = outside.ingestion_now w })
        config.instance_id (outside.message_now w)

  -- The wait for the interval; `rest` streams the records that follow.
  abbrev pub after_interval : (W → W × Ending) → W × Bool → W × Ending
  after_interval rest (w, true) = (w, stopped)
  after_interval rest (w, false) = rest w

  abbrev pub after_record : StreamerConfig → (W → W × Ending) → W × Verdict E → W × Ending
  after_record config rest (w, published) =
      after_interval rest (outside.waits config.stream_interval w)
  after_record config rest (w, skipped e) =
      after_interval rest (outside.waits config.stream_interval w)
  after_record config rest (w, cancelled) = (w, stopped)
  after_record config rest (w, panicked) = (w, crashed)
  after_record config rest (w, retrying) = (w, waiting)

  -- One pass over the records, with `attempts` attempts for each.
  unfoldable pub stream_records : StreamerConfig → ℕ → List TelemetryRecord → W → W × Ending
  stream_records config attempts [] w = (w, completed)
  stream_records config attempts (r ∷ rs) w =
      if outside.is_done w
      then (w, stopped)
      else after_record config (λ t. stream_records config attempts rs t)
          (publish_loop attempts (make_message config r w) w)

  abbrev pub after_pass : (W → W × Ending) → W × Ending → W × Ending
  after_pass again (w, completed) = again w
  after_pass again (w, stopped) = (w, stopped)
  after_pass again (w, crashed) = (w, crashed)
  after_pass again (w, waiting) = (w, waiting)

  -- `streamLoop`, for a number of passes; after them it would go on.
  unfoldable pub stream_loop : StreamerConfig → ℕ → ℕ → List TelemetryRecord → W → W × Ending
  stream_loop config attempts zero rs w = (w, completed)
  stream_loop config attempts (suc passes) rs w =
      if outside.is_done w
      then (w, stopped)
      else after_pass (λ t. stream_loop config attempts passes rs t)
          (stream_records config attempts rs w)
