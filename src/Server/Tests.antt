-- ===== src/Server/Tests.antt =====
-- Runs of the queue service and its client at concrete inputs.
use elastic_gpu_telemetry_pi.Common.{
  ℕ, zero, suc, List, All, inl, inr, ◌≡◌, ◌≤◌, refl, none, some, Text, codes, Result, ok, [], ◌∷◌,
  true, false, Bool, Option, trim_space, strip_prefix, text_eq,
}
use elastic_gpu_telemetry_pi.Domain.{Message, TelemetryRecord, empty}
use elastic_gpu_telemetry_pi.HttpQueue.{
  HttpQueue, is_retryable, send_loop, send_with_retries, ClientError,
}
use elastic_gpu_telemetry_pi.HttpQueue
use elastic_gpu_telemetry_pi.HttpQueue.Retrying.{never}
use elastic_gpu_telemetry_pi.HttpQueue.Stream.{eof, stream_ended, stream}
use elastic_gpu_telemetry_pi.Queue.{new_queue, new_queue_of_size, check_message, send_message}
use elastic_gpu_telemetry_pi.Queue.Steps.{acts}
use elastic_gpu_telemetry_pi.Queue.Goroutines
use elastic_gpu_telemetry_pi.Server.{
  Reply, StreamEvent, stream_messages, message_arrives, channel_closes, stream_body,
  publish_message, status,
}
use elastic_gpu_telemetry_pi.Server.Frames.{IsJson, event_bytes, calm}
use elastic_gpu_telemetry_pi.HttpQueue.{status_error}
use elastic_gpu_telemetry_pi.HttpQueue.Stream.{
  read_failed, read_loop, lines, trim_right, message_of, on_field,
}
use elastic_gpu_telemetry_pi.HttpQueue.Subscribing.{
  Connection, connected, not_connected, Turn, subscription,
}
use elastic_gpu_telemetry_pi.Server.Connections.{IsServed, AreParts, subscription-AreParts}
use elastic_gpu_telemetry_pi.Server.RoundTrip.{stream-stream_body, sent_messages}
use elastic_gpu_telemetry_pi.Server.Publishing.{
  Service, with_copies, lossy_network, publish_at_least_once,
}

abbrev reading : TelemetryRecord
reading = record {
  gpu_uuid = codes "GPU-1";
  metric_name = codes "DCGM_FI_DEV_GPU_UTIL";
  value = codes "1";
  ingestion_time = 10;
  container = empty;
  pod = empty;
  namespace = empty;
  hostname = empty;
  model_name = empty;
  gpu_id = empty;
  device = empty;
}

abbrev m1 : Message
m1 = record {
  id = codes "m1";
  payload = some reading;
  timestamp = 10;
  producer_id = codes "s";
  acked = false;
  acked_at = none;
  consumer_id = empty;
}

-- A codec of this one message.
abbrev encode : Message → Text
encode m = codes "{}"

abbrev decode : Text → Option Message
decode json = some m1

object-IsJson : IsJson (codes "{}")
unfolding trim_space
object-IsJson = record { line = refl; trimmed = refl; nonempty = refl }

stream-stream_body_example :
    stream decode calm eof (
      stream_body event_bytes encode
        (codes "{}")
        (codes "{}")
        (message_arrives m1 ∷ message_arrives m1 ∷ channel_closes ∷ []))
    ≡ (m1 ∷ m1 ∷ [], stream_ended)
unfolding sent_messages
stream-stream_body_example =
    stream-stream_body decode event_bytes encode (λ name json. refl) (codes "{}") (codes "{}")
      (message_arrives m1 ∷ message_arrives m1 ∷ channel_closes ∷ []) object-IsJson object-IsJson
      ((object-IsJson, refl), ((object-IsJson, refl), tt))

abbrev client : HttpQueue
client = record { base_url = codes "http://q"; closed = false; consumer_id = codes "c" }

abbrev reads : Text → Result Text Message
reads text = ok m1

abbrev print : Reply → Text
print r = []

-- The first reply is lost.
abbrev lost : ℕ → Bool
lost zero = true
lost (suc k) = false

abbrev start : Service
start = (new_queue 5, 0)

abbrev sent : Service × Option ClientError
sent = HttpQueue.publish (lossy_network reads print lost) never client (ok (codes "{}")) start

reports_success : sent.1 ≡ none
unfolding HttpQueue.publish send_with_retries send_loop is_retryable lossy_network publish_message
    status new_queue new_queue_of_size Goroutines.publish check_message send_message acts
reports_success = refl

publish_at_least_once_example :
    (k : ℕ) × (1 ≤ k) × (k ≤ 3) × (sent.0.0 ≡ with_copies k m1 (new_queue 5))
publish_at_least_once_example =
    publish_at_least_once reads print lost client (codes "{}") m1 start refl refl reports_success

abbrev events : List StreamEvent
events = message_arrives m1 ∷ message_arrives m1 ∷ []

-- A part of the stream with both messages, which breaks off inside the second, and a connection that
-- fails.
abbrev first_part : Text
first_part = codes "event:connected\ndata:{}\n\nevent:message\ndata:{}\n\nevent:mess"

abbrev other_part : Text
other_part = codes "age\ndata:{}\n\n"

abbrev turn : Connection → Turn
turn connection = record {
  done = false;
  closed = false;
  connection = connection;
  closed_after = false;
  cancelled = false;
}

abbrev turns : List Turn
turns =
    turn (connected calm (read_failed (codes "reset")) first_part)
    ∷ turn (not_connected (status_error 500 []))
    ∷ []

turns-IsServed :
    All
      (IsServed decode event_bytes encode
        (λ name json. refl)
        (codes "{}")
        (codes "{}")
        object-IsJson
        object-IsJson)
      turns
unfolding sent_messages stream_body stream_messages
turns-IsServed = (
  record {
    events = events;
    carried = ((object-IsJson, refl), ((object-IsJson, refl), tt));
    served = inr (read_failed (codes "reset"), first_part, other_part, refl, refl);
  },
  (record { events = []; carried = tt; served = inl (status_error 500 [], refl) }, tt),
)

subscription-AreParts_example :
    AreParts decode event_bytes encode
      (λ name json. refl)
      (codes "{}")
      (codes "{}")
      object-IsJson
      object-IsJson
      turns
      turns-IsServed
      (subscription decode turns).0
subscription-AreParts_example =
    subscription-AreParts decode event_bytes encode (λ name json. refl) (codes "{}") (codes "{}")
      object-IsJson object-IsJson turns turns-IsServed

-- The first message, and not the second.
one_received : (subscription decode turns).0 ≡ m1 ∷ []
unfolding subscription stream read_loop lines trim_right message_of on_field strip_prefix trim_space
    text_eq
one_received = refl
