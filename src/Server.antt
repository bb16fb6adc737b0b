-- ===== src/Server.antt =====
-- pkg/mq/server.go: the handlers of the queue service over the in-memory queue. What gin does is given:
-- the result of `ShouldBindJSON`, and the bytes that `SSEvent` writes. A response is a status and what
-- `c.JSON` is given.
pub mod Connections
pub mod Cutting
pub mod Frames
pub mod RoundTrip
pub mod Publishing
pub mod Running
mod Tests
use elastic_gpu_telemetry_pi.Common.{
  ℕ, Bool, true, false, Option, none, some, List, [], ◌∷◌, ◌++◌, Text, codes, is_empty, length,
  Result, ok, err, if◌then◌else◌,
}
use elastic_gpu_telemetry_pi.Domain.{Message}
use elastic_gpu_telemetry_pi.Queue.{
  Queue, PublishError, PublishOutcome, published, failed, panicked, SubscribeError, subscribe,
  AckError, ack, is_closed, get_subscriber_count, get_pending_message_count,
}
use elastic_gpu_telemetry_pi.Queue.Steps.{Action}
use elastic_gpu_telemetry_pi.Queue.Goroutines.{publish}

-- `gin.H` values of the responses. A panic is recovered by `gin.Default`, with status 500.
pub data Reply : Type 0 where
  invalid_request : Text → Reply
  publish_failed : PublishError → Reply
  message_published : Text → Reply
  recovered_panic : Reply
  consumer_id_required message_id_required : Reply
  subscribe_failed : SubscribeError → Reply
  ack_failed : AckError → Reply
  message_acknowledged : Text → Reply
  stats : ℕ → ℕ → Bool → Reply
  health : Bool → Reply

unfoldable pub status : Reply → ℕ
status (invalid_request e) = 400
status (publish_failed e) = 500
status (message_published id) = 200
status recovered_panic = 500
status consumer_id_required = 400
status message_id_required = 400
status (subscribe_failed e) = 500
status (ack_failed e) = 400
status (message_acknowledged id) = 200
status (stats subscribers pending closed) = 200
status (health closed) = 200

abbrev pub published_reply : Message → PublishOutcome → Reply
published_reply m published = message_published m.id
published_reply m panicked = recovered_panic
published_reply m (failed e) = publish_failed e

-- `publishMessage`; the context is as in `Publish`.
unfoldable pub publish_message :
    Bool → Bool → Bool → List Action → Result Text Message → Queue → Queue × Reply
publish_message done done' pick gap (err e) q = (q, invalid_request e)
publish_message done done' pick gap (ok m) q =
    let r = publish done done' pick gap (some m) q in (r.0, published_reply m r.1)

-- `subscribeMessages`, until it streams: the subscriber's address, or the error response.
unfoldable pub subscribe_messages : Text → Queue → Result Reply (Queue × ℕ)
subscribe_messages consumer_id q =
    if is_empty consumer_id
    then err consumer_id_required
    else elim (subscribe consumer_id q) [ err e ↦ err (subscribe_failed e) | ok r ↦ ok r ]

-- What the select of `subscribeMessages` takes next.
pub data StreamEvent : Type 0 where
  message_arrives : Message → StreamEvent
  channel_closes client_leaves : StreamEvent

module _ (sse_event : Text → Text → Text) (encode : Message → Text) where
  -- The bytes that the loop of `subscribeMessages` writes.
  unfoldable pub stream_messages : Text → List StreamEvent → Text
  stream_messages closing [] = []
  stream_messages closing (client_leaves ∷ es) = []
  stream_messages closing (channel_closes ∷ es) = sse_event (codes "closed") closing
  stream_messages closing (message_arrives m ∷ es) =
      sse_event (codes "message") (encode m) ++ stream_messages closing es

  -- All the bytes, with the first event. `greeting` and `closing` are the JSON texts of the two
  -- `gin.H` values.
  unfoldable pub stream_body : Text → Text → List StreamEvent → Text
  stream_body greeting closing es =
      sse_event (codes "connected") greeting ++ stream_messages closing es

-- `ackMessage`, given the consumer's ID of the body, if it can be read, and that of the query.
unfoldable pub ack_message : Text → Option Text → Text → Queue → Queue × Reply
ack_message message_id body query q =
    let consumer_id : Text = elim body [ none ↦ query | some id ↦ id ] in
    if is_empty message_id
    then (q, message_id_required)
    else if is_empty consumer_id
    then (q, consumer_id_required)
    else elim (ack message_id consumer_id q) [
      | err e ↦ (q, ack_failed e)
      | ok t ↦ (t, message_acknowledged message_id)
    ]

-- `getStats` and `healthCheck`.
unfoldable pub get_stats : Queue → Reply
get_stats q = stats (get_subscriber_count q) (get_pending_message_count q) (is_closed q)

unfoldable pub health_check : Queue → Reply
health_check q = health (is_closed q)
