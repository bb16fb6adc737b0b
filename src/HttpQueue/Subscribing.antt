-- ===== src/HttpQueue/Subscribing.antt =====
-- pkg/mq/httpclient.go: `Subscribe`, whose goroutine connects again whenever a stream has ended.
use elastic_gpu_telemetry_pi.Common.{
  ℕ, Bool, true, false, Option, none, some, codes, ◌==◌, List, [], ◌∷◌, ◌++◌, Text, is_empty,
  Result, ok, err, if◌then◌else◌,
}
use elastic_gpu_telemetry_pi.Domain.{Message}
use elastic_gpu_telemetry_pi.HttpQueue.{
  HttpQueue, ClientError, client_closed, request_failed, send_failed, status_error,
}
use elastic_gpu_telemetry_pi.HttpQueue.Stream.{Context, Ending, stream}

-- What `connectAndStream` meets: no stream, or one with its bytes.
pub data Connection : Type 0 where
  not_connected : ClientError → Connection
  connected : Context → Ending → Text → Connection

-- The response to the subscriber's request, with its body as it comes.
pub record StreamResponse : Type 0 where
  pub status : ℕ
  pub context : Context
  pub ending : Ending
  pub body : Text

-- The URL of the stream; `with_query` sets a query parameter.
unfoldable pub stream_url : (Text → Text → Text → Text) → Text → Text → Text
stream_url with_query base_url consumer_id =
    with_query (codes "consumer_id") consumer_id (base_url ++ codes "/api/v1/messages")

-- The part of `connectAndStream` before the stream, given the error that a URL has and what
-- `http.Client.Do` returns.
unfoldable pub connect : (Text → Option Text) → Text → Result Text StreamResponse → Connection
connect url_error url reply = elim (url_error url) [
  | some e ↦ not_connected (request_failed e)
  | none ↦ elim reply [
    | err e ↦ not_connected (send_failed e)
    | ok r ↦
        if r.status == 200
        then connected r.context r.ending r.body
        else not_connected (status_error r.status r.body)
  ]
]

-- One turn of the loop: the context and the closed flag before it, and the flag and the wait behind it.
-- `connectAndStream` always returns an error.
pub record Turn : Type 0 where
  pub done : Bool
  pub closed : Bool
  pub connection : Connection
  pub closed_after : Bool
  pub cancelled : Bool

module _ (decode : Text → Option Message) where
  -- The messages that one connection sends to the subscriber's channel.
  abbrev pub received : Connection → List Message
  received (not_connected e) = []
  received (connected ctx ending body) = (stream decode ctx ending body).0

  -- The messages of the channel, and whether it has been closed; where the turns end the loop goes on.
  unfoldable pub subscription : List Turn → List Message × Bool
  subscription [] = ([], false)
  subscription (t ∷ turns) =
      let rest = subscription turns in
      if t.done
      then ([], true)
      else if t.closed
      then ([], true)
      else if t.closed_after
      then (received t.connection, true)
      else if t.cancelled
      then (received t.connection, true)
      else (received t.connection ++ rest.0, rest.1)

  -- `Subscribe`; the turns depend on the consumer's ID, which the URL carries.
  unfoldable pub subscribe :
      (Text → List Turn) → HttpQueue → Text → Result ClientError (List Message × Bool)
  subscribe turns q consumer_id =
      if q.closed
      then err client_closed
      else ok (subscription (turns (if is_empty consumer_id then q.consumer_id else consumer_id)))
