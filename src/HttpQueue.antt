-- ===== src/HttpQueue.antt =====
-- pkg/mq/httpclient.go: the HTTP client of the queue service. The JSON encoding, `url.PathEscape` and
-- the network are parameters. HttpQueue/Stream.antt has the parser of the event stream.
pub mod Retrying
pub mod Stream
pub mod Subscribing
mod Tests
use elastic_gpu_telemetry_pi.Common.{
  ℕ, zero, suc, ◌+◌, ◌-◌, Bool, true, false, ◌&&◌, ◌||◌, Option, none, some, List, [], ◌∷◌, ◌++◌,
  Text, codes, is_empty, ltb, ◌==◌, Result, ok, err, if◌then◌else◌,
}
use elastic_gpu_telemetry_pi.Domain.{Message}
use elastic_gpu_telemetry_pi.Http.{HttpRequest, HttpResponse, HttpClient, post}

pub record HttpQueue : Type 0 where
  pub base_url : Text
  pub closed : Bool
  pub consumer_id : Text

-- The clock in the generated ID is given as its decimal digits.
pub new_http_queue : Text → Text → HttpQueue
new_http_queue base_url nanos = record {
  base_url = base_url;
  closed = false;
  consumer_id = codes "consumer-" ++ nanos;
}

pub set_consumer_id : Text → HttpQueue → HttpQueue
set_consumer_id consumer_id q = record q { consumer_id = consumer_id }

unfoldable pub close_client : HttpQueue → HttpQueue
close_client q = record q { closed = true }

pub data ClientError : Type 0 where
  client_closed message_id_required context_done : ClientError
  marshal_failed request_failed send_failed : Text → ClientError
  status_error : ℕ → Text → ClientError

abbrev pub max_attempts : ℕ
max_attempts = 3

-- `retryableStatusCodes`.
unfoldable pub is_retryable : ℕ → Bool
is_retryable s = s == 503 || s == 504 || s == 502 || s == 429 || s == 408 || s == 500

-- Whether the request's context is cancelled: after a failed send, and in the wait that follows an
-- attempt, by the number of the attempt.
pub record Cancellation : Type 0 where
  pub after_send : ℕ → Bool
  pub in_wait : ℕ → Bool

abbrev pub publish_request : HttpQueue → Text → HttpRequest
publish_request q json = record {
  method = post;
  url = q.base_url ++ codes "/api/v1/messages";
  body = json;
}

abbrev pub ack_request : (Text → Text) → HttpQueue → Text → Text → HttpRequest
ack_request path_escape q message_id json = record {
  method = post;
  url = q.base_url ++ codes "/api/v1/messages/" ++ path_escape message_id ++ codes "/ack";
  body = json;
}

module _ {N : Type 0} (client : HttpClient N) (cancelled : Cancellation) where
  -- One attempt's reply. `again` makes the next attempt; it is given the error so far.
  abbrev pub after_reply :
      ℕ
      → (ClientError → N → N × Option ClientError)
      → N × Result Text HttpResponse
      → N × Option ClientError
  after_reply attempt again (n, err e) =
      if cancelled.after_send attempt
      then (n, some context_done)
      else if cancelled.in_wait attempt
      then (n, some context_done)
      else again (send_failed e) n
  after_reply attempt again (n, ok r) =
      if r.status == 200
      then (n, none)
      else if is_retryable r.status && ltb attempt (max_attempts - 1)
      then (if cancelled.in_wait attempt
          then (n, some context_done)
          else again (status_error r.status r.body) n)
      else (n, some (status_error r.status r.body))

  -- The loop of `Publish` and that of `Ack`, with `left` attempts left. `last` is `lastErr`.
  unfoldable pub send_loop : HttpRequest → ℕ → ℕ → Option ClientError → N → N × Option ClientError
  send_loop request zero attempt last n = (n, last)
  send_loop request (suc left) attempt last n = elim (client.url_error request.url) [
    | some e ↦ (n, some (request_failed e))
    | none ↦
        after_reply attempt (λ e t. send_loop request left (suc attempt) (some e) t)
          (client.sends request n)
  ]

  unfoldable pub send_with_retries : HttpRequest → N → N × Option ClientError
  send_with_retries request n = send_loop request max_attempts 0 none n

  -- `Publish`, given the result of `json.Marshal`.
  unfoldable pub publish : HttpQueue → Result Text Text → N → N × Option ClientError
  publish q json n = if q.closed then (n, some client_closed) else elim json [
    | err e ↦ (n, some (marshal_failed e))
    | ok text ↦ send_with_retries (publish_request q text) n
  ]

  -- `Ack`; `marshal` encodes the request's body for a consumer.
  unfoldable pub ack :
      (Text → Text)
      → (Text → Result Text Text)
      → HttpQueue
      → Text
      → Text
      → N
      → N × Option ClientError
  ack path_escape marshal q message_id consumer_id n =
      if q.closed
      then (n, some client_closed)
      else if is_empty message_id
      then (n, some message_id_required)
      else elim (marshal (if is_empty consumer_id then q.consumer_id else consumer_id)) [
        | err e ↦ (n, some (marshal_failed e))
        | ok json ↦ send_with_retries (ack_request path_escape q message_id json) n
      ]
