-- ===== src/Streamer/OverHttp.antt =====
-- internal/streamer/streamer.go, pkg/mq/httpclient.go and pkg/mq/server.go: the streamer over the HTTP
-- client of the queue service.
use elastic_gpu_telemetry_pi.Common.{
  ℕ, zero, suc, ◌≤◌, ◌≡◌, ◌≢◌, refl, sym, ap, subst, ◌∙◌, inl, inr, Bool, true, false, Option, none,
  some, List, [], ◌∷◌, arith, Text, codes, length, Result, ok, err, All, if◌then◌else◌,
}
use elastic_gpu_telemetry_pi.Domain.{Time, TelemetryRecord, Message, new_message, empty}
use elastic_gpu_telemetry_pi.Config.{StreamerConfig}
use elastic_gpu_telemetry_pi.Http.{HttpRequest, HttpClient}
use elastic_gpu_telemetry_pi.HttpQueue.{HttpQueue, ClientError, status_error, publish_request}
use elastic_gpu_telemetry_pi.HttpQueue
use elastic_gpu_telemetry_pi.HttpQueue.Retrying.{
  never, outcome, after_sends, send_with_retries-Attempts,
}
use elastic_gpu_telemetry_pi.Queue.{Queue}
use elastic_gpu_telemetry_pi.Queue.Invariant.{IsValid}
use elastic_gpu_telemetry_pi.Queue.Publishing.{publish-Enqueues, IsWellFormed}
use elastic_gpu_telemetry_pi.Server.{Reply, publish_message, published_reply, status}
use elastic_gpu_telemetry_pi.Server.Publishing.{
  Service, lossy_network, publish_of_open, url_valid_lem, sends-once,
}
use elastic_gpu_telemetry_pi.Streamer.{
  Publication, accepted, refused, Outside, Ending, completed, after_publish, publish_loop,
  make_message, after_record, stream_records,
}

abbrev publication : Option ClientError → Publication ClientError
publication none = accepted
publication (some e) = refused e

-- No error of the client is `ErrQueueFull`: a status is turned into a text. Nobody takes messages off
-- the queue while the streamer waits, and the context is not cancelled.
unfoldable pub http_outside :
    {N : Type 0}
    → HttpClient N
    → HttpQueue
    → (Message → Text)
    → (N → Time)
    → (Time → Text)
    → Outside N ClientError
http_outside client q encode clock id_at = record {
  publishes =
      λ m n. let r = HttpQueue.publish client never q (ok (encode m)) n in (r.0, publication r.1);
  is_queue_full = λ e. false;
  is_done = λ n. false;
  waits = λ d n. (n, false);
  ingestion_now = clock;
  message_now = clock;
  new_id = λ n. id_at (clock n);
}

-- The queue has no room.
pub record IsFull (q : Queue) : Type 0 where
  pub valid : IsValid q
  pub opened : q.closed ≡ false
  pub full : q.buffer_size ≤ length q.messages

publish_message_of_IsFull :
    (m : Message) (q : Queue)
    → IsFull q
    → IsWellFormed m
    → ((publish_message false false false [] (ok m) q).0 ≡ q)
      × (status (publish_message false false false [] (ok m) q).1 ≡ 500)
unfolding publish_message status
publish_message_of_IsFull m q f w = elim (publish-Enqueues false m q f.valid f.opened w) [
  | inl (room, e) ↦ let full = f.full in absurd (omega arith)
  | inr (full, e) ↦ (ap (λ r. r.0) e, ap (λ r. status (published_reply m r.1)) e)
]

module _ (decode : Text → Result Text Message) (print : Reply → Text) (lost : ℕ → Bool)
    (client : HttpQueue) (client_open : client.closed ≡ false) (encode : Message → Text)
    (clock : Service → Time) (id_at : Time → Text) (identified : (t : Time) → id_at t ≢ empty)
    (config : StreamerConfig) where
  abbrev pub network : HttpClient Service
  network = lossy_network decode print lost

  abbrev pub service_outside : Outside Service ClientError
  service_outside = http_outside network client encode clock id_at

  -- The service reads the messages that carry the record, whenever they are made.
  abbrev pub IsCarried : TelemetryRecord → Type 0
  IsCarried r =
      (s : Service)
      → decode (encode (make_message service_outside config r s))
        ≡ ok (make_message service_outside config r s)

  -- One request to the full queue.
  sends_of_IsFull :
      (request : HttpRequest) (m : Message) (s : Service)
      → decode request.body ≡ ok m
      → IsWellFormed m
      → IsFull s.0
      → ((network.sends request s).0.0 ≡ s.0)
        × ((e : ClientError) × (outcome (network.sends request s).1 ≡ some e))
  sends_of_IsFull request m s decoded w f =
      let one = sends-once decode print lost request m decoded s in
      let (kept, server_error) = publish_message_of_IsFull m s.0 f w in
      let (e, no_success) = go (lost s.1) _ server_error in
      (ap (λ r. r.0.0) one ∙ kept, (e, ap (λ r. outcome r.1) one ∙ no_success))
    where
      go :
          (b : Bool) (code : ℕ)
          → code ≡ 500
          → (e : ClientError) × (outcome (
                if b
                then err (codes "timeout")
                else ok (record {
                  status = code;
                  body = print (publish_message false false false [] (ok m) s.0).1;
                }))
              ≡ some e)
      go true code h = (_, refl)
      go false code h =
          (status_error code (print (publish_message false false false [] (ok m) s.0).1), rw h refl)

  after_sends_of_IsFull :
      (request : HttpRequest) (m : Message) (k : ℕ) (s : Service)
      → decode request.body ≡ ok m
      → IsWellFormed m
      → IsFull s.0
      → (after_sends network request k s).0 ≡ s.0
  unfolding after_sends
  after_sends_of_IsFull request m zero s decoded w f = refl
  after_sends_of_IsFull request m (suc k) s decoded w f =
      let (kept, _) = sends_of_IsFull request m s decoded w f in
      after_sends_of_IsFull request m k (network.sends request s).0 decoded w
        (subst IsFull (sym kept) f)
      ∙ kept

  -- `Publish` fails, and the queue stays.
  publish_of_IsFull :
      (m : Message) (s : Service)
      → decode (encode m) ≡ ok m
      → IsWellFormed m
      → IsFull s.0
      → let r : Service × Option ClientError =
          HttpQueue.publish network never client (ok (encode m)) s in
        (r.0.0 ≡ s.0) × ((e : ClientError) × (r.1 ≡ some e))
  publish_of_IsFull m s decoded w f =
      let request = publish_request client (encode m) in
      let run = publish_of_open decode print lost client (encode m) s client_open in
      let a =
        send_with_retries-Attempts network request s
          (url_valid_lem decode print lost request.url) in
      let before = after_sends_of_IsFull request m a.sent s decoded w f in
      let (_, (e, no_success)) =
        sends_of_IsFull request m (after_sends network request a.sent s) decoded w
          (subst IsFull (sym before) f) in
      (
        ap (λ r. r.0.0) run
            ∙ ap (λ t. t.0) a.state
            ∙ after_sends_of_IsFull request m (suc a.sent) s decoded w f,
        (e, ap (λ r. r.1) run ∙ a.result ∙ no_success),
      )

  made-IsWellFormed :
      (r : TelemetryRecord) (s : Service) → IsWellFormed (make_message service_outside config r s)
  unfolding new_message http_outside
  made-IsWellFormed r s = record { has_id = identified (clock s); has_payload = λ e. cc }

  -- While the queue behind the HTTP client is full, the streamer waits for nothing: a pass runs to its
  -- end, with one attempt or more for each record, and every record is lost, since the queue is as it
  -- was. This holds whichever replies the network loses.
  pub stream_records_of_IsFull :
      (left : ℕ) (rs : List TelemetryRecord) (s : Service)
      → IsFull s.0
      → All IsCarried rs
      → let r : Service × Ending = stream_records service_outside config (suc left) rs s in
        (r.1 ≡ completed) × (r.0.0 ≡ s.0)
  unfolding stream_records publish_loop http_outside
  stream_records_of_IsFull left [] s f h = (refl, refl)
  stream_records_of_IsFull left (r ∷ rs) s f (h, hs) =
      let m = make_message service_outside config r s in
      let p = HttpQueue.publish network never client (ok (encode m)) s in
      let (kept, (e, error)) = publish_of_IsFull m s (h s) (made-IsWellFormed r s) f in
      let (ends, same) = stream_records_of_IsFull left rs p.0 (subst IsFull (sym kept) f) hs in
      let again = publish_loop service_outside left m in
      let rest = stream_records service_outside config (suc left) rs in
      subst (λ x. (x.1 ≡ completed) × (x.0.0 ≡ s.0))
        (sym (
          ap
            (λ o.
              after_record service_outside config rest
                (after_publish service_outside again (p.0, publication o)))
            error))
        (ends, same ∙ kept)
