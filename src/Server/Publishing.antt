-- ===== src/Server/Publishing.antt =====
-- pkg/mq/httpclient.go and pkg/mq/server.go: publishing over a network that reaches the queue service
-- but may lose its replies.
use mathlib.Core.List.{append_assoc, append-nil}
use elastic_gpu_telemetry_pi.Common.{
  ℕ, zero, suc, ◌≤◌, ◌≡◌, refl, sym, ap, ◌∙◌, ◌⊎◌, inl, inr, Bool, true, false, Option, none, some,
  List, [], ◌∷◌, ◌++◌, arith, Text, codes, Result, ok, err, if◌then◌else◌,
}
use elastic_gpu_telemetry_pi.Domain.{Message}
use elastic_gpu_telemetry_pi.Http.{HttpRequest, HttpResponse, HttpClient}
use elastic_gpu_telemetry_pi.HttpQueue.{
  HttpQueue, ClientError, is_retryable, publish_request, send_with_retries,
}
use elastic_gpu_telemetry_pi.HttpQueue
use elastic_gpu_telemetry_pi.HttpQueue.Retrying.{
  after_sends, outcome, never, send_with_retries-Attempts,
}
use elastic_gpu_telemetry_pi.Queue.{Queue, PublishOutcome, published, panicked, failed}
use elastic_gpu_telemetry_pi.Queue.Publishing.{publish_appends, publish_unchanged}
use elastic_gpu_telemetry_pi.Queue.Goroutines.{publish}
use elastic_gpu_telemetry_pi.Server.{publish_message, published_reply, Reply, status}

-- The service behind the network, and how many requests have been sent.
abbrev pub Service : Type 0
Service = Queue × ℕ

abbrev pub copies : ℕ → Message → List Message
copies zero m = []
copies (suc k) m = m ∷ copies k m

-- The queue with `k` copies of the message added.
abbrev pub with_copies : ℕ → Message → Queue → Queue
with_copies k m q = record q { messages = q.messages ++ copies k m }

abbrev appended : Message → Queue → Queue
appended m q = record q { messages = q.messages ++ m ∷ [] }

appended-with_copies :
    (k : ℕ) (m : Message) (q : Queue) → with_copies k m (appended m q) ≡ with_copies (suc k) m q
appended-with_copies k m q =
    ap (λ l. record q { messages = l }) (append_assoc q.messages (m ∷ []) (copies k m))

with_copies-appended :
    (k : ℕ) (m : Message) (q : Queue) → appended m (with_copies k m q) ≡ with_copies (suc k) m q
with_copies-appended k m q =
    ap (λ l. record q { messages = l })
      (append_assoc q.messages (copies k m) (m ∷ []) ∙ ap (λ l. q.messages ++ l) (snoc k))
  where
    snoc : (j : ℕ) → copies j m ++ m ∷ [] ≡ copies (suc j) m
    snoc zero = refl
    snoc (suc j) = ap (λ l. m ∷ l) (snoc j)

-- One request: the message is added, or nothing happens and the reply is no success.
publish_message_cases :
    (m : Message) (q : Queue)
    → let r : Queue × Reply = publish_message false false false [] (ok m) q in
      ((r.0 ≡ appended m q) × (status r.1 ≡ 200)) ⊎ ((r.0 ≡ q) × (status r.1 ≡ 500))
unfolding publish_message status
publish_message_cases m q = go (publish false false false [] (some m) q).1 refl
  where
    go :
        (o : PublishOutcome)
        → (publish false false false [] (some m) q).1 ≡ o
        → let r : Queue × Reply = publish_message false false false [] (ok m) q in
          ((r.0 ≡ appended m q) × (status r.1 ≡ 200)) ⊎ ((r.0 ≡ q) × (status r.1 ≡ 500))
    go published e =
        inl (publish_appends false false false m q e, ap (λ o. status (published_reply m o)) e)
    go panicked e = inr (
      publish_unchanged false false false (some m) q (λ h. absurd (ground (arith, e, h))),
      ap (λ o. status (published_reply m o)) e,
    )
    go (failed x) e = inr (
      publish_unchanged false false false (some m) q (λ h. absurd (ground (arith, e, h))),
      ap (λ o. status (published_reply m o)) e,
    )

module _ (decode : Text → Result Text Message) (print : Reply → Text) (lost : ℕ → Bool) where
  -- The service handles every request; `lost k` says that the reply to request `k` is lost.
  abbrev pub respond : ℕ → Queue × Reply → Service × Result Text HttpResponse
  respond k (q, r) = (
    (q, suc k),
    (if lost k then err (codes "timeout") else ok (record { status = status r; body = print r })),
  )

  unfoldable pub lossy_network : HttpClient Service
  lossy_network = record {
    sends =
        λ request s. respond s.1 (publish_message false false false [] (decode request.body) s.0);
    url_error = λ url. none;
  }

  pub url_valid_lem : (url : Text) → lossy_network.url_error url ≡ none
  unfolding lossy_network
  url_valid_lem url = refl

  module _ (request : HttpRequest) (m : Message) (decoded : decode request.body ≡ ok m) where
    abbrev once : Service → Service × Result Text HttpResponse
    once s = respond s.1 (publish_message false false false [] (ok m) s.0)

    pub sends-once : (s : Service) → lossy_network.sends request s ≡ once s
    unfolding lossy_network
    sends-once s = ap (λ d. respond s.1 (publish_message false false false [] d s.0)) decoded

    after_sends-with_copies :
        (k : ℕ) (s : Service)
        → (j : ℕ) × (j ≤ k) × ((after_sends lossy_network request k s).0 ≡ with_copies j m s.0)
    unfolding after_sends
    after_sends-with_copies zero s =
        (0, omega arith, ap (λ l. record s.0 { messages = l }) (sym (append-nil s.0.messages)))
    after_sends-with_copies (suc k) s =
        let (j, bound, e) = after_sends-with_copies k (lossy_network.sends request s).0 in
        let start = ap (λ r. r.0.0) (sends-once s) in
        elim (publish_message_cases m s.0) [
          | inl (a, _) ↦ (
            suc j,
            omega arith,
            e ∙ ap (with_copies j m) (start ∙ a) ∙ appended-with_copies j m s.0,
          )
          | inr (a, _) ↦ (j, omega arith, e ∙ ap (with_copies j m) (start ∙ a))
        ]

    after_sends-suc :
        (k : ℕ) (s : Service)
        → after_sends lossy_network request (suc k) s
          ≡ (lossy_network.sends request (after_sends lossy_network request k s)).0
    unfolding after_sends
    after_sends-suc zero s = refl
    after_sends-suc (suc k) s = after_sends-suc k (lossy_network.sends request s).0

    -- A reply that the client takes for a success comes from a request that added the message.
    success_appends :
        (s : Service)
        → outcome (lossy_network.sends request s).1 ≡ none
        → (lossy_network.sends request s).0.0 ≡ appended m s.0
    success_appends s h = elim (publish_message_cases m s.0) [
      | inl (a, _) ↦ ap (λ r. r.0.0) (sends-once s) ∙ a
      | inr (_, bad) ↦ absurd (
          refuted (lost s.1) (status (publish_message false false false [] (ok m) s.0).1) bad
            (ap (λ r. outcome r.1) (sym (sends-once s)) ∙ h))
    ]
      where
        refuted :
            (b : Bool) (code : ℕ)
            → code ≡ 500
            → outcome (
                if b
                then err (codes "timeout")
                else ok (record {
                  status = code;
                  body = print (publish_message false false false [] (ok m) s.0).1;
                }))
              ≡ none
            → ⊥
        refuted true code e k = cc
        refuted false code e k = ground (arith, e, k)

  pub publish_of_open :
      (q : HttpQueue) (text : Text) (s : Service)
      → q.closed ≡ false
      → HttpQueue.publish lossy_network never q (ok text) s
        ≡ send_with_retries lossy_network never (publish_request q text) s
  unfolding HttpQueue.publish
  publish_of_open q text s opened = ground arith

  -- `Publish` of the client over such a network, where the service decodes the request to the message,
  -- no other goroutine of the service touches the queue meanwhile, the distributor included, and the
  -- context is never cancelled: if it reports success, the requests have added the message to the queue
  -- at least once and at most three times, and have changed nothing else of the queue.
  pub publish_at_least_once :
      (q : HttpQueue) (text : Text) (m : Message) (s : Service)
      → q.closed ≡ false
      → decode text ≡ ok m
      → let r : Service × Option ClientError =
          HttpQueue.publish lossy_network never q (ok text) s in
        r.1 ≡ none → (k : ℕ) × (1 ≤ k) × (k ≤ 3) × (r.0.0 ≡ with_copies k m s.0)
  publish_at_least_once q text m s opened decoded done =
      let request = publish_request q text in
      let run = publish_of_open q text s opened in
      let a = send_with_retries-Attempts lossy_network request s url_valid in
      let (j, bound, earlier) = after_sends-with_copies request m decoded a.sent s in
      let success = sym a.result ∙ ap (λ r. r.1) (sym run) ∙ done in
      (
        suc j,
        omega arith,
        omega (arith, a.bounded),
        ap (λ r. r.0.0) run
            ∙ ap (λ t. t.0) (a.state ∙ after_sends-suc request m decoded a.sent s)
            ∙ success_appends request m decoded _ success
            ∙ ap (appended m) earlier
            ∙ with_copies-appended j m s.0,
      )
    where
      url_valid : lossy_network.url_error (publish_request q text).url ≡ none
      url_valid = url_valid_lem (publish_request q text).url
