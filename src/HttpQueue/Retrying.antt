-- ===== src/HttpQueue/Retrying.antt =====
-- pkg/mq/httpclient.go: the attempts of a request.
use elastic_gpu_telemetry_pi.Common.{
  ℕ, zero, suc, ◌+◌, ◌<◌, ◌≡◌, refl, sym, ap, subst, ◌∙◌, ◌⊎◌, inl, inr, Bool, true, false, ◌&&◌,
  Option, none, some, arith, Text, ltb, ◌==◌, Result, ok, err, if◌then◌else◌, Bool-cases,
}
use elastic_gpu_telemetry_pi.Http.{HttpRequest, HttpResponse, HttpClient}
use elastic_gpu_telemetry_pi.HttpQueue.{
  ClientError, send_failed, status_error, Cancellation, is_retryable, max_attempts, after_reply,
  send_loop, send_with_retries,
}

-- The reply calls for another attempt.
abbrev pub is_transient : Result Text HttpResponse → Bool
is_transient (err e) = true
is_transient (ok r) = is_retryable r.status

-- What the client reports for its last reply.
abbrev pub outcome : Result Text HttpResponse → Option ClientError
outcome (err e) = some (send_failed e)
outcome (ok r) = if r.status == 200 then none else some (status_error r.status r.body)

is_retryable_of_success : (s : ℕ) → (s == 200) ≡ true → is_retryable s ≡ false
unfolding is_retryable
is_retryable_of_success s h = ground arith

-- The context is never cancelled.
abbrev pub never : Cancellation
never = record { after_send = λ k. false; in_wait = λ k. false }

module _ {N : Type 0} (client : HttpClient N) (request : HttpRequest) where
  -- The network after the first `k` sends, and the reply to the next.
  unfoldable pub after_sends : ℕ → N → N
  after_sends zero n = n
  after_sends (suc k) n = after_sends k (client.sends request n).0

  abbrev pub reply : ℕ → N → Result Text HttpResponse
  reply k n = (client.sends request (after_sends k n)).1

  -- The client stops at the first reply that is not transient, or after `left` attempts.
  pub record Attempts (left : ℕ) (n : N) (r : N × Option ClientError) : Type 0 where
    pub sent : ℕ
    pub bounded : sent < left
    pub transient : (j : ℕ) → j < sent → is_transient (reply j n) ≡ true
    pub last : (suc sent ≡ left) ⊎ (is_transient (reply sent n) ≡ false)
    pub state : r.0 ≡ after_sends (suc sent) n
    pub result : r.1 ≡ outcome (reply sent n)

  stop :
      (left : ℕ) (n : N) (r : N × Option ClientError)
      → (1 ≡ suc left) ⊎ (is_transient (reply 0 n) ≡ false)
      → r ≡ ((client.sends request n).0, outcome (reply 0 n))
      → Attempts (suc left) n r
  unfolding after_sends
  stop left n r h e = record {
    sent = 0;
    bounded = omega arith;
    transient = λ j l. absurd (omega arith);
    last = h;
    state = ap (λ p. p.0) e;
    result = ap (λ p. p.1) e;
  }

  continue :
      (left : ℕ) (n : N) (r : N × Option ClientError)
      → is_transient (reply 0 n) ≡ true
      → Attempts left (client.sends request n).0 r
      → Attempts (suc left) n r
  unfolding after_sends
  continue left n r h a = record {
    sent = suc a.sent;
    bounded = omega (arith, a.bounded);
    transient = earlier;
    last = elim a.last [ inl e ↦ inl (ap suc e) | inr e ↦ inr e ];
    state = a.state;
    result = a.result;
  }
    where
      earlier : (j : ℕ) → j < suc a.sent → is_transient (reply j n) ≡ true
      earlier zero l = h
      earlier (suc j) l = a.transient j (omega arith)

  abbrev again : ℕ → ℕ → ClientError → N → N × Option ClientError
  again left attempt e t = send_loop client never request left (suc attempt) (some e) t

  ends :
      (n : N) (x : N × Result Text HttpResponse)
      → client.sends request n ≡ x
      → ◌≡◌ {A = N × Option ClientError}
          (x.0, outcome x.1)
          ((client.sends request n).0, outcome (reply 0 n))
  unfolding after_sends
  ends n x h = ap (λ p. (p.0, outcome p.1)) (sym h)

  -- What follows a transient reply, the last attempt's included.
  retried :
      (left attempt : ℕ) (n : N) (x : N × Result Text HttpResponse) (e : ClientError)
      → client.sends request n ≡ x
      → is_transient x.1 ≡ true
      → outcome x.1 ≡ some e
      → (0 < left → Attempts left x.0 (again left attempt e x.0))
      → Attempts (suc left) n (again left attempt e x.0)
  unfolding send_loop after_sends
  retried zero attempt n x e h t o rest =
      stop zero n _ (inl refl) (ap (λ r. (x.0, r)) (sym o) ∙ ends n x h)
  retried (suc left) attempt n x e h t o rest =
      continue (suc left) n _ (ap (λ p. is_transient p.1) h ∙ t) (
        subst (λ p. Attempts (suc left) p.0 (again (suc left) attempt e x.0)) (sym h)
          (rest (omega arith)))

  attempt-Attempts :
      (left attempt : ℕ) (n : N) (x : N × Result Text HttpResponse)
      → client.sends request n ≡ x
      → attempt + left ≡ 2
      → ((e : ClientError) → 0 < left → Attempts left x.0 (again left attempt e x.0))
      → Attempts (suc left) n (after_reply client never attempt (again left attempt) x)
  unfolding after_sends
  attempt-Attempts left attempt n (t, err e) h b rest =
      retried left attempt n (t, err e) (send_failed e) h refl refl (rest (send_failed e))
  attempt-Attempts left attempt n (t, ok r) h b rest = elim (Bool-cases (r.status == 200)) [
    | inl done ↦ rw done (
        stop left n _ (inr (settled (ground (arith, is_retryable_of_success r.status))))
          (ap (λ o. (t, o)) (rw done refl) ∙ ends n _ h))
    | inr more ↦ elim (Bool-cases (is_retryable r.status && ltb attempt 2)) [
      | inl retry ↦
          rw (more, retry)
            (retried left attempt n (t, ok r) (status_error r.status r.body) h (ground arith)
              (rw more refl) (rest (status_error r.status r.body)))
      | inr over ↦
          rw (more, over)
            (stop left n _
              (elim (Bool-cases (is_retryable r.status)) [
                | inl k ↦ inl (ground arith)
                | inr k ↦ inr (settled k)
              ])
              (ap (λ o. (t, o)) (rw more refl) ∙ ends n _ h))
    ]
  ]
    where
      settled : is_retryable r.status ≡ false → is_transient (reply 0 n) ≡ false
      settled k = ap (λ p. is_transient p.1) h ∙ k

  send_loop-Attempts :
      (left attempt : ℕ) (last : Option ClientError) (n : N)
      → client.url_error request.url ≡ none
      → 0 < left
      → attempt + left ≡ 3
      → Attempts left n (send_loop client never request left attempt last n)
  unfolding send_loop
  send_loop-Attempts zero attempt last n valid p b = absurd (omega arith)
  send_loop-Attempts (suc left) attempt last n valid p b =
      rw (valid, send_loop)
        (attempt-Attempts left attempt n (client.sends request n) refl (omega arith)
          (λ e q. send_loop-Attempts left (suc attempt) (some e) _ valid q (omega arith)))

  -- With a URL that is valid and a context that is not cancelled, the client sends the request one to
  -- three times. Every reply before the last was a transport error or a status that allows a retry; it
  -- stops at the first other reply, or at the third. It reports success exactly if the last reply had
  -- status 200, and the last reply's error otherwise.
  pub send_with_retries-Attempts :
      (n : N)
      → client.url_error request.url ≡ none
      → Attempts max_attempts n (send_with_retries client never request n)
  unfolding send_with_retries
  send_with_retries-Attempts n valid = send_loop-Attempts 3 0 none n valid (omega arith) refl
