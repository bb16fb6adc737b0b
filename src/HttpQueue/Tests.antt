-- ===== src/HttpQueue/Tests.antt =====
-- Runs of the HTTP client of the queue service at concrete inputs.
use elastic_gpu_telemetry_pi.Common.{
  ℕ, zero, suc, ◌∷◌, ◌≡◌, refl, none, some, Text, codes, Result, ok, err, [],
}
use elastic_gpu_telemetry_pi.Http.{HttpRequest, HttpResponse, HttpClient, post}
use elastic_gpu_telemetry_pi.HttpQueue.{
  max_attempts, is_retryable, send_loop, send_with_retries, status_error,
}
use elastic_gpu_telemetry_pi.HttpQueue.Retrying.{Attempts, never, send_with_retries-Attempts}
use elastic_gpu_telemetry_pi.HttpQueue.Stream.{lines}

abbrev answer : ℕ → Result Text HttpResponse
answer zero = err (codes "timeout")
answer (suc zero) = ok (record { status = 503; body = codes "busy" })
answer (suc (suc n)) = ok (record { status = 200; body = [] })

-- A network that fails once, is busy once, and then answers. Its state counts the requests.
abbrev flaky : HttpClient ℕ
flaky = record { sends = λ request n. (suc n, answer n); url_error = λ url. none }

abbrev request : HttpRequest
request = record { method = post; url = codes "http://q"; body = codes "{}" }

send_with_retries-Attempts_example :
    Attempts flaky request max_attempts 0 (send_with_retries flaky never request 0)
send_with_retries-Attempts_example = send_with_retries-Attempts flaky request 0 refl

third_attempt : send_with_retries flaky never request 0 ≡ (3, none)
unfolding send_with_retries send_loop is_retryable
third_attempt = refl

abbrev busy : HttpClient ℕ
busy = record {
  sends = λ request n. (suc n, ok (record { status = 503; body = [] }));
  url_error = λ url. none;
}

always_busy : send_with_retries busy never request 0 ≡ (3, some (status_error 503 []))
unfolding send_with_retries send_loop is_retryable
always_busy = refl

two_lines : lines [] (codes "a\r\nb\nc") ≡ codes "a\r" ∷ codes "b" ∷ []
unfolding lines
two_lines = refl
