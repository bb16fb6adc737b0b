-- ===== src/Http.antt =====
-- What the HTTP clients use of net/http: a request, and a network, which answers a request with a
-- status and a body, or fails. `N` is the state of everything behind the network, servers included.
use elastic_gpu_telemetry_pi.Common.{ℕ, Option, Text, Result}

pub data Method : Type 0 where
  get post : Method

pub record HttpRequest : Type 0 where
  pub method : Method
  pub url : Text
  pub body : Text

pub record HttpResponse : Type 0 where
  pub status : ℕ
  pub body : Text

-- `http.Client.Do` with the body read, and the error that `http.NewRequestWithContext` has for a URL.
pub record HttpClient (N : Type 0) : Type 0 where
  pub sends : HttpRequest → N → N × Result Text HttpResponse
  pub url_error : Text → Option Text
