-- ===== src/Api/Middleware.antt =====
-- pkg/api/middleware.go and cmd/api-gateway/main.go: the middlewares of the API gateway, each as a
-- function of the rest of the chain. A panic goes up the chain of its goroutine; in a goroutine that
-- nothing recovers it ends the process.
use elastic_gpu_telemetry_pi.Common.{
  ◌≡◌, refl, ap, Bool, true, Option, none, some, List, [], ◌∷◌, ◌++◌, Text, codes, is_empty,
  if◌then◌else◌,
}
use elastic_gpu_telemetry_pi.Domain.{Time}
use elastic_gpu_telemetry_pi.Api.{Response, respond_error, respond_internal_error}

-- What the middlewares use of `gin.Context`: the header `X-Request-ID` of the request (empty if there is
-- none) and of the response, the ID in the context, what `c.JSON` has been given so far, and the errors.
pub record Context : Type 0 where
  pub given_id : Text
  pub request_id : Option Text
  pub header_id : Option Text
  pub responses : List Response
  pub errors : List Text
  pub aborted : Bool

pub data Outcome : Type 0 where
  returns panics : Context → Outcome
  crashes : Outcome

abbrev pub Handler : Type 0
Handler = Context → Outcome

-- The clock, the ID that `uuid.New` makes, the text of the timeout's length, and, if the request times
-- out, what the handler has done to the context by then.
pub record Occasion : Type 0 where
  pub now : Time
  pub new_id : Text
  pub limit : Text
  pub timed_out : Option (Context → Context)

abbrev pub write : Response → Context → Context
write r c = record c { responses = c.responses ++ r ∷ [] }

abbrev pub abort : Context → Context
abort c = record c { aborted = true }

-- `LoggerMiddleware` logs what has been done, and no more.
abbrev pub logger_middleware : Handler → Handler
logger_middleware next c = next c

module _ (on : Occasion) where
  abbrev pub recovered : Outcome → Outcome
  recovered (returns c) = returns c
  recovered (panics c) = returns (
      abort (
        write
          (respond_error on.now 500 (codes "INTERNAL_ERROR")
            (codes "Internal server error: panic recovered"))
          c))
  recovered crashes = crashes

  unfoldable pub recovery_middleware : Handler → Handler
  recovery_middleware next c = recovered (next c)

  abbrev pub with_id : Text → Context → Context
  with_id id c = record c { request_id = some id; header_id = some id }

  abbrev pub id_of : Context → Text
  id_of c = if is_empty c.given_id then on.new_id else c.given_id

  unfoldable pub request_id_middleware : Handler → Handler
  request_id_middleware next c = next (with_id (id_of c) c)

  abbrev pub last_error : Text → List Text → Text
  last_error e [] = e
  last_error e (d ∷ es) = last_error d es

  -- The last error is the response if there is none.
  abbrev pub with_error : List Text → List Response → Context → Context
  with_error [] rs c = c
  with_error (e ∷ es) [] c = write (respond_internal_error on.now (last_error e es)) c
  with_error (e ∷ es) (r ∷ rs) c = c

  abbrev pub after_errors : Outcome → Outcome
  after_errors (returns c) = returns (with_error c.errors c.responses c)
  after_errors (panics c) = panics c
  after_errors crashes = crashes

  unfoldable pub error_handler_middleware : Handler → Handler
  error_handler_middleware next c = after_errors (next c)

  abbrev pub timeout_response : Context → Context
  timeout_response c =
      write
        (respond_error on.now 408 (codes "INTERNAL_ERROR")
          (codes "Request timeout after " ++ on.limit))
        (abort c)

  -- The handler runs in a goroutine of its own. What it does after the timeout is not in the response.
  abbrev pub after_handler : Option (Context → Context) → Context → Outcome → Outcome
  after_handler none c (returns d) = returns d
  after_handler (some so_far) c (returns d) = returns (timeout_response (so_far c))
  after_handler late c (panics d) = crashes
  after_handler late c crashes = crashes

  unfoldable pub timeout_middleware : Handler → Handler
  timeout_middleware next c = after_handler on.timed_out c (next c)

  -- The chain that the gateway sets up, inside gin's own logger and recovery.
  unfoldable pub gateway : Handler → Handler
  gateway handler = logger_middleware (
      recovery_middleware
        (request_id_middleware (error_handler_middleware (timeout_middleware handler))))

  -- What the chain makes of the outcome of a handler on a context with an ID: `c` is that context.
  abbrev pub IsHandled : Context → Outcome → Outcome → Type 0
  IsHandled c (returns d) r = elim on.timed_out [
    | none ↦ r ≡ returns (with_error d.errors d.responses d)
    | some so_far ↦ r ≡ returns (timeout_response (so_far c))
  ]
  IsHandled c (panics d) r = r ≡ crashes
  IsHandled c crashes r = r ≡ crashes

  with_error_of_response :
      (es : List Text) (rs : List Response) (r : Response) (c : Context)
      → with_error es (rs ++ r ∷ []) c ≡ c
  with_error_of_response [] rs r c = refl
  with_error_of_response (e ∷ es) [] r c = refl
  with_error_of_response (e ∷ es) (q ∷ rs) r c = refl

  -- For every request, the handler runs on a context whose ID, in the context and in the response's
  -- header, is the request's own, or a new one if it has none. If the handler returns in time, its
  -- context is the answer, with an internal error if it has left errors and no response; if the request
  -- times out, the answer is the context so far with the timeout's response. If the handler panics, the
  -- process ends, although the chain has a recovery.
  pub gateway-IsHandled :
      (handler : Handler) (c : Context)
      → IsHandled (with_id (id_of c) c) (handler (with_id (id_of c) c)) (gateway handler c)
  unfolding gateway recovery_middleware request_id_middleware error_handler_middleware
      timeout_middleware
  gateway-IsHandled handler c = go (handler (with_id (id_of c) c)) on.timed_out refl
    where
      go :
          (o : Outcome) (late : Option (Context → Context))
          → on.timed_out ≡ late
          → IsHandled
              (with_id (id_of c) c)
              o
              (recovered (after_errors (after_handler on.timed_out (with_id (id_of c) c) o)))
      go (panics d) late e = refl
      go crashes late e = refl
      go (returns d) none e = rw e refl
      go (returns d) (some so_far) e =
          rw e (ap returns (with_error_of_response d'.errors d'.responses _ (timeout_response d')))
        where
          d' : Context
          d' = so_far (with_id (id_of c) c)
