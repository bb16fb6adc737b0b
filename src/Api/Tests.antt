-- ===== src/Api/Tests.antt =====
-- Runs of the API handlers over the in-memory store at concrete inputs.
use elastic_gpu_telemetry_pi.Common.{
  ◌≡◌, ◌↔◌, ◌≤◌, refl, some, none, [], ◌∷◌, Text, codes, Result, ok, err, length, is_empty, true,
  false, trim_space,
}
use elastic_gpu_telemetry_pi.Domain.{Time, empty}
use elastic_gpu_telemetry_pi.Api.{parse_time_range}
use elastic_gpu_telemetry_pi.Api.Validation.{
  validate_gpu_uuid, has_prefix, contains_dangerous, validate_gpu_uuid_iff,
}
use elastic_gpu_telemetry_pi.Api.Middleware.{
  Context, Handler, Occasion, returns, panics, crashes, gateway, with_id, id_of, IsHandled,
  gateway-IsHandled,
}

abbrev uuid : Text
uuid = codes "GPU-5fd4f087"

-- A parser of times that knows two of them.
abbrev parse : Text → Result Text Time
parse [] = err empty
parse (c ∷ s) = ok c

trim_space_run : trim_space (codes " GPU-1 ") ≡ codes "GPU-1"
unfolding trim_space
trim_space_run = refl

in_range : parse_time_range parse (codes "1") (codes "2") ≡ ok (some 49, some 50)
unfolding parse_time_range
in_range = refl

validate_gpu_uuid_iff_example :
    let t : Text = trim_space uuid in
    (validate_gpu_uuid uuid ≡ none) ↔ (
      (is_empty uuid ≡ false)
      × (has_prefix t ≡ true)
      × (10 ≤ length t)
      × (length t ≤ 100)
      × (contains_dangerous t ≡ false))
validate_gpu_uuid_iff_example = validate_gpu_uuid_iff uuid

abbrev occasion : Occasion
occasion = record { now = 30; new_id = codes "id-1"; limit = codes "30s"; timed_out = none }

abbrev fresh : Context
fresh = record {
  given_id = [];
  request_id = none;
  header_id = none;
  responses = [];
  errors = [];
  aborted = false;
}

-- A handler that leaves an error and no response, and one that panics.
abbrev failing : Handler
failing c = returns (record c { errors = codes "broken" ∷ [] })

abbrev panicking : Handler
panicking c = panics c

gateway-IsHandled_example :
    IsHandled occasion
      (with_id occasion (id_of occasion fresh) fresh)
      (failing (with_id occasion (id_of occasion fresh) fresh))
      (gateway occasion failing fresh)
gateway-IsHandled_example = gateway-IsHandled occasion failing fresh

not_recovered : gateway occasion panicking fresh ≡ crashes
not_recovered = gateway-IsHandled occasion panicking fresh
