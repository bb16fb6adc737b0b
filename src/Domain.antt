-- ===== src/Domain.antt =====
-- pkg/domain: the entities (gpu.go, telemetry.go, message.go), the query (query.go), the metric
-- types (metric.go) and the errors (errors.go). A `time.Time` is the number of nanoseconds since Go's
-- zero time; a pointer that may be nil is an `Option`.
pub mod Laws
mod Tests
use elastic_gpu_telemetry_pi.Common.{
  ℕ, Bool, true, false, not, ◌&&◌, ◌||◌, Option, none, some, List, [], ◌∷◌, Text, codes, text_eq,
  is_empty, ltb, any, if◌then◌else◌,
}

abbrev pub Time : Type 0
Time = ℕ

-- The zero value of a string, and of a time.
abbrev pub empty : Text
empty = []

abbrev pub zero_time : Time
zero_time = 0

pub record Gpu : Type 0 where
  pub uuid : Text
  pub gpu_id : Text
  pub device : Text
  pub model : Text
  pub hostname : Text
  pub container : Text
  pub pod : Text
  pub namespace : Text

pub record TelemetryRecord : Type 0 where
  pub gpu_uuid : Text
  pub metric_name : Text
  pub value : Text
  pub ingestion_time : Time
  pub container : Text
  pub pod : Text
  pub namespace : Text
  pub hostname : Text
  pub model_name : Text
  pub gpu_id : Text
  pub device : Text

pub record Message : Type 0 where
  pub id : Text
  pub payload : Option TelemetryRecord
  pub timestamp : Time
  pub producer_id : Text
  pub acked : Bool
  pub acked_at : Option Time
  pub consumer_id : Text

-- `Message.Ack` at the time `now`.
unfoldable pub ack_message : Message → Text → Time → Message
ack_message m consumer_id now = record m {
  acked = true;
  acked_at = some now;
  consumer_id = consumer_id;
}

-- `NewMessage`; the generated id is an argument.
unfoldable pub new_message : Text → TelemetryRecord → Text → Time → Message
new_message id r producer_id now = record {
  id = id;
  payload = some r;
  timestamp = now;
  producer_id = producer_id;
  acked = false;
  acked_at = none;
  consumer_id = empty;
}

pub data DomainError : Type 0 where
  invalid_gpu_uuid invalid_time_range gpu_not_found invalid_metric_type : DomainError

pub record TelemetryQuery : Type 0 where
  pub gpu_uuid : Text
  pub start_time : Option Time
  pub end_time : Option Time

-- `start != nil && t.Before(*start)` and `end != nil && t.After(*end)`.
abbrev pub before_start : Option Time → Time → Bool
before_start none t = false
before_start (some start) t = ltb t start

abbrev pub after_end : Option Time → Time → Bool
after_end none t = false
after_end (some end) t = ltb end t

-- `start != nil && end != nil && start.After(*end)`.
abbrev pub is_reversed : Option Time → Option Time → Bool
is_reversed none end = false
is_reversed (some start) none = false
is_reversed (some start) (some end) = ltb end start

-- `TelemetryQuery.Validate`; `none` is the nil error.
unfoldable pub validate : TelemetryQuery → Option DomainError
validate q =
    if is_empty q.gpu_uuid
    then some invalid_gpu_uuid
    else if is_reversed q.start_time q.end_time
    then some invalid_time_range
    else none

-- `TelemetryQuery.Matches`.
unfoldable pub matches : TelemetryQuery → TelemetryRecord → Bool
matches q r =
    if not (text_eq r.gpu_uuid q.gpu_uuid)
    then false
    else if before_start q.start_time r.ingestion_time
    then false
    else if after_end q.end_time r.ingestion_time
    then false
    else true

-- `MetricType` is a string type.
abbrev pub MetricType : Type 0
MetricType = Text

abbrev gpu_util : MetricType
gpu_util = codes "DCGM_FI_DEV_GPU_UTIL"

abbrev dec_util : MetricType
dec_util = codes "DCGM_FI_DEV_DEC_UTIL"

abbrev enc_util : MetricType
enc_util = codes "DCGM_FI_DEV_ENC_UTIL"

abbrev fb_free : MetricType
fb_free = codes "DCGM_FI_DEV_FB_FREE"

abbrev fb_used : MetricType
fb_used = codes "DCGM_FI_DEV_FB_USED"

abbrev gpu_temp : MetricType
gpu_temp = codes "DCGM_FI_DEV_GPU_TEMP"

abbrev mem_clock : MetricType
mem_clock = codes "DCGM_FI_DEV_MEM_CLOCK"

abbrev mem_copy_util : MetricType
mem_copy_util = codes "DCGM_FI_DEV_MEM_COPY_UTIL"

abbrev power_usage : MetricType
power_usage = codes "DCGM_FI_DEV_POWER_USAGE"

abbrev sm_clock : MetricType
sm_clock = codes "DCGM_FI_DEV_SM_CLOCK"

-- `MetricType.IsValid`: the cases of the switch.
pub is_valid : MetricType → Bool
is_valid m =
    text_eq m gpu_util
    || (text_eq m dec_util
        || (text_eq m enc_util
            || (text_eq m fb_free
                || (text_eq m fb_used
                    || (text_eq m gpu_temp
                        || (text_eq m mem_clock
                            || (text_eq m mem_copy_util
                                || (text_eq m power_usage || text_eq m sm_clock))))))))

-- `AllMetricTypes`.
pub all_metric_types : List MetricType
all_metric_types =
    gpu_util ∷ dec_util ∷ enc_util ∷ fb_free ∷ fb_used ∷ gpu_temp ∷ mem_clock ∷ mem_copy_util
    ∷ power_usage ∷ sm_clock ∷ []
