-- ===== src/Domain/Laws.antt =====
-- pkg/domain/query.go and pkg/domain/metric.go: what the tests decide.
use elastic_gpu_telemetry_pi.Common.{
  ◌≤◌, ◌≡◌, ◌↔◌, ◌≢◌, true, Option, none, some, arith, Text, text_eq, text_eq_iff, any,
}
use elastic_gpu_telemetry_pi.Domain.{
  Time, TelemetryRecord, TelemetryQuery, validate, matches, is_valid, all_metric_types, empty,
}

-- The bounds of a window, where they are given.
abbrev pub StartsBy : Option Time → Time → Type 0
StartsBy none t = Unit
StartsBy (some start) t = start ≤ t

abbrev pub EndsAfter : Option Time → Time → Type 0
EndsAfter none t = Unit
EndsAfter (some end) t = t ≤ end

-- A query matches exactly the records of its GPU whose time lies in the window, both ends included.
pub matches_iff :
    (q : TelemetryQuery) (r : TelemetryRecord)
    → (matches q r ≡ true) ↔ (
        (r.gpu_uuid ≡ q.gpu_uuid)
        × StartsBy q.start_time r.ingestion_time
        × EndsAfter q.end_time r.ingestion_time)
unfolding matches
matches_iff q r = ground (arith, text_eq_iff r.gpu_uuid q.gpu_uuid)

-- A query that some record matches is valid or names no GPU: a reversed window matches nothing.
pub validate_of_matches :
    (q : TelemetryQuery) (r : TelemetryRecord)
    → matches q r ≡ true
    → q.gpu_uuid ≢ empty
    → validate q ≡ none
unfolding matches validate
validate_of_matches q r = ground (arith)

-- A metric type is valid exactly when it is listed.
pub is_valid-all_metric_types : (m : Text) → is_valid m ≡ any (λ t. text_eq m t) all_metric_types
unfolding is_valid all_metric_types
is_valid-all_metric_types m = ground arith
