-- ===== src/Domain/Tests.antt =====
-- Runs of pkg/domain at concrete inputs.
use elastic_gpu_telemetry_pi.Common.{◌≡◌, refl, some, true, codes, text_eq}
use elastic_gpu_telemetry_pi.Domain.{TelemetryRecord, TelemetryQuery, matches, empty}

abbrev query : TelemetryQuery
query = record { gpu_uuid = codes "GPU-1"; start_time = some 10; end_time = some 20 }

abbrev at_start : TelemetryRecord
at_start = record {
  gpu_uuid = codes "GPU-1";
  metric_name = codes "DCGM_FI_DEV_GPU_UTIL";
  value = codes "1";
  ingestion_time = 10;
  container = empty;
  pod = empty;
  namespace = empty;
  hostname = empty;
  model_name = empty;
  gpu_id = empty;
  device = empty;
}

at_start-matches : matches query at_start ≡ true
unfolding matches text_eq
at_start-matches = refl
