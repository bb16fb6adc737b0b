-- ===== src/Config/Tests.antt =====
-- Runs of the configuration loaders at concrete inputs.
use elastic_gpu_telemetry_pi.Common.{◌≡◌, refl, some, none, Text, codes, if◌then◌else◌, text_eq}
use elastic_gpu_telemetry_pi.Config.{negsuc, atoi, digits, load_collector_config, load_queue_config}
use elastic_gpu_telemetry_pi.Config.Bounds.{IsSize, load_config-IsSize}

atoi_run : atoi (codes "-12") ≡ some (negsuc 11)
unfolding atoi digits
atoi_run = refl

atoi_invalid : atoi (codes "12x") ≡ none
unfolding atoi digits
atoi_invalid = refl

-- An environment with a batch size.
abbrev env : Text → Text
env key = if text_eq key (codes "COLLECTOR_BATCH_SIZE") then codes "10" else codes ""

load_config-IsSize_example :
    IsSize (load_collector_config env (codes "h") (codes "7")).batch_size
    × IsSize (load_queue_config env).buffer_size
load_config-IsSize_example = load_config-IsSize env (codes "h") (codes "7")
