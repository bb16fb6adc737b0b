-- ===== src/Factory/Tests.antt =====
-- Runs of the choice of a repository at concrete inputs.
use elastic_gpu_telemetry_pi.Common.{◌≡◌, refl, Text, codes, text_eq, [], if◌then◌else◌}
use elastic_gpu_telemetry_pi.Config.{load_config, get_env}
use elastic_gpu_telemetry_pi.Factory.{service_connection, connection_text}

-- The PostgreSQL backend, and the address of the storage service.
abbrev env : Text → Text
env key =
    if text_eq key (codes "STORAGE_BACKEND")
    then codes "postgres"
    else if text_eq key (codes "STORAGE_SERVICE_URL")
    then codes "http://s"
    else []

chosen : (load_config env).storage_backend ≡ codes "postgres"
unfolding load_config get_env text_eq
chosen = refl

default_connection :
    service_connection env
    ≡ codes
        "host=localhost port=5432 user=postgres password=postgres dbname=gpu_telemetry sslmode=disable"
unfolding service_connection connection_text get_env text_eq
default_connection = refl
