-- ===== src/Factory.antt =====
-- pkg/storage/factory.go, and how the commands choose their repository: cmd/api-gateway/main.go,
-- cmd/collector/main.go and cmd/storage-service/main.go.
pub mod Choosing
mod Tests
use elastic_gpu_telemetry_pi.Common.{
  ℕ, not, ◌&&◌, ◌≡◌, refl, Bool, true, false, ◌||◌, not, Option, none, some, List, [], ◌∷◌, ◌++◌,
  arith, Text, codes, is_empty, text_eq, Map, lookup, insert, Result, ok, err, if◌then◌else◌,
}
use elastic_gpu_telemetry_pi.Config.{
  Config, load_config, get_env, CollectorConfig, load_collector_config,
}

pub data Backend : Type 0 where
  http_repository postgres_store : Text → Backend
  memory_store : Backend

pub data FactoryError : Type 0 where
  connection_required mongo_not_implemented : FactoryError
  unknown_backend : Text → FactoryError

-- A key of `config` that is missing is an empty text.
abbrev pub value_of : Text → Map Text → Text
value_of key config = elim (lookup key config) [ none ↦ [] | some value ↦ value ]

-- `fmt.Sprintf` of a connection string.
unfoldable pub connection_text : Text → Text → Text → Text → Text → Text → Text
connection_text host port user password dbname sslmode =
    codes "host="
    ++ host
    ++ codes " port="
    ++ port
    ++ codes " user="
    ++ user
    ++ codes " password="
    ++ password
    ++ codes " dbname="
    ++ dbname
    ++ codes " sslmode="
    ++ sslmode

-- The connection string of the parts in the configuration.
unfoldable pub built_connection : Map Text → Result FactoryError Text
built_connection config =
    let host : Text = value_of (codes "host") config in
    let port : Text = value_of (codes "port") config in
    let user : Text = value_of (codes "user") config in
    let password : Text = value_of (codes "password") config in
    let dbname : Text = value_of (codes "dbname") config in
    let given : Text = value_of (codes "sslmode") config in
    let sslmode : Text = if is_empty given then codes "disable" else given in
    if is_empty host || is_empty port || is_empty user || is_empty password || is_empty dbname
    then err connection_required
    else ok (connection_text host port user password dbname sslmode)

abbrev pub postgres_of : Result FactoryError Text → Result FactoryError Backend
postgres_of (err e) = err e
postgres_of (ok connection) = ok (postgres_store connection)

-- `NewRepository`, up to the constructor that it calls.
unfoldable pub new_repository : Text → Map Text → Result FactoryError Backend
new_repository backend config =
    let url : Text = value_of (codes "storage_service_url") config in
    let connection : Text = value_of (codes "connection_string") config in
    if text_eq backend (codes "memory")
    then (if is_empty url then ok memory_store else ok (http_repository url))
    else if text_eq backend (codes "postgres")
    then postgres_of (if is_empty connection then built_connection config else ok connection)
    else if text_eq backend (codes "mongo")
    then err mongo_not_implemented
    else err (unknown_backend backend)

-- The storage configuration of the API gateway and of the collector.
unfoldable pub client_storage_config : (Text → Text) → Text → Map Text
client_storage_config env uri =
    let base : Map Text = if is_empty uri then [] else insert (codes "uri") uri [] in
    let url : Text = get_env env (codes "STORAGE_SERVICE_URL") [] in
    if is_empty url then base else insert (codes "storage_service_url") url base

unfoldable pub gateway_repository : (Text → Text) → Result FactoryError Backend
gateway_repository env =
    let cfg : Config = load_config env in
    new_repository cfg.storage_backend (client_storage_config env cfg.storage_uri)

unfoldable pub collector_repository : (Text → Text) → Text → Text → Result FactoryError Backend
collector_repository env hostname pid =
    let cfg : CollectorConfig = load_collector_config env hostname pid in
    new_repository cfg.storage_backend (client_storage_config env cfg.storage_uri)

-- The connection string that the storage service builds from its environment.
unfoldable pub service_connection : (Text → Text) → Text
service_connection env =
    connection_text (get_env env (codes "POSTGRES_HOST") (codes "localhost"))
      (get_env env (codes "POSTGRES_PORT") (codes "5432"))
      (get_env env (codes "POSTGRES_USER") (codes "postgres"))
      (get_env env (codes "POSTGRES_PASSWORD") (codes "postgres"))
      (get_env env (codes "POSTGRES_DB") (codes "gpu_telemetry"))
      (get_env env (codes "POSTGRES_SSLMODE") (codes "disable"))

unfoldable pub service_storage_config : (Text → Text) → Config → Map Text
service_storage_config env cfg =
    if text_eq cfg.storage_backend (codes "postgres")
    then insert (codes "connection_string") (service_connection env) []
    else if is_empty cfg.storage_uri
    then []
    else insert (codes "uri") cfg.storage_uri []

unfoldable pub service_repository : (Text → Text) → Result FactoryError Backend
service_repository env =
    let cfg : Config = load_config env in
    if text_eq cfg.storage_backend (codes "memory")
    then ok memory_store
    else new_repository cfg.storage_backend (service_storage_config env cfg)

-- The queue of the streamer and of the collector.
pub data QueueChoice : Type 0 where
  http_queue : Text → QueueChoice
  memory_queue : ℕ → QueueChoice

unfoldable pub choose_queue : Text → QueueChoice
choose_queue url =
    if not (is_empty url) && not (text_eq url (codes "in-memory"))
    then http_queue url
    else memory_queue 1000
