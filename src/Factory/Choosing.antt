-- ===== src/Factory/Choosing.antt =====
-- pkg/storage/factory.go: which repository the commands get for a backend.
use elastic_gpu_telemetry_pi.Common.{
  ◌≡◌, refl, false, [], ◌∷◌, Text, codes, is_empty, text_eq, Map, lookup, insert, ok, err,
  if◌then◌else◌,
}
use elastic_gpu_telemetry_pi.Config.{load_config, get_env}
use elastic_gpu_telemetry_pi.Factory.{
  postgres_store, connection_required, new_repository, built_connection, client_storage_config,
  gateway_repository, service_connection, service_storage_config, service_repository,
  connection_text,
}

new_repository_of_client :
    (uri url : Text)
    → let config : Map Text =
        if is_empty url
        then (if is_empty uri then [] else insert (codes "uri") uri [])
        else insert
            (codes "storage_service_url")
            url
            (if is_empty uri then [] else insert (codes "uri") uri []) in
      new_repository (codes "postgres") config ≡ err connection_required
unfolding new_repository built_connection lookup insert text_eq
new_repository_of_client [] [] = refl
new_repository_of_client [] (c ∷ url) = refl
new_repository_of_client (c ∷ uri) [] = refl
new_repository_of_client (c ∷ uri) (d ∷ url) = refl

-- The service's configuration of the database.
new_repository_of_service :
    (connection : Text)
    → is_empty connection ≡ false
    → new_repository (codes "postgres") (insert (codes "connection_string") connection [])
      ≡ ok (postgres_store connection)
unfolding new_repository lookup insert text_eq
new_repository_of_service connection h = rw h refl

-- In every environment that chooses the PostgreSQL backend, the API gateway gets no repository,
-- whatever else is set: it never has a connection string, and the address of the storage service is not
-- read for this backend. The storage service gets the PostgreSQL store in the same environment, with the
-- connection string of its variables or of their defaults.
pub postgres_repositories :
    (env : Text → Text)
    → (load_config env).storage_backend ≡ codes "postgres"
    → (gateway_repository env ≡ err connection_required)
      × (service_repository env ≡ ok (postgres_store (service_connection env)))
unfolding gateway_repository service_repository client_storage_config service_storage_config
    service_connection connection_text text_eq
postgres_repositories env h =
    let cfg = load_config env in
    (
      rw h
          (new_repository_of_client cfg.storage_uri (get_env env (codes "STORAGE_SERVICE_URL") [])),
      rw h (new_repository_of_service (service_connection env) (connection_given env)),
    )
  where
    connection_given : (env : Text → Text) → is_empty (service_connection env) ≡ false
    connection_given env = refl
