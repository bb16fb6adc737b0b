-- ===== src/Commands/Services.antt =====
-- cmd/api-gateway/main.go and cmd/storage-service/main.go: the processes of the two services over a
-- repository. `connects` is the error of the repository's constructor, if it has one, and `shutdown`
-- what `Shutdown` of net/http returns.
use elastic_gpu_telemetry_pi.Common.{
  ◌≡◌, ◌↔◌, refl, sym, subst, Bool, true, false, Option, none, some, Text, codes, ok, err,
}
use elastic_gpu_telemetry_pi.Config.{load_config}
use elastic_gpu_telemetry_pi.Factory.{
  Backend, http_repository, postgres_store, memory_store, gateway_repository, service_repository,
  service_connection,
}
use elastic_gpu_telemetry_pi.Factory.Choosing.{postgres_repositories}
use elastic_gpu_telemetry_pi.Commands.{Process, failed_exit, clean_exit, crash, running}

-- What the select of `main` takes, if anything.
pub data Wakeup (E : Type 0) : Type 0 where
  signal_arrives waits : Wakeup E
  server_fails : E → Wakeup E

-- From the select on.
unfoldable pub serve : {E : Type 0} → Wakeup E → Option E → Process
serve waits shutdown = running
serve (server_fails e) shutdown = failed_exit
serve signal_arrives (some e) = failed_exit
serve signal_arrives none = clean_exit

-- Only the PostgreSQL store has a `Close` method; a failure of it is only logged.
abbrev pub has_close : Backend → Bool
has_close (http_repository url) = false
has_close (postgres_store connection) = true
has_close memory_store = false

abbrev pub closes_store : Process → Backend → Bool
closes_store clean_exit backend = has_close backend
closes_store failed_exit backend = false
closes_store crash backend = false
closes_store running backend = false

module _ {E : Type 0} (connects : Backend → Option E) (wakeup : Wakeup E)
    (shutdown : Option E) where
  abbrev pub gateway_on : Backend → Option E → Process
  gateway_on backend (some e) = failed_exit
  gateway_on backend none = serve wakeup shutdown

  -- `main` of the API gateway.
  unfoldable pub run_gateway : (Text → Text) → Process
  run_gateway env = elim (gateway_repository env) [
    | err e ↦ failed_exit
    | ok backend ↦ gateway_on backend (connects backend)
  ]

  -- `main` of the storage service, and whether it closes its store.
  abbrev pub service_on : Backend → Option E → Process × Bool
  service_on backend (some e) = (failed_exit, false)
  service_on backend none = (serve wakeup shutdown, closes_store (serve wakeup shutdown) backend)

  unfoldable pub run_storage_service : (Text → Text) → Process × Bool
  run_storage_service env = elim (service_repository env) [
    | err e ↦ (failed_exit, false)
    | ok backend ↦ service_on backend (connects backend)
  ]

  -- With the result of the constructor: the service exits with an error, or it serves, and then it
  -- closes its store exactly when it exits cleanly.
  abbrev pub Serves : Option E → Process × Bool → Type 0
  Serves (some e) r = r ≡ (failed_exit, false)
  Serves none r = (r.0 ≡ serve wakeup shutdown) × ((r.1 ≡ true) ↔ (r.0 ≡ clean_exit))

  service_on-Serves :
      (connection : Text) (result : Option E)
      → Serves result (service_on (postgres_store connection) result)
  service_on-Serves connection (some e) = refl
  service_on-Serves connection none = (refl, closed (serve wakeup shutdown))
    where
      closed :
          (p : Process) → (closes_store p (postgres_store connection) ≡ true) ↔ (p ≡ clean_exit)
      closed clean_exit = (λ h. refl, λ h. refl)
      closed failed_exit = (λ h. cc, λ h. cc)
      closed crash = (λ h. cc, λ h. cc)
      closed running = (λ h. cc, λ h. cc)

  -- In every environment that chooses the PostgreSQL backend the API gateway exits with an error, before
  -- it serves a request and whatever else is set. The storage service opens the database of its
  -- variables: it exits with an error if it cannot, and else serves, and closes the store exactly when
  -- it exits cleanly.
  pub services_of_postgres :
      (env : Text → Text)
      → (load_config env).storage_backend ≡ codes "postgres"
      → (run_gateway env ≡ failed_exit)
        × Serves (connects (postgres_store (service_connection env))) (run_storage_service env)
  unfolding run_gateway run_storage_service
  services_of_postgres env h =
      let (gateway, service) = postgres_repositories env h in
      let store : Backend = postgres_store (service_connection env) in
      let opened : run_storage_service env ≡ service_on store (connects store) =
        rw (service, run_storage_service) refl in
      (
        rw (gateway, run_gateway) refl,
        subst (Serves (connects store)) (sym opened)
            (service_on-Serves (service_connection env) (connects store)),
      )
