-- ===== src/Commands/Tests.antt =====
-- Runs of the services' processes.
use elastic_gpu_telemetry_pi.Common.{
  ℕ, zero, suc, ◌<◌, ◌≡◌, refl, Bool, true, false, not, ◌&&◌, ◌||◌, Option, none, some, List, [],
  ◌∷◌, arith, Text, codes, if◌then◌else◌, text_eq, lookup, All,
}
use elastic_gpu_telemetry_pi.Config.{QueueConfig, load_config, get_env}
use elastic_gpu_telemetry_pi.Queue.{Queue, new_queue, new_queue_of_size, subscribe, ack}
use elastic_gpu_telemetry_pi.Queue.Steps.{
  Action, act, acts, subscribes, acks, takes_message, take_message,
}
use elastic_gpu_telemetry_pi.Queue.Goroutines.{calm}
use elastic_gpu_telemetry_pi.Queue.Streaming.{IsStreaming, leaves_open}
use elastic_gpu_telemetry_pi.Server.Running.{listening}
use elastic_gpu_telemetry_pi.Factory.{Backend, postgres_store, service_connection}
use elastic_gpu_telemetry_pi.Commands.{failed_exit, clean_exit}
use elastic_gpu_telemetry_pi.Commands.QueueService.{
  Surroundings, signal_arrives, run_queue_service, configured_queue, WaitsForStreams,
}
use elastic_gpu_telemetry_pi.Commands.QueueService.Stopping.{
  run_queue_service_fails, run_queue_service_closes,
}
use elastic_gpu_telemetry_pi.Commands.Services
use elastic_gpu_telemetry_pi.Commands.Services.{
  serve, run_gateway, run_storage_service, Serves, services_of_postgres,
}

-- A shutdown that fails exactly while a subscriber streams.
is_streaming : Queue → ℕ → Bool
is_streaming q ref = not (q.info ref).chan_closed && not (q.info ref).ctx_done

streams_below : ℕ → Queue → Bool
streams_below zero q = false
streams_below (suc n) q = is_streaming q n || streams_below n q

shutdown_of : Queue → Option Text
shutdown_of q =
    if streams_below q.next_ref q then some (codes "context deadline exceeded") else none

streams_below_of :
    (n ref : ℕ) (q : Queue) → ref < n → is_streaming q ref ≡ true → streams_below n q ≡ true
unfolding streams_below
streams_below_of zero ref q h s = absurd (omega arith)
streams_below_of (suc n) ref q h s = ground (arith, streams_below_of n ref q)

shutdown_of-WaitsForStreams : WaitsForStreams shutdown_of
unfolding shutdown_of is_streaming
shutdown_of-WaitsForStreams q ref s =
    (codes "context deadline exceeded", ground (arith, streams_below_of q.next_ref ref q s.made))

abbrev config : QueueConfig
config = record { port = codes "8080"; buffer_size = 4 }

abbrev around : List Action → Surroundings
around before = record {
  before = before;
  during = acks (codes "m1") (codes "c") ∷ takes_message ∷ [];
  backlog_envs = λ i j. calm (λ k. false) 5;
  envs = λ i. calm (λ k. false) 5;
  gaps = λ i. [];
  last = [];
}

abbrev connected : Surroundings
connected = around (subscribes (codes "c") ∷ [])

connected-IsStreaming : IsStreaming (acts connected.before (configured_queue config)) 0
unfolding acts act subscribe configured_queue new_queue new_queue_of_size
connected-IsStreaming = record { made = omega arith; channel_open = refl; connected = refl }

still_open : (acts connected.before (configured_queue config)).closed ≡ false
unfolding acts act subscribe configured_queue new_queue new_queue_of_size
still_open = refl

nobody_leaves : All (λ a. leaves_open 0 a ≡ true) connected.during
unfolding leaves_open
nobody_leaves = (refl, (refl, tt))

run_queue_service_fails_example :
    let r = run_queue_service shutdown_of connected config (signal_arrives (some listening)) in
    (r.1 ≡ failed_exit) × (r.0.closed ≡ false) × IsStreaming r.0 0
run_queue_service_fails_example =
    run_queue_service_fails shutdown_of connected config 0 shutdown_of-WaitsForStreams
      connected-IsStreaming still_open nobody_leaves

-- Nobody subscribes.
abbrev alone : Surroundings
alone = around []

alone_shuts_down :
    shutdown_of (acts alone.during (acts alone.before (configured_queue config))) ≡ none
unfolding shutdown_of streams_below acts act ack take_message lookup configured_queue new_queue
    new_queue_of_size
alone_shuts_down = refl

alone_open : (acts alone.during (acts alone.before (configured_queue config))).closed ≡ false
unfolding acts act ack take_message lookup configured_queue new_queue new_queue_of_size
alone_open = refl

run_queue_service_closes_example :
    let r = run_queue_service shutdown_of alone config (signal_arrives (some listening)) in
    (r.1 ≡ clean_exit) × (r.0.messages ≡ []) × (r.0.subscribers ≡ []) × (r.0.pending ≡ [])
run_queue_service_closes_example =
    run_queue_service_closes shutdown_of alone config alone_shuts_down alone_open

-- An environment that chooses PostgreSQL, and a database that accepts every connection.
abbrev env : Text → Text
env key = if text_eq key (codes "STORAGE_BACKEND") then codes "postgres" else []

chosen : (load_config env).storage_backend ≡ codes "postgres"
unfolding load_config get_env text_eq
chosen = refl

abbrev accepts : Backend → Option Text
accepts backend = none

services_of_postgres_example :
    (run_gateway accepts Services.signal_arrives none env ≡ failed_exit)
    × Serves accepts Services.signal_arrives none
        (accepts (postgres_store (service_connection env)))
        (run_storage_service accepts Services.signal_arrives none env)
services_of_postgres_example = services_of_postgres accepts Services.signal_arrives none env chosen

closes_its_store : (run_storage_service accepts Services.signal_arrives none env).0 ≡ clean_exit
unfolding serve
closes_its_store = (services_of_postgres accepts Services.signal_arrives none env chosen).1.0
