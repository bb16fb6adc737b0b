-- ===== src/Commands/QueueService.antt =====
-- cmd/queue-service/main.go: the process of the queue service.
pub mod Stopping
use elastic_gpu_telemetry_pi.Common.{
  ℕ, ◌≤◌, ◌<◌, ◌==◌, not, ◌≡◌, refl, inl, inr, Bool, true, false, Option, none, some, List, [], ◌∷◌,
  arith, All, length, if◌then◌else◌,
}
use elastic_gpu_telemetry_pi.Config.{QueueConfig}
use elastic_gpu_telemetry_pi.Queue.{Queue, new_queue}
use elastic_gpu_telemetry_pi.Queue.Steps.{Action, acts}
use elastic_gpu_telemetry_pi.Queue.Streaming.{IsStreaming}
use elastic_gpu_telemetry_pi.Queue.Goroutines.{Environment, close}
use elastic_gpu_telemetry_pi.Server.Running.{Server, Startup, ServerError, new_server, start, stop}
use elastic_gpu_telemetry_pi.Commands.{Process, failed_exit, clean_exit, running}

-- The configuration's queue.
unfoldable pub configured_queue : QueueConfig → Queue
configured_queue cfg = new_queue cfg.buffer_size

-- What the select of `main` takes: an error of `Start`, or a signal, which may come before `Start` has
-- made its server. `nothing` says that it still waits.
pub data Wakeup (E : Type 0) : Type 0 where
  error_arrives : Startup E → Wakeup E
  signal_arrives : Option (Startup E) → Wakeup E
  nothing : Wakeup E

-- What the queue's goroutines and its clients do before the signal and during the shutdown, and what
-- interferes with `Close`.
pub record Surroundings : Type 0 where
  pub before : List Action
  pub during : List Action
  pub backlog_envs : ℕ → ℕ → Environment
  pub envs : ℕ → Environment
  pub gaps : ℕ → List Action
  pub last : List Action

module _ {E : Type 0} (shuts_down : Queue → Option E) (around : Surroundings) where
  -- After the signal. The deferred `Close` runs only if `main` returns.
  abbrev pub after_stop : Queue → Option (ServerError E) → Queue × Process
  after_stop q (some e) = (q, failed_exit)
  after_stop q none = (close around.backlog_envs around.envs around.gaps around.last q, clean_exit)

  abbrev pub on_signal : Server → Queue × Process
  on_signal s =
      let t : Server = record s { queue = acts around.during s.queue } in
      after_stop t.queue (stop shuts_down t)

  abbrev pub started : Option (Startup E) → Server → Server × Option (ServerError E)
  started none s = (s, none)
  started (some startup) s = start startup s

  abbrev pub on_error : Server × Option (ServerError E) → Queue × Process
  on_error (s, some e) = (s.queue, failed_exit)
  on_error (s, none) = (s.queue, running)

  -- `main`.
  unfoldable pub run_queue_service : QueueConfig → Wakeup E → Queue × Process
  run_queue_service cfg wakeup =
      let s = new_server (acts around.before (configured_queue cfg)) in
      elim wakeup [
        | error_arrives startup ↦ on_error (start startup s)
        | signal_arrives startup ↦ on_signal (started startup s).0
        | nothing ↦ (s.queue, running)
      ]

-- `Shutdown` of net/http reports an error if a connection is still active when its context expires.
abbrev pub WaitsForStreams : {E : Type 0} → (Queue → Option E) → Type 0
WaitsForStreams {E} shuts_down =
    (q : Queue) (ref : ℕ) → IsStreaming q ref → (e : E) × (shuts_down q ≡ some e)
