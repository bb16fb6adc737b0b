-- ===== src/Commands/QueueService/Stopping.antt =====
-- cmd/queue-service/main.go: how the shutdown ends, with and without a client that streams.
use elastic_gpu_telemetry_pi.Common.{ℕ, ◌≡◌, refl, ◌∙◌, true, false, Option, none, some, [], All}
use elastic_gpu_telemetry_pi.Config.{QueueConfig}
use elastic_gpu_telemetry_pi.Queue.{Queue}
use elastic_gpu_telemetry_pi.Queue.Steps.{acts}
use elastic_gpu_telemetry_pi.Queue.Streaming.{IsStreaming, leaves_open, acts-IsStreaming}
use elastic_gpu_telemetry_pi.Queue.Closing.{close_empties}
use elastic_gpu_telemetry_pi.Server.Running.{new_server, start, stop, listening}
use elastic_gpu_telemetry_pi.Commands.{failed_exit, clean_exit}
use elastic_gpu_telemetry_pi.Commands.QueueService.{
  Surroundings, signal_arrives, configured_queue, run_queue_service, WaitsForStreams,
}

module _ {E : Type 0} (shuts_down : Queue → Option E) (around : Surroundings)
    (cfg : QueueConfig) where
  -- The queue when the signal comes, and when the shutdown ends.
  abbrev pub at_signal : Queue
  at_signal = acts around.before (configured_queue cfg)

  abbrev pub at_end : Queue
  at_end = acts around.during at_signal

  -- Where `Shutdown` fails as long as a stream is active: if a client is connected when the signal
  -- comes, and stays, the service waits in vain, exits with an error, and never closes the queue.
  pub run_queue_service_fails :
      (ref : ℕ)
      → WaitsForStreams shuts_down
      → IsStreaming at_signal ref
      → at_signal.closed ≡ false
      → All (λ a. leaves_open ref a ≡ true) around.during
      → let r = run_queue_service shuts_down around cfg (signal_arrives (some listening)) in
        (r.1 ≡ failed_exit) × (r.0.closed ≡ false) × IsStreaming r.0 ref
  unfolding run_queue_service new_server start stop
  run_queue_service_fails ref waits streaming opened stays =
      let (still, same) = acts-IsStreaming ref around.during at_signal stays streaming in
      let (e, fails) = waits at_end ref still in rw fails (refl, same ∙ opened, still)

  -- Where `Shutdown` succeeds, the service closes its queue and exits cleanly: the messages that the
  -- channel held have left it, no subscriber is listed and nothing is pending.
  pub run_queue_service_closes :
      shuts_down at_end ≡ none
      → at_end.closed ≡ false
      → let r = run_queue_service shuts_down around cfg (signal_arrives (some listening)) in
        (r.1 ≡ clean_exit) × (r.0.messages ≡ []) × (r.0.subscribers ≡ []) × (r.0.pending ≡ [])
  unfolding run_queue_service new_server start stop
  run_queue_service_closes succeeds opened =
      let (m, s, p) =
        close_empties around.backlog_envs around.envs around.gaps around.last at_end opened in
      rw succeeds (refl, m, s, p)
