-- ===== src/Commands/CollectorService.antt =====
-- cmd/collector/main.go: the process of the collector. `opens` is the constructor of the repository,
-- `dials` that of the queue, and `closes` the deferred `queue.Close`.
use elastic_gpu_telemetry_pi.Common.{
  arith, ◌≡◌, refl, true, Option, some, none, List, Text, Result, ok, err, All, length,
}
use elastic_gpu_telemetry_pi.Domain.{zero_time}
use elastic_gpu_telemetry_pi.Config.{CollectorConfig, load_collector_config}
use elastic_gpu_telemetry_pi.Storage.{Repository, Acknowledger}
use elastic_gpu_telemetry_pi.Factory.{Backend, QueueChoice, choose_queue, collector_repository}
use elastic_gpu_telemetry_pi.Collector.{Collector, Setting, new_collector}
use elastic_gpu_telemetry_pi.Collector.Loop.{Event, arrived}
use elastic_gpu_telemetry_pi.Collector.Batching.{stops}
use elastic_gpu_telemetry_pi.Collector.Lifecycle.{
  Lifecycle, Cause, Ending, subscribe_failed, started_twice, returned, waiting, loop_panics,
  new_lifecycle, start,
}
use elastic_gpu_telemetry_pi.Collector.Accounting.{IsGiven, counted, start_accounts}
use elastic_gpu_telemetry_pi.Commands.{Process, failed_exit, clean_exit, crash, running}

module _ {S Q E F G : Type 0} (repository : Repository S E) (queue : Acknowledger Q G)
    (setting : CollectorConfig → Setting) (subscribes : Text → Q → Result F Q)
    (opens : Backend → Result E S) (dials : QueueChoice → Q) (closes : Q → Q) where
  -- What `main` does with the end of `Start`.
  abbrev pub after_start : Lifecycle S Q × Ending F → Option (Collector S Q) × Process
  after_start (l, subscribe_failed e) = (some l.collector, failed_exit)
  after_start (l, returned) =
      (some (record l.collector { queue = closes l.collector.queue }), clean_exit)
  after_start (l, started_twice) = (some l.collector, crash)
  after_start (l, loop_panics p) = (some l.collector, crash)
  after_start (l, waiting) = (some l.collector, running)

  abbrev pub with_repository :
      Option Cause
      → List Event
      → CollectorConfig
      → Q
      → Result E S
      → Option (Collector S Q) × Process
  with_repository cause events cfg q (err e) = (none, failed_exit)
  with_repository cause events cfg q (ok s) = elim (new_collector (some q) (some s)) [
    | err e ↦ (none, failed_exit)
    | ok c ↦
        after_start (start repository queue (setting cfg) subscribes cause events (new_lifecycle c))
  ]

  -- `main`, with the collector that it made, if it made one.
  unfoldable pub run_collector :
      (Text → Text) → Text → Text → Option Cause → List Event → Option (Collector S Q) × Process
  run_collector env hostname pid cause events =
      let cfg = load_collector_config env hostname pid in
      elim (collector_repository env hostname pid) [
        | err e ↦ (none, failed_exit)
        | ok backend ↦
            with_repository cause events cfg (dials (choose_queue cfg.queue_service_url))
              (opens backend)
      ]

  after_start_of_returned :
      (r : Lifecycle S Q × Ending F)
      → r.1 ≡ returned
      → after_start r
        ≡ (some (record r.0.collector { queue = closes r.0.collector.queue }), clean_exit)
  after_start_of_returned (l, returned) h = refl
  after_start_of_returned (l, subscribe_failed e) h = cc
  after_start_of_returned (l, started_twice) h = cc
  after_start_of_returned (l, loop_panics p) h = cc
  after_start_of_returned (l, waiting) h = cc

  -- With a repository and a subscription, once there is a cause to stop and the loop has stopped, having
  -- met no nil message: the process exits cleanly, and has counted every message that it received.
  pub run_collector_accounts :
      (env : Text → Text) (hostname pid : Text) (cause : Cause) (events : List Event)
      (backend : Backend) (s : S) (q : Q)
      → let cfg : CollectorConfig = load_collector_config env hostname pid in
        collector_repository env hostname pid ≡ ok backend
        → opens backend ≡ ok s
        → subscribes (setting cfg).instance_id (dials (choose_queue cfg.queue_service_url)) ≡ ok q
        → stops events ≡ true
        → All IsGiven (arrived events)
        → let r = run_collector env hostname pid (some cause) events in
          (r.1 ≡ clean_exit)
          × ((c : Collector S Q) × (r.0 ≡ some c) × (counted c ≡ length (arrived events)))
  unfolding run_collector new_collector new_lifecycle
  run_collector_accounts env hostname pid cause events backend s q made opened subscribed stopped
        given =
      let cfg = load_collector_config env hostname pid in
      let fresh : Lifecycle S Q = new_lifecycle (record {
        repository = s;
        queue = dials (choose_queue cfg.queue_service_url);
        processed_count = 0;
        error_count = 0;
        last_processed_time = zero_time;
      }) in
      let (ended, cancelled, counts) =
        start_accounts repository queue (setting cfg) subscribes cause events fresh q refl
          subscribed stopped given in
      let run =
        after_start_of_returned
          (start repository queue (setting cfg) subscribes (some cause) events fresh) ended in
      rw (made, run_collector) (rw opened (rw run (refl, (_, refl, omega (arith, counts)))))
