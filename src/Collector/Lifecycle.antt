-- ===== src/Collector/Lifecycle.antt =====
-- internal/collector/collector.go: `Start` and `Stop`, around the loop of `processMessages`. A panic of
-- the loop's goroutine ends the process, and so does one of `Start`.
use elastic_gpu_telemetry_pi.Common.{
  Bool, true, false, Option, none, some, List, [], Text, Result, ok, err, if◌then◌else◌,
}
use elastic_gpu_telemetry_pi.Domain.{Message}
use elastic_gpu_telemetry_pi.Storage.{Repository, Acknowledger}
use elastic_gpu_telemetry_pi.Collector.{Collector, Setting, Panic}
use elastic_gpu_telemetry_pi.Collector.Loop.{Event, process_messages}
use elastic_gpu_telemetry_pi.Collector.Batching.{stops}

-- The collector with its `startedCh`, which is closed or not, and its context.
pub record Lifecycle (S Q : Type 0) : Type 0 where
  pub collector : Collector S Q
  pub started : Bool
  pub cancelled : Bool

-- What the select of `Start` takes.
pub data Cause : Type 0 where
  signal_received shutdown_requested context_cancelled : Cause

-- How a call of `Start` ends. `loop_panics` is a panic in the loop's goroutine, `started_twice` that of
-- closing `startedCh` again.
pub data Ending (F : Type 0) : Type 0 where
  subscribe_failed : F → Ending F
  started_twice returned waiting : Ending F
  loop_panics : Panic → Ending F

-- `Stop`: it cancels the context, and waits for the loop. It can be called again.
unfoldable pub stop : {S Q : Type 0} → Lifecycle S Q → Lifecycle S Q
stop l = record l { cancelled = true }

module _ {S Q E F G : Type 0} (repository : Repository S E) (queue : Acknowledger Q G)
    (setting : Setting) (subscribes : Text → Q → Result F Q) where
  -- What `Start` does with what the loop made of its events: it waits for a cause to stop, and then for
  -- the loop to stop. A loop that stops by itself does not make it return.
  abbrev pub after_loop :
      Option Cause
      → Bool
      → Lifecycle S Q
      → Result Panic (Collector S Q × List (Option Message))
      → Lifecycle S Q × Ending F
  after_loop cause stopped l (err p) = (l, loop_panics p)
  after_loop none stopped l (ok r) = (record l { collector = r.0; started = true }, waiting)
  after_loop (some c) true l (ok r) =
      (stop (record l { collector = r.0; started = true }), returned)
  after_loop (some c) false l (ok r) =
      (stop (record l { collector = r.0; started = true }), waiting)

  abbrev pub after_subscribe :
      Option Cause → List Event → Lifecycle S Q → Result F Q → Lifecycle S Q × Ending F
  after_subscribe cause events l (err e) = (l, subscribe_failed e)
  after_subscribe cause events l (ok q) =
      let subscribed : Lifecycle S Q = record l { collector = record l.collector { queue = q } } in
      if l.started
      then (subscribed, started_twice)
      else after_loop cause (stops events) subscribed
          (process_messages repository queue setting events [] subscribed.collector)

  -- `Start`, given what its select takes, if anything, and the events that the loop's select takes.
  unfoldable pub start : Option Cause → List Event → Lifecycle S Q → Lifecycle S Q × Ending F
  start cause events l =
      after_subscribe cause events l (subscribes setting.instance_id l.collector.queue)

-- `NewCollector`.
unfoldable pub new_lifecycle : {S Q : Type 0} → Collector S Q → Lifecycle S Q
new_lifecycle c = record { collector = c; started = false; cancelled = false }
