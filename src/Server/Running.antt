-- ===== src/Server/Running.antt =====
-- pkg/mq/server.go: `Start` and `Stop`. What `net.Listen`, `Serve` and the timer give first to the
-- select of `Start` is an argument, and so is what `Shutdown` of net/http returns.
use elastic_gpu_telemetry_pi.Common.{Option, none, some, Bool, true, false, if◌then◌else◌}
use elastic_gpu_telemetry_pi.Queue.{Queue}

-- The server over its queue; `created` says that `server` is not nil.
pub record Server : Type 0 where
  pub queue : Queue
  pub created : Bool

unfoldable pub new_server : Queue → Server
new_server q = record { queue = q; created = false }

-- The listener is ready, the goroutine reports an error, or five seconds have passed.
pub data Startup (E : Type 0) : Type 0 where
  listening timed_out : Startup E
  reports : E → Startup E

pub data ServerError (E : Type 0) : Type 0 where
  start_failed shutdown_failed : E → ServerError E
  start_timeout : ServerError E

unfoldable pub start : {E : Type 0} → Startup E → Server → Server × Option (ServerError E)
start listening s = (record s { created = true }, none)
start timed_out s = (record s { created = true }, some start_timeout)
start (reports e) s = (record s { created = true }, some (start_failed e))

abbrev pub shutdown_result : {E : Type 0} → Option E → Option (ServerError E)
shutdown_result none = none
shutdown_result (some e) = some (shutdown_failed e)

-- `Stop`, where `shuts_down` gives what `Shutdown` returns within five seconds.
unfoldable pub stop : {E : Type 0} → (Queue → Option E) → Server → Option (ServerError E)
stop shuts_down s = if s.created then shutdown_result (shuts_down s.queue) else none
