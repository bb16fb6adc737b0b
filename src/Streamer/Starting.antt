-- ===== src/Streamer/Starting.antt =====
-- internal/streamer/streamer.go: `Start` and `Stop`, around the loop of the streamer. The goroutine of
-- `Start` runs before and after each call of `Publish` and each wait of the loop, where it takes a case
-- of its select once one is ready, and then runs `Stop`: it cancels the context and waits for the loop.
-- It has no further step of its own until the loop has ended. A goroutine that the scheduler runs late
-- is one whose signal comes late.
use elastic_gpu_telemetry_pi.Common.{
  ℕ, Bool, true, false, ◌||◌, Option, none, some, [], ◌∷◌, if◌then◌else◌,
}
use elastic_gpu_telemetry_pi.Streamer.{
  Outside, Streamer, Ending, completed, stopped, crashed, waiting, stream_loop,
}

-- The cases of the select of `Start`.
pub data Cause : Type 0 where
  signal_received shutdown_requested context_cancelled : Cause

-- What `Start` uses besides: whether a signal is there and `shutdownCh` is closed, and `cancel`.
pub record Signals (W : Type 0) : Type 0 where
  pub is_signalled : W → Bool
  pub is_shut_down : W → Bool
  pub cancels : W → W

-- How a call of `Start` ends. `unfinished` says that it has not.
pub data StartResult : Type 0 where
  no_records panicked unfinished : StartResult
  returned : Cause → StartResult

-- The case that `Start` has taken, if any; the context is then cancelled.
abbrev pub is_taken : Option Cause → Bool
is_taken none = false
is_taken (some c) = true

module _ {W E : Type 0} (outside : Outside W E) (signals : Signals W) where
  -- The select of `Start`. Where more than one case is ready, the choice is only logged.
  unfoldable pub select_cause : W → Option Cause
  select_cause w =
      if signals.is_signalled w
      then some signal_received
      else if signals.is_shut_down w
      then some shutdown_requested
      else if outside.is_done w
      then some context_cancelled
      else none

  abbrev pub Watched : Type 0
  Watched = W × Option Cause

  -- The cancellation in `Stop`, once the select has taken a case.
  abbrev pub stop_on : W → Option Cause → Watched
  stop_on w none = (w, none)
  stop_on w (some c) = (signals.cancels w, some c)

  -- The goroutine of `Start`, when it runs.
  abbrev pub watch : Watched → Watched
  watch (w, some c) = (w, some c)
  watch (w, none) = stop_on w (select_cause w)

  -- What the loop meets: `Start` runs between its steps, and once it has taken a case the context is
  -- cancelled, which interrupts a wait.
  unfoldable pub supervised : Outside Watched E
  supervised = record {
    publishes =
        λ m x. let y = watch x in let r = outside.publishes m y.0 in (watch (r.0, y.1), r.1);
    is_queue_full = outside.is_queue_full;
    is_done = λ x. outside.is_done x.0 || is_taken x.1;
    waits = λ d x.
        let y = watch x in
        let r = outside.waits d y.0 in let z = watch (r.0, y.1) in (z, r.1 || is_taken z.1);
    ingestion_now = λ x. outside.ingestion_now x.0;
    message_now = λ x. outside.message_now x.0;
    new_id = λ x. outside.new_id x.0;
  }

  -- The loop has ended: `Start` returns if it has taken a case, and else still waits for one.
  abbrev pub after_wait_group : Watched → W × StartResult
  after_wait_group (w, none) = (w, unfinished)
  after_wait_group (w, some c) = (w, returned c)

  abbrev pub after_loop : Watched × Ending → W × StartResult
  after_loop (x, stopped) = after_wait_group (watch x)
  after_loop (x, crashed) = (x.0, panicked)
  after_loop (x, completed) = (x.0, unfinished)
  after_loop (x, waiting) = (x.0, unfinished)

  -- `Start`, with the limits of the loops.
  unfoldable pub start : Streamer → ℕ → ℕ → W → W × StartResult
  start s attempts passes w = elim s.records [
    | [] ↦ (w, no_records)
    | r ∷ rs ↦ after_loop (stream_loop supervised s.config attempts passes s.records (w, none))
  ]
