-- ===== src/Streamer/Stopping.antt =====
-- internal/streamer/streamer.go: `Start`, once there is going to be a cause to stop.
use elastic_gpu_telemetry_pi.Common.{ℕ, ◌<◌, ◌≤◌, ◌≡◌, ◌⊎◌, true, false, none, some}
use elastic_gpu_telemetry_pi.Domain.{Message}
use elastic_gpu_telemetry_pi.Config.Bounds.{IsSize}
use elastic_gpu_telemetry_pi.Streamer.{Outside, Streamer}
use elastic_gpu_telemetry_pi.Streamer.Starting.{Signals, select_cause, Watched}

module _ {W E : Type 0} (outside : Outside W E) (signals : Signals W) (remaining : W → ℕ) where
  -- There is a cause to stop: a signal, a closed `shutdownCh`, or a context that is cancelled.
  abbrev pub HasCause : W → Type 0
  HasCause w =
      (signals.is_signalled w ≡ true)
      ⊎ ((signals.is_shut_down w ≡ true) ⊎ (outside.is_done w ≡ true))

  -- There is a cause to stop when nothing remains. Each wait for a positive time that is not interrupted
  -- takes some of what remains, and no step adds to it. A wait is interrupted only when the context is
  -- cancelled.
  pub record IsEnding : Type 0 where
    pub due : (w : W) → remaining w ≡ 0 → HasCause w
    pub publishes_on : (m : Message) (w : W) → remaining (outside.publishes m w).0 ≤ remaining w
    pub cancels_on : (w : W) → remaining (signals.cancels w) ≤ remaining w
    pub waits_on :
        (d : ℕ) (w : W)
        → IsSize d
        → (outside.waits d w).1 ≡ false
        → (remaining (outside.waits d w).0 < remaining w) ⊎ (remaining (outside.waits d w).0 ≡ 0)
    pub interrupted :
        (d : ℕ) (w : W)
        → (outside.waits d w).1 ≡ true
        → outside.is_done (outside.waits d w).0 ≡ true

  -- What is left of the run of the goroutine of `Start`: it took a case, or there was none.
  Watches : Watched outside signals → Watched outside signals → Type 0
  Watches (w, c) (t, none) = (t ≡ w) × (select_cause outside signals w ≡ none)
  Watches (w, c) (t, some c') = remaining t ≤ remaining w
