-- ===== src/Streamer/Command.antt =====
-- cmd/streamer/main.go: the process of the streamer, over the queue that `Factory.choose_queue` picks.
-- `closes` is the deferred `queue.Close`, which `os.Exit` and a panic elsewhere leave out.
use elastic_gpu_telemetry_pi.Common.{ℕ, ◌≡◌, refl, none, some, List, [], ◌∷◌, Result, ok, err}
use elastic_gpu_telemetry_pi.Domain.{Gpu, TelemetryRecord}
use elastic_gpu_telemetry_pi.Config.{StreamerConfig}
use elastic_gpu_telemetry_pi.Commands.{Process, failed_exit, clean_exit, crash, running}
use elastic_gpu_telemetry_pi.Streamer.{Outside, new_streamer, load_csv, stream_loop}
use elastic_gpu_telemetry_pi.Streamer.Starting.{
  Signals, StartResult, no_records, panicked, unfinished, returned, supervised, after_loop, start,
}

-- What `main` does once `Start` returns, if it does.
unfoldable pub after_start : {W : Type 0} → (W → W) → W × StartResult → W × Process
after_start closes (w, no_records) = (w, failed_exit)
after_start closes (w, returned c) = (closes w, clean_exit)
after_start closes (w, panicked) = (w, crash)
after_start closes (w, unfinished) = (w, running)

module _ {W E O F P : Type 0} (outside : Outside W E) (signals : Signals W) (closes : W → W) where
  -- `main`, given the parser, what `os.Open` returns, and the limits of the loops.
  unfoldable pub run_streamer :
      (F → Result P (List TelemetryRecord × List Gpu))
      → Result O F
      → StreamerConfig
      → ℕ
      → ℕ
      → W
      → W × Process
  run_streamer parses opened config attempts passes w =
      let (s, failure) = load_csv parses opened (new_streamer config) in
      elim failure [
        | some e ↦ (w, failed_exit)
        | none ↦ after_start closes (start outside signals s attempts passes w)
      ]

  -- What `main` does by the file: it exits with an error, and publishes nothing, when the file cannot be
  -- opened or parsed or has no record; else it is the stream loop over the parsed records under the
  -- goroutine of `Start`, after which the queue is closed if `Start` returned.
  abbrev pub Runs :
      (F → Result P (List TelemetryRecord × List Gpu))
      → StreamerConfig
      → ℕ
      → ℕ
      → W
      → Result O F
      → W × Process
      → Type 0
  Runs parses config attempts passes w (err e) r = r ≡ (w, failed_exit)
  Runs parses config attempts passes w (ok file) r = elim (parses file) [
    | err e ↦ r ≡ (w, failed_exit)
    | ok loaded ↦ elim loaded.0 [
      | [] ↦ r ≡ (w, failed_exit)
      | first ∷ rest ↦
          r
          ≡ after_start closes (
              after_loop outside signals (
                stream_loop (supervised outside signals) config attempts passes (first ∷ rest)
                  (w, none)))
    ]
  ]

  pub run_streamer-Runs :
      (parses : F → Result P (List TelemetryRecord × List Gpu)) (opened : Result O F)
      (config : StreamerConfig) (attempts passes : ℕ) (w : W)
      → Runs parses config attempts passes w opened
          (run_streamer parses opened config attempts passes w)
  unfolding run_streamer load_csv new_streamer start after_start
  run_streamer-Runs parses (err e) config attempts passes w = refl
  run_streamer-Runs parses (ok file) config attempts passes w = go (parses file) refl
    where
      go :
          (parsed : Result P (List TelemetryRecord × List Gpu))
          → parses file ≡ parsed
          → Runs parses config attempts passes w
              (ok file)
              (run_streamer parses (ok file) config attempts passes w)
      go (err e) h = simp (h, Runs, run_streamer, load_csv)
      go (ok ([], gpus)) h = simp (h, Runs, run_streamer, load_csv)
      go (ok (first ∷ rest, gpus)) h = simp (h, Runs, run_streamer, load_csv)
