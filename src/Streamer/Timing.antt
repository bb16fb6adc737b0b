-- ===== src/Streamer/Timing.antt =====
-- internal/streamer/streamer.go: `streamLoop` where time passes and a cancellation interrupts its waits.
use elastic_gpu_telemetry_pi.Common.{
  ℕ, zero, suc, ◌<◌, ◌≤◌, ◌≡◌, refl, ◌⊎◌, inl, inr, Bool, true, false, List, [], ◌∷◌, arith,
  Bool-cases,
}
use elastic_gpu_telemetry_pi.Domain.{TelemetryRecord, Message}
use elastic_gpu_telemetry_pi.Config.{StreamerConfig}
use elastic_gpu_telemetry_pi.Config.Bounds.{IsSize}
use elastic_gpu_telemetry_pi.Streamer.{
  Publication, accepted, refused, panics, Outside, Verdict, published, cancelled, panicked,
  retrying, skipped, Ending, completed, stopped, crashed, waiting, retry_wait, after_wait,
  after_publish, publish_loop, make_message, after_interval, after_record, stream_records,
  after_pass, stream_loop,
}

-- Time passes: `Publish` may take some of what remains, and each wait for a positive time does that is
-- not interrupted. A wait is interrupted when the context is cancelled.
pub record IsTimed {W E : Type 0} (outside : Outside W E) (remaining : W → ℕ) : Type 0 where
  pub publishes_on : (m : Message) (w : W) → remaining (outside.publishes m w).0 ≤ remaining w
  pub waits_on :
      (d : ℕ) (w : W)
      → IsSize d
      → (outside.waits d w).1 ≡ false
      → remaining (outside.waits d w).0 < remaining w
  pub interrupted :
      (d : ℕ) (w : W) → (outside.waits d w).1 ≡ true → outside.is_done (outside.waits d w).0 ≡ true

module _ {W E : Type 0} (outside : Outside W E) (remaining : W → ℕ)
    (ending : IsTimed outside remaining) (config : StreamerConfig)
    (interval : IsSize config.stream_interval) where
  -- Where the attempts at one message end: decided, with no time gained.
  Decides : ℕ → W × Verdict E → Type 0
  Decides n (w, published) = remaining w ≤ n
  Decides n (w, skipped e) = remaining w ≤ n
  Decides n (w, cancelled) = outside.is_done w ≡ true
  Decides n (w, panicked) = Unit
  Decides n (w, retrying) = ⊥

  -- Where a pass ends: in less time than before, or for good.
  Passes : ℕ → W × Ending → Type 0
  Passes n (w, completed) = remaining w < n
  Passes n (w, stopped) = outside.is_done w ≡ true
  Passes n (w, crashed) = Unit
  Passes n (w, waiting) = ⊥

  -- Where the loop ends for good.
  Ends : W × Ending → Type 0
  Ends (w, completed) = ⊥
  Ends (w, stopped) = outside.is_done w ≡ true
  Ends (w, crashed) = Unit
  Ends (w, waiting) = ⊥

  Decides-weaken : (n k : ℕ) (r : W × Verdict E) → n ≤ k → Decides n r → Decides k r
  unfolding Decides
  Decides-weaken n k (w, published) le d = omega arith
  Decides-weaken n k (w, skipped e) le d = omega arith
  Decides-weaken n k (w, cancelled) le d = d
  Decides-weaken n k (w, panicked) le d = tt
  Decides-weaken n k (w, retrying) le d = d

  Passes-weaken : (n k : ℕ) (r : W × Ending) → n ≤ k → Passes n r → Passes k r
  unfolding Passes
  Passes-weaken n k (w, completed) le d = omega arith
  Passes-weaken n k (w, stopped) le d = d
  Passes-weaken n k (w, crashed) le d = tt
  Passes-weaken n k (w, waiting) le d = d

  after_wait-Decides :
      (n : ℕ) (again : W → W × Verdict E) (y : W × Bool)
      → (y.1 ≡ true → outside.is_done y.0 ≡ true)
      → (y.1 ≡ false → Decides n (again y.0))
      → Decides n (after_wait outside again y)
  unfolding Decides
  after_wait-Decides n again (t, true) done h = done refl
  after_wait-Decides n again (t, false) done h = h refl

  -- With more attempts than units of time left, a message is decided.
  publish_loop-Decides :
      (left : ℕ) (m : Message) (w : W)
      → remaining w < left
      → Decides (remaining w) (publish_loop outside left m w)
  unfolding publish_loop Decides
  publish_loop-Decides zero m w l = absurd (omega arith)
  publish_loop-Decides (suc left) m w l =
      go (outside.publishes m w) (ending.publishes_on m w) (λ t. publish_loop-Decides left m t)
    where
      go :
          (x : W × Publication E)
          → remaining x.0 ≤ remaining w
          → ((t : W) → remaining t < left → Decides (remaining t) (publish_loop outside left m t))
          → Decides (remaining w) (after_publish outside (publish_loop outside left m) x)
      go (t, accepted) le rest = le
      go (t, panics) le rest = tt
      go (t, refused e) le rest = elim (Bool-cases (outside.is_queue_full e)) [
        | inl full ↦ rw full (
            let y = outside.waits retry_wait t in
            after_wait-Decides (remaining w) (publish_loop outside left m) y
              (ending.interrupted retry_wait t)
              (λ goes_on.
                let less = ending.waits_on retry_wait t (omega arith, omega arith) goes_on in
                Decides-weaken (remaining y.0) (remaining w) (publish_loop outside left m y.0)
                  (omega (arith, less, le)) (rest y.0 (omega (arith, less, le, l)))))
        | inr other ↦ elim (Bool-cases (outside.is_done t)) [
          | inl done ↦ rw (other, done) done
          | inr more ↦ rw (other, more) le
        ]
      ]

  after_interval-Passes :
      (n : ℕ) (rest : W → W × Ending) (t : W)
      → remaining t ≤ n
      → ((v : W) → remaining v < n → Passes n (rest v))
      → Passes n (after_interval outside rest (outside.waits config.stream_interval t))
  unfolding Passes
  after_interval-Passes n rest t le h =
      go (outside.waits config.stream_interval t) (ending.interrupted config.stream_interval t)
        (λ goes_on. omega (arith, ending.waits_on config.stream_interval t interval goes_on, le))
    where
      go :
          (y : W × Bool)
          → (y.1 ≡ true → outside.is_done y.0 ≡ true)
          → (y.1 ≡ false → remaining y.0 < n)
          → Passes n (after_interval outside rest y)
      go (v, true) done less = done refl
      go (v, false) done less = h v (less refl)

  after_record-Passes :
      (n : ℕ) (rest : W → W × Ending) (p : W × Verdict E)
      → Decides n p
      → ((v : W) → remaining v < n → Passes n (rest v))
      → Passes n (after_record outside config rest p)
  unfolding Decides Passes
  after_record-Passes n rest (t, published) d h = after_interval-Passes n rest t d h
  after_record-Passes n rest (t, skipped e) d h = after_interval-Passes n rest t d h
  after_record-Passes n rest (t, cancelled) d h = d
  after_record-Passes n rest (t, panicked) d h = tt
  after_record-Passes n rest (t, retrying) d h = d

  record-Passes :
      (attempts n : ℕ) (r : TelemetryRecord) (rs : List TelemetryRecord) (w : W)
      → remaining w ≤ n
      → remaining w < attempts
      → ((v : W) → remaining v < n → Passes n (stream_records outside config attempts rs v))
      → Passes n (stream_records outside config attempts (r ∷ rs) w)
  unfolding stream_records Passes
  record-Passes attempts n r rs w le l rest = elim (Bool-cases (outside.is_done w)) [
    | inl done ↦ rw done done
    | inr more ↦
        let p = publish_loop outside attempts (make_message outside config r w) w in
        rw more (
          after_record-Passes n (stream_records outside config attempts rs) p
            (Decides-weaken (remaining w) n p le
              (publish_loop-Decides attempts (make_message outside config r w) w l))
            rest)
  ]

  stream_records-Passes :
      (attempts n : ℕ) (rs : List TelemetryRecord) (w : W)
      → n ≤ attempts
      → remaining w < n
      → Passes n (stream_records outside config attempts rs w)
  unfolding stream_records Passes
  stream_records-Passes attempts n [] w enough less = less
  stream_records-Passes attempts n (r ∷ rs) w enough less =
      record-Passes attempts n r rs w (omega arith) (omega arith)
        (λ v. stream_records-Passes attempts n rs v enough)

  after_pass-Ends :
      (n : ℕ) (again : W → W × Ending) (p : W × Ending)
      → Passes n p
      → ((t : W) → remaining t < n → Ends (again t))
      → Ends (after_pass outside again p)
  unfolding Passes Ends
  after_pass-Ends n again (t, completed) less h = h t less
  after_pass-Ends n again (t, stopped) less h = less
  after_pass-Ends n again (t, crashed) less h = tt
  after_pass-Ends n again (t, waiting) less h = less

  stream_loop-Ends :
      (attempts passes : ℕ) (r : TelemetryRecord) (rs : List TelemetryRecord) (w : W)
      → remaining w < attempts
      → remaining w < passes
      → Ends (stream_loop outside config attempts passes (r ∷ rs) w)
  unfolding stream_loop Ends
  stream_loop-Ends attempts zero r rs w l k = absurd (omega arith)
  stream_loop-Ends attempts (suc passes) r rs w l k = elim (Bool-cases (outside.is_done w)) [
    | inl done ↦ rw done done
    | inr more ↦ rw more (
        after_pass-Ends (remaining w) (stream_loop outside config attempts passes (r ∷ rs))
          (stream_records outside config attempts (r ∷ rs) w)
          (record-Passes attempts (remaining w) r rs w (omega arith) l
            (λ v. stream_records-Passes attempts (remaining w) rs v (omega arith)))
          (λ t less. stream_loop-Ends attempts passes r rs t (omega arith) (omega arith)))
  ]

  -- With one attempt and one pass more than what remains, the loop ends: the context is done, or a call
  -- of `Publish` panicked.
  pub stream_loop_ends :
      (attempts passes : ℕ) (r : TelemetryRecord) (rs : List TelemetryRecord) (w : W)
      → remaining w < attempts
      → remaining w < passes
      → (t : W) × (((stream_loop outside config attempts passes (r ∷ rs) w ≡ (t, stopped))
            × (outside.is_done t ≡ true))
          ⊎ (stream_loop outside config attempts passes (r ∷ rs) w ≡ (t, crashed)))
  unfolding Ends
  stream_loop_ends attempts passes r rs w l k =
      ended (stream_loop outside config attempts passes (r ∷ rs) w)
        (stream_loop-Ends attempts passes r rs w l k)
    where
      ended :
          (x : W × Ending)
          → Ends x
          → (t : W) × (((x ≡ (t, stopped)) × (outside.is_done t ≡ true)) ⊎ (x ≡ (t, crashed)))
      ended (t, completed) e = absurd e
      ended (t, stopped) e = (t, inl (refl, e))
      ended (t, crashed) e = (t, inr refl)
      ended (t, waiting) e = absurd e
