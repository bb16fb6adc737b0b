-- ===== src/Collector/Accounting.antt =====
-- internal/collector/collector.go: every message that the loop receives is handled and counted.
use elastic_gpu_telemetry_pi.Common.{
  ℕ, ◌+◌, ◌≡◌, refl, ap, subst, sym, ◌∙◌, inl, inr, true, false, Option, none, some, List, [], ◌∷◌,
  ◌++◌, map, arith, length, length-append, leb, All, All-append, Bool-cases, Text, Result, ok,
  ◌>>=◌,
}
use elastic_gpu_telemetry_pi.Domain.{Message}
use elastic_gpu_telemetry_pi.Storage.{Repository, Acknowledger}
use elastic_gpu_telemetry_pi.Collector.{Collector, Setting, Panic, process_batch}
use elastic_gpu_telemetry_pi.Collector.Processing.{process_batch-Processes}
use elastic_gpu_telemetry_pi.Collector.Loop.{
  Event, context_done, channel_closed, tick, received, arrived, process_messages,
}
use elastic_gpu_telemetry_pi.Collector.Batching.{stops}
use elastic_gpu_telemetry_pi.Collector.Lifecycle.{Lifecycle, Cause, Ending, returned, start, stop}

-- Not a nil pointer.
abbrev pub IsGiven : Option Message → Type 0
IsGiven none = ⊥
IsGiven (some m) = Unit

given_messages :
    (b : List (Option Message)) → All IsGiven b → (ms : List Message) × (b ≡ map some ms)
given_messages [] g = ([], refl)
given_messages (none ∷ b) g = elim g.0 [ ]
given_messages (some m ∷ b) g =
    let (ms, e) = given_messages b g.1 in (m ∷ ms, ap (λ l. some m ∷ l) e)

length-map-some : (ms : List Message) → length (map some ms) ≡ length ms
length-map-some [] = refl
length-map-some (m ∷ ms) = omega (arith, length-map-some ms)

-- The messages that a collector has counted, as processed or as an error.
abbrev pub counted : {S Q : Type 0} → Collector S Q → ℕ
counted c = c.processed_count + c.error_count

module _ {S Q E G : Type 0} (repository : Repository S E) (queue : Acknowledger Q G)
    (setting : Setting) where
  Counts : List (Option Message) → Collector S Q → Type 0
  Counts b c =
      (t : Collector S Q) × (process_batch repository queue setting b c ≡ ok t)
      × (counted t ≡ counted c + length b)

  batch-Counts : (ms : List Message) (c : Collector S Q) → Counts (map some ms) c
  unfolding process_batch Counts
  batch-Counts [] c = (c, refl, omega arith)
  batch-Counts (m ∷ ms) c =
      let (t, run, p) = process_batch-Processes repository queue setting m ms c in
      (t, run, omega (arith, p.processed, p.failed, length-map-some ms))

  process_batch-Counts :
      (b : List (Option Message)) (c : Collector S Q) → All IsGiven b → Counts b c
  process_batch-Counts b c g =
      let (ms, e) = given_messages b g in subst (λ l. Counts l c) (sym e) (batch-Counts ms c)

  -- What the loop does with the messages that it has and those that arrive.
  Accounts :
      List Event
      → List (Option Message)
      → Collector S Q
      → Result Panic (Collector S Q × List (Option Message))
      → Type 0
  Accounts es b c r =
      (t : Collector S Q) × (left : List (Option Message)) × (r ≡ ok (t, left))
      × (counted t + length left ≡ counted c + length b + length (arrived es))
      × (stops es ≡ true → left ≡ [])

  -- A batch is handled, and then the loop goes on.
  flushed-Accounts :
      (es rest : List Event) (b : List (Option Message)) (c : Collector S Q)
      (next : Collector S Q → Result Panic (Collector S Q × List (Option Message)))
      → arrived es ≡ arrived rest
      → stops es ≡ stops rest
      → All IsGiven b
      → ((c' : Collector S Q) → Accounts rest [] c' (next c'))
      → Accounts es b c (process_batch repository queue setting b c >>= next)
  unfolding Accounts Counts
  flushed-Accounts es rest b c next same stop_same g h =
      let (t, run, counts) = process_batch-Counts b c g in
      let (u, left, run', counts', empty) = h t in
      (
        u,
        left,
        ap (λ r. r >>= next) run ∙ run',
        omega (arith, counts, counts', ap length same),
        λ s. empty (sym stop_same ∙ s),
      )

  finished-Accounts :
      (es : List Event) (b : List (Option Message)) (c : Collector S Q)
      → arrived es ≡ []
      → All IsGiven b
      → Accounts es b c (process_batch repository queue setting b c >>= (λ c'. ok (c', [])))
  unfolding Accounts Counts
  finished-Accounts es b c e g =
      let (t, run, counts) = process_batch-Counts b c g in
      (
        t,
        [],
        ap (λ r. r >>= (λ c'. ok (c', []))) run,
        omega (arith, counts, ap length e),
        λ s. refl,
      )

  process_messages-Accounts :
      (es : List Event) (b : List (Option Message)) (c : Collector S Q)
      → All IsGiven b
      → All IsGiven (arrived es)
      → Accounts es b c (process_messages repository queue setting es b c)
  unfolding process_messages arrived stops Accounts
  process_messages-Accounts [] b c g a = (c, b, refl, omega arith, λ s. cc)
  process_messages-Accounts (context_done ∷ es) b c g a =
      finished-Accounts (context_done ∷ es) b c refl g
  process_messages-Accounts (channel_closed ∷ es) b c g a =
      finished-Accounts (channel_closed ∷ es) b c refl g
  process_messages-Accounts (tick ∷ es) b c g a =
      flushed-Accounts (tick ∷ es) es b c _ refl refl g
        (λ c'. process_messages-Accounts es [] c' tt a)
  process_messages-Accounts (received m ∷ es) b c g (am, a) =
      let gm : All IsGiven (b ++ m ∷ []) = All-append IsGiven b (m ∷ []) g (am, tt) in
      elim (Bool-cases (leb setting.batch_size (length (b ++ m ∷ [])))) [
        | inl e ↦ rw e (
            taken m es b c _ (
              flushed-Accounts es es (b ++ m ∷ []) c _ refl refl gm
                (λ c'. process_messages-Accounts es [] c' tt a)))
        | inr e ↦ rw e (taken m es b c _ (process_messages-Accounts es (b ++ m ∷ []) c gm a))
      ]
    where
      taken :
          (m : Option Message) (es : List Event) (b : List (Option Message)) (c : Collector S Q)
          (r : Result Panic (Collector S Q × List (Option Message)))
          → Accounts es (b ++ m ∷ []) c r
          → Accounts (received m ∷ es) b c r
      taken m es b c r (t, left, run, counts, empty) =
          (t, left, run, omega (arith, counts, length-append b (m ∷ [])), empty)

  module _ {F : Type 0} (subscribes : Text → Q → Result F Q) where
    -- `Start` of a collector that was not started, whose subscription succeeds and which meets no nil
    -- message: once there is a cause to stop and the loop has stopped, it returns, its context is
    -- cancelled, and every message that the loop received is counted, as processed or as an error. So
    -- the shutdown loses no message of an unfinished batch.
    pub start_accounts :
        (cause : Cause) (es : List Event) (l : Lifecycle S Q) (q : Q)
        → l.started ≡ false
        → subscribes setting.instance_id l.collector.queue ≡ ok q
        → stops es ≡ true
        → All IsGiven (arrived es)
        → let r : Lifecycle S Q × Ending F =
            start repository queue setting subscribes (some cause) es l in
          (r.1 ≡ returned)
          × (r.0.cancelled ≡ true)
          × (counted r.0.collector ≡ counted l.collector + length (arrived es))
    unfolding start stop Accounts
    start_accounts cause es l q fresh subscribed stopped given =
        let (t, left, run, counts, empty) =
          process_messages-Accounts es [] (record l.collector { queue = q }) tt given in
        rw (subscribed, fresh, run, stopped)
          (refl, refl, omega (arith, counts, ap length (empty stopped)))
