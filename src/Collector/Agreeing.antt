-- ===== src/Collector/Agreeing.antt =====
-- internal/collector/collector.go: the collector over two repositories that save in the same way.
use elastic_gpu_telemetry_pi.Common.{
  ◌≡◌, refl, ap, sym, ◌∙◌, Option, none, some, List, [], ◌∷◌, ◌++◌, Text, Map, Result, ok, err,
  ◌>>=◌, All, All-append, leb, length, Option-cases, inl, inr, insert, lookup, Bool-cases, is_empty,
  not, ◌&&◌, text_eq,
}
use elastic_gpu_telemetry_pi.Domain.{Gpu, TelemetryRecord, Message}
use elastic_gpu_telemetry_pi.Storage.{Repository, Acknowledger}
use elastic_gpu_telemetry_pi.Collector.Loop.{
  Event, context_done, channel_closed, tick, received, arrived, process_messages,
}
use elastic_gpu_telemetry_pi.Collector.Lifecycle.{Lifecycle, Cause, after_subscribe, start}
use elastic_gpu_telemetry_pi.Collector.{
  Collector, Setting, Panic, ValidationError, invalid_record, gpu_of, track, track_payload,
  payload_of, collect_batch, validate_telemetry_record, save_gpus, saved, process_payload,
  process_message, after_message, process_all, ack_all, acknowledged, process_batch,
}

-- Both saves leave the same state, and both or none fail.
abbrev pub SavesAlike : {S E E' : Type 0} → S × Option E → S × Option E' → Type 0
SavesAlike (s, none) (t, none) = s ≡ t
SavesAlike (s, some e) (t, some e') = s ≡ t
SavesAlike _ _ = ⊥

-- The repositories save alike the records that meet `Fit`, and the GPUs of these.
pub record IsAgreeing {S E E' : Type 0} (a : Repository S E) (b : Repository S E')
    (FitGpu : Gpu → Type 0) (Fit : TelemetryRecord → Type 0) : Type 0 where
  pub gpu_fits : (r : TelemetryRecord) → Fit r → FitGpu (gpu_of r)
  pub gpus : (g : Gpu) (s : S) → FitGpu g → SavesAlike (a.saves_gpu g s) (b.saves_gpu g s)
  pub records :
      (r : TelemetryRecord) (s : S)
      → Fit r
      → SavesAlike (a.saves_telemetry r s) (b.saves_telemetry r s)

abbrev pub FitsPayload : (TelemetryRecord → Type 0) → Option TelemetryRecord → Type 0
FitsPayload Fit none = Unit
FitsPayload Fit (some r) = Fit r

-- The message has no record, or one that meets `Fit`.
abbrev pub Fits : (TelemetryRecord → Type 0) → Option Message → Type 0
Fits Fit m = FitsPayload Fit (payload_of m)

state_of_SavesAlike :
    {S E E' : Type 0} (x : S × Option E) (y : S × Option E') → SavesAlike x y → x.0 ≡ y.0
state_of_SavesAlike (s, none) (t, none) e = e
state_of_SavesAlike (s, some x) (t, some y) e = e
state_of_SavesAlike (s, none) (t, some y) e = absurd e
state_of_SavesAlike (s, some x) (t, none) e = absurd e

module _ {S Q E F : Type 0} (repository : Repository S E) (queue : Acknowledger Q F)
    (setting : Setting) (r : TelemetryRecord) (g : Map Gpu) (s : S) where
  process_payload_valid :
      validate_telemetry_record r ≡ none
      → process_payload repository queue setting (some r) g s
        ≡ saved repository queue setting (repository.saves_telemetry r s) (track_payload (some r) g)
  process_payload_valid e = rw (e, process_payload) refl

  process_payload_invalid :
      (x : ValidationError)
      → validate_telemetry_record r ≡ some x
      → process_payload repository queue setting (some r) g s ≡ (s, g, some (invalid_record x))
  process_payload_invalid x e = rw (e, process_payload) refl

module _ {S Q E E' F : Type 0} (a : Repository S E) (b : Repository S E') (queue : Acknowledger Q F)
    (setting : Setting) (FitGpu : Gpu → Type 0) (Fit : TelemetryRecord → Type 0)
    (agreeing : IsAgreeing a b FitGpu Fit) where
  save_gpus_agree :
      (gpus : List Gpu) (s : S)
      → All FitGpu gpus
      → save_gpus a queue setting gpus s ≡ save_gpus b queue setting gpus s
  unfolding save_gpus
  save_gpus_agree [] s fits = refl
  save_gpus_agree (g ∷ gpus) s (fit, fits) =
      ap (save_gpus a queue setting gpus)
        (state_of_SavesAlike (a.saves_gpu g s) (b.saves_gpu g s) (agreeing.gpus g s fit))
      ∙ save_gpus_agree gpus (b.saves_gpu g s).0 fits

  abbrev Rest : Type 0
  Rest = Map Gpu → Collector S Q → Result Panic (Collector S Q × List Message)

  after_saved_agree :
      (m : Message) (c : Collector S Q) (g : Map Gpu) (rest rest' : Rest)
      → ((c' : Collector S Q) → rest g c' ≡ rest' g c')
      → (x : S × Option E) (y : S × Option E') → SavesAlike x y
      → after_message a queue setting rest m c (saved a queue setting x g)
        ≡ after_message b queue setting rest' m c (saved b queue setting y g)
  after_saved_agree m c g rest rest' same (s, none) (t, none) e = rw (e, same _) refl
  after_saved_agree m c g rest rest' same (s, some x) (t, some y) e = rw (e, same _) refl
  after_saved_agree m c g rest rest' same (s, none) (t, some y) e = absurd e
  after_saved_agree m c g rest rest' same (s, some x) (t, none) e = absurd e

  process_payload_agree :
      (p : Option TelemetryRecord) (m : Message) (c : Collector S Q) (s : S) (g : Map Gpu)
      (rest rest' : Rest)
      → FitsPayload Fit p
      → ((g' : Map Gpu) (c' : Collector S Q) → rest g' c' ≡ rest' g' c')
      → after_message a queue setting rest m c (process_payload a queue setting p g s)
        ≡ after_message b queue setting rest' m c (process_payload b queue setting p g s)
  process_payload_agree none m c s g rest rest' fit same = same g _
  process_payload_agree (some r) m c s g rest rest' fit same =
      let after = after_message a queue setting rest m c in
      let after' = after_message b queue setting rest' m c in
      elim (Option-cases (validate_telemetry_record r)) [
        | inl e ↦
            ap after (process_payload_valid a queue setting r g s e)
            ∙ after_saved_agree m c (track_payload (some r) g) rest rest' (same _)
                (a.saves_telemetry r s) (b.saves_telemetry r s) (agreeing.records r s fit)
            ∙ sym (ap after' (process_payload_valid b queue setting r g s e))
        | inr (x, e) ↦
            ap after (process_payload_invalid a queue setting r g s x e)
            ∙ same g _
            ∙ sym (ap after' (process_payload_invalid b queue setting r g s x e))
      ]

  process_all_agree :
      (batch : List (Option Message)) (g : Map Gpu) (c : Collector S Q)
      → All (Fits Fit) batch
      → process_all a queue setting batch g c ≡ process_all b queue setting batch g c
  unfolding process_all process_message
  process_all_agree [] g c fits = refl
  process_all_agree (none ∷ batch) g c fits = refl
  process_all_agree (some m ∷ batch) g c (fit, fits) =
      process_payload_agree m.payload m c c.repository g (process_all a queue setting batch)
        (process_all b queue setting batch) fit (λ g' c'. process_all_agree batch g' c' fits)

  -- All GPUs of the map fit.
  abbrev FitMap : Map Gpu → Type 0
  FitMap g = All (λ e. FitGpu e.1) g

  insert-FitMap :
      (uuid : Text) (gpu : Gpu) (g : Map Gpu) → FitGpu gpu → FitMap g → FitMap (insert uuid gpu g)
  unfolding insert
  insert-FitMap uuid gpu [] fit h = (fit, tt)
  insert-FitMap uuid gpu ((j, w) ∷ g) fit h = elim (Bool-cases (text_eq j uuid)) [
    | inl e ↦ rw e (fit, h.1)
    | inr e ↦ rw e (h.0, insert-FitMap uuid gpu g fit h.1)
  ]

  track-FitMap : (gpu : Gpu) (g : Map Gpu) → FitGpu gpu → FitMap g → FitMap (track gpu g)
  unfolding track
  track-FitMap gpu g fit h =
      let added = insert-FitMap gpu.uuid gpu g fit h in
      elim (Option-cases (lookup gpu.uuid g)) [
        | inl e ↦ rw (e, track) added
        | inr (x, e) ↦ elim (Bool-cases (not (is_empty gpu.model) && is_empty x.model)) [
          | inl e' ↦ rw (e, e', track) added
          | inr e' ↦ rw (e, e', track) h
        ]
      ]

  track_payload-FitMap :
      (p : Option TelemetryRecord) (g : Map Gpu)
      → FitsPayload Fit p
      → FitMap g
      → FitMap (track_payload p g)
  track_payload-FitMap none g fit h = h
  track_payload-FitMap (some r) g fit h = elim (Bool-cases (is_empty r.gpu_uuid)) [
    | inl e ↦ rw e h
    | inr e ↦ rw e (track-FitMap (gpu_of r) g (agreeing.gpu_fits r fit) h)
  ]

  collect_batch-FitMap :
      (batch : List (Option Message)) (g : Map Gpu)
      → All (Fits Fit) batch
      → FitMap g
      → FitMap (collect_batch batch g)
  unfolding collect_batch
  collect_batch-FitMap [] g fits h = h
  collect_batch-FitMap (m ∷ batch) g (fit, fits) h =
      collect_batch-FitMap batch (track_payload (payload_of m) g) fits
        (track_payload-FitMap (payload_of m) g fit h)

  module _ (ranges : (g : Map Gpu) → FitMap g → All FitGpu (setting.visits g)) where
    process_batch_agree :
        (batch : List (Option Message)) (c : Collector S Q)
        → All (Fits Fit) batch
        → process_batch a queue setting batch c ≡ process_batch b queue setting batch c
    unfolding process_batch ack_all
    process_batch_agree [] c fits = refl
    process_batch_agree (m ∷ batch) c fits =
        let g = collect_batch (m ∷ batch) [] in
        let saves =
          save_gpus_agree (setting.visits g) c.repository
            (ranges g (collect_batch-FitMap (m ∷ batch) [] fits tt)) in
        ap
          (λ s.
            process_all a queue setting (m ∷ batch) g (record c { repository = s })
            >>= acknowledged a queue setting)
          saves
        ∙ ap (λ r. r >>= acknowledged a queue setting)
            (process_all_agree (m ∷ batch) g
              (record c { repository = save_gpus b queue setting (setting.visits g) c.repository })
              fits)

    -- A batch is handled, and then the loop goes on.
    flushed_agree :
        (batch : List (Option Message)) (c : Collector S Q)
        (next next' : Collector S Q → Result Panic (Collector S Q × List (Option Message)))
        → All (Fits Fit) batch
        → ((c' : Collector S Q) → next c' ≡ next' c')
        → process_batch a queue setting batch c >>= next
          ≡ process_batch b queue setting batch c >>= next'
    flushed_agree batch c next next' fits same =
        rw (process_batch_agree batch c fits) (go (process_batch b queue setting batch c))
      where
        go : (r : Result Panic (Collector S Q)) → r >>= next ≡ r >>= next'
        go (err e) = refl
        go (ok c') = same c'

    process_messages_agree :
        (es : List Event) (batch : List (Option Message)) (c : Collector S Q)
        → All (Fits Fit) batch
        → All (Fits Fit) (arrived es)
        → process_messages a queue setting es batch c ≡ process_messages b queue setting es batch c
    unfolding process_messages arrived
    process_messages_agree [] batch c fits h = refl
    process_messages_agree (context_done ∷ es) batch c fits h =
        flushed_agree batch c _ _ fits (λ c'. refl)
    process_messages_agree (channel_closed ∷ es) batch c fits h =
        flushed_agree batch c _ _ fits (λ c'. refl)
    process_messages_agree (tick ∷ es) batch c fits h =
        flushed_agree batch c _ _ fits (λ c'. process_messages_agree es [] c' tt h)
    process_messages_agree (received m ∷ es) batch c fits (fit, h) =
        let more = All-append (Fits Fit) batch (m ∷ []) fits (fit, tt) in
        elim (Bool-cases (leb setting.batch_size (length (batch ++ m ∷ [])))) [
          | inl e ↦ rw e (
              flushed_agree (batch ++ m ∷ []) c _ _ more
                (λ c'. process_messages_agree es [] c' tt h))
          | inr e ↦ rw e (process_messages_agree es (batch ++ m ∷ []) c more h)
        ]

    -- `Start` and the loop of a collector do the same over both repositories, where the records of the
    -- messages that arrive meet `Fit`.
    pub start_agree :
        {G : Type 0} (subscribes : Text → Q → Result G Q) (cause : Option Cause) (es : List Event)
        (l : Lifecycle S Q)
        → All (Fits Fit) (arrived es)
        → start a queue setting subscribes cause es l ≡ start b queue setting subscribes cause es l
    unfolding start
    start_agree {G} subscribes cause es l fits =
        go (subscribes setting.instance_id l.collector.queue)
      where
        go :
            (x : Result G Q)
            → after_subscribe a queue setting subscribes cause es l x
              ≡ after_subscribe b queue setting subscribes cause es l x
        go (err e) = refl
        go (ok q) =
            rw (process_messages_agree es [] (record l.collector { queue = q }) tt fits) refl
