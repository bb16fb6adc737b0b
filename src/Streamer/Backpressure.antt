-- ===== src/Streamer/Backpressure.antt =====
-- internal/streamer/streamer.go: `streamLoop` over a queue that refuses a message only while it is full.
use mathlib.Core.List.{append_assoc, append-nil}
use elastic_gpu_telemetry_pi.Common.{
  ℕ, zero, suc, ◌<◌, ◌≤◌, ◌≡◌, ◌≢◌, refl, sym, ap, subst, ◌∙◌, ◌⊎◌, inl, inr, true, false, none,
  some, List, [], ◌∷◌, ◌++◌, arith,
}
use elastic_gpu_telemetry_pi.Domain.{Time, TelemetryRecord, Message, new_message, empty, zero_time}
use elastic_gpu_telemetry_pi.Config.{StreamerConfig}
use elastic_gpu_telemetry_pi.Streamer.{
  accepted, refused, Outside, Verdict, published, Ending, completed, retry_wait, after_wait,
  after_publish, publish_loop, make_message, after_interval, after_record, stream_records,
  after_pass, stream_loop,
}

-- The message carries the record: only its ingestion time is new.
pub record IsCarriedBy (config : StreamerConfig) (r : TelemetryRecord) (m : Message) : Type 0 where
  pub time : Time
  pub payload : m.payload ≡ some (record r { ingestion_time = time })
  pub producer : m.producer_id ≡ config.instance_id

-- The same, with a time that is not the zero time.
pub record IsStamped (config : StreamerConfig) (r : TelemetryRecord) (m : Message) : Type 0 where
  pub carried : IsCarriedBy config r m
  pub stamped : carried.time ≢ zero_time

-- The messages carry the records, one each, in order.
pub data Carries (config : StreamerConfig) : List TelemetryRecord → List Message → Type 0 where
  none_left : Carries config [] []
  one_more :
      {r : TelemetryRecord} {m : Message} {rs : List TelemetryRecord} {ms : List Message}
      → IsStamped config r m
      → Carries config rs ms
      → Carries config (r ∷ rs) (m ∷ ms)

Carries-append :
    {config : StreamerConfig} {rs rs' : List TelemetryRecord} {ms ms' : List Message}
    → Carries config rs ms
    → Carries config rs' ms'
    → Carries config (rs ++ rs') (ms ++ ms')
Carries-append none_left k = k
Carries-append (one_more c h) k = one_more c (Carries-append h k)

-- The records of a number of passes.
unfoldable pub cycles : ℕ → List TelemetryRecord → List TelemetryRecord
cycles zero rs = []
cycles (suc k) rs = rs ++ cycles k rs

-- A queue that accepts messages as long as it has room, and is relieved while the streamer waits: `log`
-- is what it has accepted so far, `load`, at most
-- `capacity`, bounds the refusals that may follow, and `Good` is what the
-- queue and the context keep.
pub record IsRelieved {W E : Type 0} (outside : Outside W E) (Good : W → Type 0)
    (log : W → List Message) (load : W → ℕ) (capacity : ℕ) : Type 0 where
  pub bounded : (w : W) → Good w → load w ≤ capacity
  pub goes_on : (w : W) → Good w → outside.is_done w ≡ false
  pub identified : (w : W) → Good w → outside.new_id w ≢ empty
  pub clocked : (w : W) → Good w → outside.ingestion_now w ≢ zero_time
  pub waits_well :
      (d : ℕ) (w : W)
      → Good w
      → (t : W) × (outside.waits d w ≡ (t, false)) × Good t × (log t ≡ log w)
  pub publishes_well :
      (m : Message) (w : W)
      → Good w
      → m.id ≢ empty
      → m.payload ≢ none
      → ((t : W) × (outside.publishes m w ≡ (t, accepted)) × Good t × (log t ≡ log w ++ m ∷ []))
        ⊎ ((t : W) × (e : E) × (outside.publishes m w ≡ (t, refused e))
            × (outside.is_queue_full e ≡ true)
            × Good t
            × (log t ≡ log w)
            × (load (outside.waits retry_wait t).0 < load w))

module _ {W E : Type 0} (outside : Outside W E) (Good : W → Type 0) (log : W → List Message)
    (load : W → ℕ) (capacity : ℕ) (relieved : IsRelieved outside Good log load capacity)
    (config : StreamerConfig) where
  abbrev IsPublished : Message → W → W × Verdict E → Type 0
  IsPublished m w r = (r.1 ≡ published) × Good r.0 × (log r.0 ≡ log w ++ m ∷ [])

  publish_loop-IsPublished :
      (left : ℕ) (m : Message) (w : W)
      → Good w
      → m.id ≢ empty
      → m.payload ≢ none
      → load w < left
      → IsPublished m w (publish_loop outside left m w)
  unfolding publish_loop
  publish_loop-IsPublished zero m w g i p l = absurd (omega arith)
  publish_loop-IsPublished (suc left) m w g i p l = elim (relieved.publishes_well m w g i p) [
    | inl (t, e, h, added) ↦
        subst (IsPublished m w) (sym (ap (after_publish outside (publish_loop outside left m)) e))
          (refl, h, added)
    | inr (t, x, e, full, h, same, less) ↦
        let (v, waited, k, kept) = relieved.waits_well retry_wait t h in
        let (done, good, added) =
          publish_loop-IsPublished left m v k i p
            (omega (arith, less, ap (λ r. load r.0) waited)) in
        subst (IsPublished m w)
          (sym (
            ap (after_publish outside (publish_loop outside left m)) e
            ∙ rw full (ap (after_wait outside (publish_loop outside left m)) waited)))
          (done, good, added ∙ ap (λ l. l ++ m ∷ []) (kept ∙ same))
  ]

  abbrev pub Streams : List TelemetryRecord → W → W × Ending → Type 0
  Streams rs w r =
      (r.1 ≡ completed)
      × Good r.0
      × ((ms : List Message) × (log r.0 ≡ log w ++ ms) × Carries config rs ms)

  carries_one :
      (r : TelemetryRecord) (w : W) → Good w → IsStamped config r (make_message outside config r w)
  unfolding new_message
  carries_one r w g = record {
    carried = record { time = outside.ingestion_now w; payload = refl; producer = refl };
    stamped = relieved.clocked w g;
  }

  id_given : (r : TelemetryRecord) (w : W) → Good w → (make_message outside config r w).id ≢ empty
  unfolding new_message
  id_given r w g = relieved.identified w g

  payload_some : (r : TelemetryRecord) (w : W) → (make_message outside config r w).payload ≢ none
  unfolding new_message
  payload_some r w h = cc

  -- One record: it is published, and the wait follows.
  record_step :
      (attempts : ℕ) (r : TelemetryRecord) (rs : List TelemetryRecord) (w : W)
      → Good w
      → capacity < attempts
      → (t : W) × Good t
        × (log t ≡ log w ++ make_message outside config r w ∷ [])
        × (stream_records outside config attempts (r ∷ rs) w
            ≡ stream_records outside config attempts rs t)
  unfolding stream_records
  record_step attempts r rs w g l =
      let m = make_message outside config r w in
      let p = publish_loop outside attempts m w in
      let (done, h, added) =
        publish_loop-IsPublished attempts m w g (id_given r w g) (payload_some r w)
          (omega (arith, relieved.bounded w g)) in
      let (t, waited, k, kept) = relieved.waits_well config.stream_interval p.0 h in
      (
        t,
        k,
        kept ∙ added,
        rw (relieved.goes_on w g) (
            ap
              (λ v.
                after_record outside config (stream_records outside config attempts rs) (p.0, v))
              done
            ∙ ap (after_interval outside (stream_records outside config attempts rs)) waited),
      )

  pub stream_records-Streams :
      (attempts : ℕ) (rs : List TelemetryRecord) (w : W)
      → Good w
      → capacity < attempts
      → Streams rs w (stream_records outside config attempts rs w)
  unfolding stream_records
  stream_records-Streams attempts [] w g l = (refl, g, ([], sym (append-nil (log w)), none_left))
  stream_records-Streams attempts (r ∷ rs) w g l =
      let (t, h, added, e) = record_step attempts r rs w g l in
      let (ends, k, (ms, more, c)) = stream_records-Streams attempts rs t h l in
      let m = make_message outside config r w in
      subst (Streams (r ∷ rs) w) (sym e) (
        ends,
        k,
        (
          m ∷ ms,
          more ∙ ap (λ l. l ++ ms) added ∙ append_assoc (log w) (m ∷ []) ms,
          one_more (carries_one r w g) c,
        ),
      )

  -- Over a queue that refuses a message only while it is full, and is relieved while the streamer
  -- waits, with more attempts than refusals can follow one another: the streamer never stops, and any
  -- number of passes publish every record once in each pass, in order, whatever was refused meanwhile.
  pub stream_loop-Streams :
      (attempts passes : ℕ) (rs : List TelemetryRecord) (w : W)
      → Good w
      → capacity < attempts
      → Streams (cycles passes rs) w (stream_loop outside config attempts passes rs w)
  unfolding stream_loop cycles
  stream_loop-Streams attempts zero rs w g l = (refl, g, ([], sym (append-nil (log w)), none_left))
  stream_loop-Streams attempts (suc passes) rs w g l =
      let p = stream_records outside config attempts rs w in
      let (ends, h, (ms, first, c)) = stream_records-Streams attempts rs w g l in
      let (last, k, (ms', rest, c')) = stream_loop-Streams attempts passes rs p.0 h l in
      subst (Streams (rs ++ cycles passes rs) w)
        (sym (
          rw (relieved.goes_on w g) (
            ap (λ v. after_pass outside (stream_loop outside config attempts passes rs) (p.0, v))
              ends)))
        (
          last,
          k,
          (
            ms ++ ms',
            rest ∙ ap (λ l. l ++ ms') first ∙ append_assoc (log w) ms ms',
            Carries-append c c',
          ),
        )
