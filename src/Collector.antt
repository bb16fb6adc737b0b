-- ===== src/Collector.antt =====
-- internal/collector/collector.go: the collector, over any repository and queue. The timeout of a
-- batch's context belongs to these. The counters are numbers: they count messages, far below 2^63.
pub mod Processing
pub mod Tracking
pub mod Loop
pub mod Batching
pub mod Panics
pub mod Lifecycle
pub mod Accounting
pub mod Agreeing
mod Tests
use elastic_gpu_telemetry_pi.Common.{
  ℕ, suc, ◌+◌, Bool, true, false, not, ◌&&◌, ◌||◌, Option, none, some, List, [], ◌∷◌, ◌++◌, Text,
  Map, lookup, insert, is_empty, leb, length, ◌==◌, Result, ok, err, ◌>>=◌, if◌then◌else◌,
}
use elastic_gpu_telemetry_pi.Domain.{Time, Gpu, TelemetryRecord, Message, zero_time}
use elastic_gpu_telemetry_pi.Storage.{Repository, Acknowledger}

-- `processBatch` makes this of a record, and `processMessage` again.
abbrev pub gpu_of : TelemetryRecord → Gpu
gpu_of r = record {
  uuid = r.gpu_uuid;
  gpu_id = r.gpu_id;
  device = r.device;
  model = r.model_name;
  hostname = r.hostname;
  container = r.container;
  pod = r.pod;
  namespace = r.namespace;
}

-- The update of `gpuMap`.
unfoldable pub track : Gpu → Map Gpu → Map Gpu
track gpu gpu_map = elim (lookup gpu.uuid gpu_map) [
  | none ↦ insert gpu.uuid gpu gpu_map
  | some existing ↦
      if not (is_empty gpu.model) && is_empty existing.model
      then insert gpu.uuid gpu gpu_map
      else gpu_map
]

-- The first pass of `processBatch`; a nil pointer is `none`.
abbrev pub payload_of : Option Message → Option TelemetryRecord
payload_of none = none
payload_of (some m) = m.payload

abbrev pub track_payload : Option TelemetryRecord → Map Gpu → Map Gpu
track_payload none gpu_map = gpu_map
track_payload (some r) gpu_map = if is_empty r.gpu_uuid then gpu_map else track (gpu_of r) gpu_map

unfoldable pub collect_batch : List (Option Message) → Map Gpu → Map Gpu
collect_batch [] gpu_map = gpu_map
collect_batch (msg ∷ batch) gpu_map = collect_batch batch (track_payload (payload_of msg) gpu_map)

pub data ValidationError : Type 0 where
  empty_gpu_uuid empty_metric_name zero_ingestion_time : ValidationError

unfoldable pub validate_telemetry_record : TelemetryRecord → Option ValidationError
validate_telemetry_record r =
    if is_empty r.gpu_uuid
    then some empty_gpu_uuid
    else if is_empty r.metric_name
    then some empty_metric_name
    else if r.ingestion_time == zero_time
    then some zero_ingestion_time
    else none

pub data ProcessError (E : Type 0) : Type 0 where
  message_is_nil payload_is_nil : ProcessError E
  invalid_record : ValidationError → ProcessError E
  save_failed : E → ProcessError E

-- The collector's state, with the states behind its two interfaces.
pub record Collector (S Q : Type 0) : Type 0 where
  pub repository : S
  pub queue : Q
  pub processed_count : ℕ
  pub error_count : ℕ
  pub last_processed_time : Time

-- The log of a failed message reads `msg.ID`, which panics for a nil message.
pub data Panic : Type 0 where
  nil_dereference : Panic

-- The configuration, the clock by the count of processed messages, and the order in which `range`
-- visits `gpuMap`.
pub record Setting : Type 0 where
  pub instance_id : Text
  pub batch_size : ℕ
  pub clock : ℕ → Time
  pub visits : Map Gpu → List Gpu

module _ {S Q E F : Type 0} (repository : Repository S E) (queue : Acknowledger Q F)
    (setting : Setting) where
  unfoldable pub save_gpus : List Gpu → S → S
  save_gpus [] s = s
  save_gpus (gpu ∷ gpus) s = save_gpus gpus (repository.saves_gpu gpu s).0

  abbrev saved : S × Option E → Map Gpu → S × Map Gpu × Option (ProcessError E)
  saved (s, none) gpu_map = (s, gpu_map, none)
  saved (s, some e) gpu_map = (s, gpu_map, some (save_failed e))

  abbrev process_payload :
      Option TelemetryRecord → Map Gpu → S → S × Map Gpu × Option (ProcessError E)
  process_payload none gpu_map s = (s, gpu_map, some payload_is_nil)
  process_payload (some r) gpu_map s = elim (validate_telemetry_record r) [
    | some e ↦ (s, gpu_map, some (invalid_record e))
    | none ↦ saved (repository.saves_telemetry r s) (track_payload (some r) gpu_map)
  ]

  -- `processMessage`.
  unfoldable pub process_message :
      Option Message → Map Gpu → S → S × Map Gpu × Option (ProcessError E)
  process_message none gpu_map s = (s, gpu_map, some message_is_nil)
  process_message (some m) gpu_map s = process_payload m.payload gpu_map s

  -- The second loop of `processBatch`, which gives the processed messages. For a nil message
  -- `processMessage` fails, and the log of that error panics.
  abbrev pub count_error : Collector S Q → Collector S Q
  count_error c = record c { error_count = c.error_count + 1 }

  abbrev pub count_processed : Collector S Q → Collector S Q
  count_processed c = record c {
    processed_count = c.processed_count + 1;
    last_processed_time = setting.clock c.processed_count;
  }

  abbrev pub after_message :
      (Map Gpu → Collector S Q → Result Panic (Collector S Q × List Message))
      → Message
      → Collector S Q
      → S × Map Gpu × Option (ProcessError E)
      → Result Panic (Collector S Q × List Message)
  after_message rest m c (s, gpu_map, none) =
      rest gpu_map (count_processed (record c { repository = s })) >>= (λ r. ok (r.0, m ∷ r.1))
  after_message rest m c (s, gpu_map, some e) =
      rest gpu_map (count_error (record c { repository = s }))

  unfoldable pub process_all :
      List (Option Message) → Map Gpu → Collector S Q → Result Panic (Collector S Q × List Message)
  process_all [] gpu_map c = ok (c, [])
  process_all (none ∷ batch) gpu_map c = err nil_dereference
  process_all (some m ∷ batch) gpu_map c =
      after_message (λ g c'. process_all batch g c') m c
        (process_message (some m) gpu_map c.repository)

  -- The third loop: an `Ack` that fails is only logged.
  unfoldable pub ack_all : List Message → Q → Q
  ack_all [] q = q
  ack_all (m ∷ ms) q = ack_all ms (queue.acks m.id setting.instance_id q).0

  abbrev pub acknowledged : Collector S Q × List Message → Result Panic (Collector S Q)
  acknowledged (c, processed) = ok (record c { queue = ack_all processed c.queue })

  -- `processBatch`.
  unfoldable pub process_batch :
      List (Option Message) → Collector S Q → Result Panic (Collector S Q)
  process_batch [] c = ok c
  process_batch (msg ∷ batch) c =
      let gpu_map = collect_batch (msg ∷ batch) [] in
      let ready = record c { repository = save_gpus (setting.visits gpu_map) c.repository } in
      process_all (msg ∷ batch) gpu_map ready >>= acknowledged

-- `NewCollector`, where `none` is a nil interface.
pub data ConstructionError : Type 0 where
  queue_is_nil repository_is_nil : ConstructionError

unfoldable pub new_collector :
    {S Q : Type 0} → Option Q → Option S → Result ConstructionError (Collector S Q)
new_collector none repository = err queue_is_nil
new_collector (some q) none = err repository_is_nil
new_collector (some q) (some s) = ok (record {
  repository = s;
  queue = q;
  processed_count = 0;
  error_count = 0;
  last_processed_time = zero_time;
})

unfoldable pub get_stats : {S Q : Type 0} → Collector S Q → ℕ × ℕ × Time
get_stats c = (c.processed_count, c.error_count, c.last_processed_time)
