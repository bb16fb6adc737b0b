-- ===== src/Storage.antt =====
-- pkg/storage/interface.go and pkg/mq/queue.go: the interfaces `Repository` and `MessageQueue`, as far
-- as their clients use them, and the in-memory implementations of them. `S` and `Q` are the states
-- behind an interface and `E` its errors; a call that fails may still have changed the state.
use elastic_gpu_telemetry_pi.Common.{
  Option, none, some, List, Text, Result, ok, err, ◌≡◌, ◌≢◌, arith,
}
use elastic_gpu_telemetry_pi.Common.Sorting.{SortSlice}
use elastic_gpu_telemetry_pi.Domain.{Time, Gpu, TelemetryRecord, empty}
use elastic_gpu_telemetry_pi.Memory.{
  Store, StoreError, save_gpu, get_gpu, list_gpus, save_telemetry, get_telemetry_by_gpu,
}
use elastic_gpu_telemetry_pi.Queue.{Queue, AckError, ack}

pub record Repository (S E : Type 0) : Type 0 where
  pub saves_gpu : Gpu → S → S × Option E
  pub gets_gpu : Text → S → Result E (Option Gpu)
  pub lists_gpus : S → Result E (List Gpu)
  pub saves_telemetry : TelemetryRecord → S → S × Option E
  pub gets_telemetry : Text → Option Time → Option Time → S → Result E (List TelemetryRecord)

-- What a collector calls of a `MessageQueue`.
pub record Acknowledger (Q E : Type 0) : Type 0 where
  pub acks : Text → Text → Q → Q × Option E

-- A result of the in-memory implementations as a state and an error.
abbrev pub settled : {S E : Type 0} → S → Result E S → S × Option E
settled s (ok t) = (t, none)
settled s (err e) = (s, some e)

-- `keys` gives the order in which `ListGPUs` visits the set of GPUs.
unfoldable pub memory_repository : SortSlice → (Store → List Text) → Repository Store StoreError
memory_repository slice keys = record {
  saves_gpu = λ gpu s. settled s (save_gpu (some gpu) s);
  gets_gpu = λ uuid s. get_gpu uuid s;
  lists_gpus = λ s. ok (list_gpus slice (keys s) s);
  saves_telemetry = λ r s. settled s (save_telemetry (some r) s);
  gets_telemetry = λ uuid start end s. get_telemetry_by_gpu slice uuid start end s;
}

unfoldable pub memory_acknowledger : Acknowledger Queue AckError
memory_acknowledger = record { acks = λ id consumer_id q. settled q (ack id consumer_id q) }

-- A repository that stores each record that names a GPU.
pub record IsAccepting {S E : Type 0} (repository : Repository S E) : Type 0 where
  pub accepts :
      (r : TelemetryRecord) (s : S) → r.gpu_uuid ≢ empty → (repository.saves_telemetry r s).1 ≡ none

pub memory_repository-IsAccepting :
    (slice : SortSlice) (keys : Store → List Text) → IsAccepting (memory_repository slice keys)
unfolding memory_repository save_telemetry
memory_repository-IsAccepting slice keys = record { accepts = λ r s h. ground arith }
