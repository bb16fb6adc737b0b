-- ===== src/Collector/Panics.antt =====
-- internal/collector/collector.go: nil messages in a batch.
use elastic_gpu_telemetry_pi.Common.{
  ◌≡◌, refl, ap, Option, none, some, List, [], ◌∷◌, ◌++◌, Result, ok, err, ◌>>=◌, Map,
}
use elastic_gpu_telemetry_pi.Domain.{Gpu, Message}
use elastic_gpu_telemetry_pi.Storage.{Repository, Acknowledger}
use elastic_gpu_telemetry_pi.Collector.{
  Collector, Setting, Panic, nil_dereference, ProcessError, process_message, after_message,
  process_all, acknowledged, process_batch,
}

module _ {S Q E F : Type 0} (repository : Repository S E) (queue : Acknowledger Q F)
    (setting : Setting) where
  after_message_panics :
      (m : Message) (c : Collector S Q)
      (rest : Map Gpu → Collector S Q → Result Panic (Collector S Q × List Message))
      → ((g : Map Gpu) (c' : Collector S Q) → rest g c' ≡ err nil_dereference)
      → (r : S × Map Gpu × Option (ProcessError E))
      → after_message repository queue setting rest m c r ≡ err nil_dereference
  after_message_panics m c rest h (s, g, none) = ap (λ r. r >>= (λ r'. ok (r'.0, m ∷ r'.1))) (h g _)
  after_message_panics m c rest h (s, g, some e) = h g _

  process_all_panics :
      (xs ys : List (Option Message)) (gpu_map : Map Gpu) (c : Collector S Q)
      → process_all repository queue setting (xs ++ none ∷ ys) gpu_map c ≡ err nil_dereference
  unfolding process_all
  process_all_panics [] ys gpu_map c = refl
  process_all_panics (none ∷ xs) ys gpu_map c = refl
  process_all_panics (some m ∷ xs) ys gpu_map c =
      after_message_panics m c _ (λ g c'. process_all_panics xs ys g c')
        (process_message repository queue setting (some m) gpu_map c.repository)

  -- A nil message anywhere in a batch makes `processBatch` panic, although `processMessage` has a case
  -- for it.
  pub process_batch_panics :
      (xs ys : List (Option Message)) (c : Collector S Q)
      → process_batch repository queue setting (xs ++ none ∷ ys) c ≡ err nil_dereference
  unfolding process_batch
  process_batch_panics [] ys c =
      ap (λ r. r >>= acknowledged repository queue setting) (process_all_panics [] ys _ _)
  process_batch_panics (x ∷ xs) ys c =
      ap (λ r. r >>= acknowledged repository queue setting) (process_all_panics (x ∷ xs) ys _ _)
