-- ===== src/Collector/Batching.antt =====
-- internal/collector/collector.go: the batches that `processMessages` hands to `processBatch`.
use elastic_gpu_telemetry_pi.Common.{
  ℕ, ◌<◌, Bool, true, false, ◌≡◌, refl, sym, ◌∙◌, inl, inr, Option, List, [], ◌∷◌, ◌++◌, arith, leb,
  length, Result, ok, err, ◌>>=◌, Bool-cases,
}
use elastic_gpu_telemetry_pi.Domain.{Message}
use elastic_gpu_telemetry_pi.Storage.{Repository, Acknowledger}
use elastic_gpu_telemetry_pi.Collector.{Collector, Setting, Panic, process_batch}
use elastic_gpu_telemetry_pi.Collector.Loop.{
  Event, context_done, channel_closed, tick, received, add_batch, split, arrived, Splits,
  split-Splits_from, process_messages, process_batches,
}

bind_assoc :
    {E A B C : Type 0} (r : Result E A) (f : A → Result E B) (g : B → Result E C)
    → (r >>= f >>= g) ≡ (r >>= (λ a. f a >>= g))
bind_assoc (ok a) f g = refl
bind_assoc (err e) f g = refl

bind_cong :
    {E A B : Type 0} (r : Result E A) (f g : A → Result E B)
    → ((a : A) → f a ≡ g a)
    → (r >>= f) ≡ (r >>= g)
bind_cong (ok a) f g h = h a
bind_cong (err e) f g h = refl

-- The loop stops within the events.
unfoldable pub stops : List Event → Bool
stops [] = false
stops (context_done ∷ es) = true
stops (channel_closed ∷ es) = true
stops (tick ∷ es) = stops es
stops (received m ∷ es) = stops es

split_of_stops :
    (size : ℕ) (es : List Event) (b : List (Option Message))
    → stops es ≡ true
    → (split size es b).1 ≡ []
unfolding split stops
split_of_stops size [] b h = cc
split_of_stops size (context_done ∷ es) b h = refl
split_of_stops size (channel_closed ∷ es) b h = refl
split_of_stops size (tick ∷ es) b h = split_of_stops size es [] h
split_of_stops size (received m ∷ es) b h =
    ground (arith, split_of_stops size es [] h, split_of_stops size es (b ++ m ∷ []) h)

module _ {S Q E F : Type 0} (repository : Repository S E) (queue : Acknowledger Q F)
    (setting : Setting) where
  abbrev finish :
      List (Option Message) → Collector S Q → Result Panic (Collector S Q × List (Option Message))
  finish left c = ok (c, left)

  abbrev then_split :
      List (List (Option Message)) × List (Option Message)
      → Collector S Q
      → Result Panic (Collector S Q × List (Option Message))
  then_split r c = process_batches repository queue setting r.0 c >>= finish r.1

  flush :
      (b left : List (Option Message)) (bs : List (List (Option Message))) (c : Collector S Q)
      (next : Collector S Q → Result Panic (Collector S Q × List (Option Message)))
      → ((c' : Collector S Q) → next c' ≡ then_split (bs, left) c')
      → (process_batch repository queue setting b c >>= next) ≡ then_split (add_batch b bs, left) c
  unfolding process_batch process_batches
  flush [] left bs c next h = h c
  flush (m ∷ b) left bs c next h =
      bind_cong (process_batch repository queue setting (m ∷ b) c) _ _ h
      ∙ sym (bind_assoc (process_batch repository queue setting (m ∷ b) c) _ (finish left))

  process_messages-split :
      (es : List Event) (b : List (Option Message)) (c : Collector S Q)
      → process_messages repository queue setting es b c
        ≡ then_split (split setting.batch_size es b) c
  unfolding process_messages process_batches split
  process_messages-split [] b c = refl
  process_messages-split (context_done ∷ es) b c = flush b [] [] c _ (λ c'. refl)
  process_messages-split (channel_closed ∷ es) b c = flush b [] [] c _ (λ c'. refl)
  process_messages-split (tick ∷ es) b c = flush b _ _ c _ (process_messages-split es [])
  process_messages-split (received m ∷ es) b c =
      elim (Bool-cases (leb setting.batch_size (length (b ++ m ∷ [])))) [
        | inl e ↦ rw e (
            bind_cong (process_batch repository queue setting (b ++ m ∷ []) c) _ _
              (process_messages-split es [])
            ∙ sym (bind_assoc (process_batch repository queue setting (b ++ m ∷ []) c) _ _))
        | inr e ↦ rw e (process_messages-split es (b ++ m ∷ []) c)
      ]

  -- With a positive batch size, whatever messages, ticks and stops the loop meets, it runs
  -- `processBatch` on batches that are not empty, are within the size and hold, with the batch that
  -- is left, the messages that arrived before the stop, each once and in order. A stop leaves no batch.
  pub process_messages-Splits :
      (es : List Event) (c : Collector S Q)
      → 0 < setting.batch_size
      → (r : List (List (Option Message)) × List (Option Message)) × Splits setting.batch_size
          (arrived es)
          r
        × (process_messages repository queue setting es [] c
            ≡ (process_batches repository queue setting r.0 c >>= (λ c'. ok (c', r.1))))
        × (stops es ≡ true → r.1 ≡ [])
  process_messages-Splits es c h = (
    split setting.batch_size es [],
    split-Splits_from setting.batch_size es [] h,
    process_messages-split es [] c,
    split_of_stops setting.batch_size es [],
  )
