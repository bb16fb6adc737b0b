-- ===== src/Collector/Loop.antt =====
-- internal/collector/collector.go: `processMessages`. The select takes one event after another; where
-- the events end the loop still waits, with the batch that it has.
use mathlib.Core.List.{append_assoc, append-nil}
use elastic_gpu_telemetry_pi.Common.{
  ℕ, ◌<◌, ◌≤◌, ◌≡◌, refl, sym, ap, subst, ◌∙◌, inl, inr, Option, List, [], ◌∷◌, ◌++◌, arith, leb,
  length, length-append, Result, ok, ◌>>=◌, Bool-cases, All, if◌then◌else◌,
}
use elastic_gpu_telemetry_pi.Domain.{Message}
use elastic_gpu_telemetry_pi.Storage.{Repository, Acknowledger}
use elastic_gpu_telemetry_pi.Collector.{Collector, Setting, Panic, process_batch}

pub data Event : Type 0 where
  context_done channel_closed tick : Event
  received : Option Message → Event

-- A flush of the batch, which is skipped if the batch is empty.
abbrev pub add_batch :
    List (Option Message) → List (List (Option Message)) → List (List (Option Message))
add_batch [] bs = bs
add_batch (m ∷ b) bs = (m ∷ b) ∷ bs

-- The batches that the events make, of at most `size` messages, and the batch that is left.
unfoldable pub split :
    ℕ → List Event → List (Option Message) → List (List (Option Message)) × List (Option Message)
split size [] b = ([], b)
split size (context_done ∷ es) b = (add_batch b [], [])
split size (channel_closed ∷ es) b = (add_batch b [], [])
split size (tick ∷ es) b = let r = split size es [] in (add_batch b r.0, r.1)
split size (received m ∷ es) b =
    let full = split size es [] in
    let more = split size es (b ++ m ∷ []) in
    if leb size (length (b ++ m ∷ [])) then ((b ++ m ∷ []) ∷ full.0, full.1) else more

-- The messages that arrive before the loop stops.
unfoldable pub arrived : List Event → List (Option Message)
arrived [] = []
arrived (context_done ∷ es) = []
arrived (channel_closed ∷ es) = []
arrived (tick ∷ es) = arrived es
arrived (received m ∷ es) = m ∷ arrived es

abbrev pub concat : List (List (Option Message)) → List (Option Message)
concat [] = []
concat (b ∷ bs) = b ++ concat bs

abbrev pub IsBatch : ℕ → List (Option Message) → Type 0
IsBatch size b = (0 < length b) × (length b ≤ size)

concat-add_batch :
    (b : List (Option Message)) (bs : List (List (Option Message)))
    → concat (add_batch b bs) ≡ b ++ concat bs
concat-add_batch [] bs = refl
concat-add_batch (m ∷ b) bs = refl

add_batch-IsBatch :
    (size : ℕ) (b : List (Option Message)) (bs : List (List (Option Message)))
    → length b < size
    → All (IsBatch size) bs
    → All (IsBatch size) (add_batch b bs)
add_batch-IsBatch size [] bs h a = a
add_batch-IsBatch size (m ∷ b) bs h a = ((ground arith, ground arith), a)

-- `bs` and the batch that is left are the messages, in order, and each of `bs` is within the size.
pub record Splits (size : ℕ) (messages : List (Option Message))
    (r : List (List (Option Message)) × List (Option Message)) : Type 0 where
  pub whole : concat r.0 ++ r.1 ≡ messages
  pub bounded : All (IsBatch size) r.0

flushed :
    (size : ℕ) (b ms : List (Option Message))
    (r : List (List (Option Message)) × List (Option Message))
    → length b < size
    → Splits size ms r
    → Splits size (b ++ ms) (add_batch b r.0, r.1)
flushed size b ms r h p = record {
  whole =
      ap (λ l. l ++ r.1) (concat-add_batch b r.0)
      ∙ append_assoc b (concat r.0) r.1
      ∙ ap (λ l. b ++ l) p.whole;
  bounded = add_batch-IsBatch size b r.0 h p.bounded;
}

stopped : (size : ℕ) → Splits size [] ([], [])
stopped size = record { whole = refl; bounded = _ }

-- A batch that reached the size.
filled :
    (size : ℕ) (b ms : List (Option Message)) (m : Option Message)
    (r : List (List (Option Message)) × List (Option Message))
    → length b < size
    → Splits size ms r
    → Splits size (b ++ m ∷ ms) ((b ++ m ∷ []) ∷ r.0, r.1)
filled size b ms m r h p = record {
  whole =
      append_assoc (b ++ m ∷ []) (concat r.0) r.1
      ∙ ap (λ l. b ++ m ∷ [] ++ l) p.whole
      ∙ append_assoc b (m ∷ []) ms;
  bounded = (
    (omega (arith, length-append b (m ∷ [])), omega (arith, length-append b (m ∷ []))),
    p.bounded,
  );
}

pub split-Splits_from :
    (size : ℕ) (es : List Event) (b : List (Option Message))
    → length b < size
    → Splits size (b ++ arrived es) (split size es b)
unfolding split arrived
split-Splits_from size [] b h = record { whole = sym (append-nil b); bounded = _ }
split-Splits_from size (context_done ∷ es) b h = flushed size b [] ([], []) h (stopped size)
split-Splits_from size (channel_closed ∷ es) b h = flushed size b [] ([], []) h (stopped size)
split-Splits_from size (tick ∷ es) b h =
    flushed size b (arrived es) _ h (split-Splits_from size es [] (omega arith))
split-Splits_from size (received m ∷ es) b h = elim (Bool-cases (leb size (length (b ++ m ∷ [])))) [
  | inl e ↦ rw e (filled size b (arrived es) m _ h (split-Splits_from size es [] (omega arith)))
  | inr e ↦ rw e (
      subst (λ l. Splits size l (split size es (b ++ m ∷ [])))
        (append_assoc b (m ∷ []) (arrived es))
        (split-Splits_from size es (b ++ m ∷ []) (ground arith)))
]

module _ {S Q E F : Type 0} (repository : Repository S E) (queue : Acknowledger Q F)
    (setting : Setting) where
  -- `processMessages`, which gives the batch that it has when the events end.
  unfoldable pub process_messages :
      List Event
      → List (Option Message)
      → Collector S Q
      → Result Panic (Collector S Q × List (Option Message))
  process_messages [] b c = ok (c, b)
  process_messages (context_done ∷ es) b c =
      process_batch repository queue setting b c >>= (λ c'. ok (c', []))
  process_messages (channel_closed ∷ es) b c =
      process_batch repository queue setting b c >>= (λ c'. ok (c', []))
  process_messages (tick ∷ es) b c =
      process_batch repository queue setting b c >>= (λ c'. process_messages es [] c')
  process_messages (received m ∷ es) b c =
      let more = process_messages es (b ++ m ∷ []) c in
      let full =
        process_batch repository queue setting (b ++ m ∷ []) c
        >>= (λ c'. process_messages es [] c') in
      if leb setting.batch_size (length (b ++ m ∷ [])) then full else more

  -- The batches in turn; a panic stops them.
  unfoldable pub process_batches :
      List (List (Option Message)) → Collector S Q → Result Panic (Collector S Q)
  process_batches [] c = ok c
  process_batches (b ∷ bs) c =
      process_batch repository queue setting b c >>= (λ c'. process_batches bs c')
