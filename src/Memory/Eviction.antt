-- ===== src/Memory/Eviction.antt =====
-- pkg/storage/memory/store.go: the saves, and what `SaveTelemetry` evicts.
use elastic_gpu_telemetry_pi.Common.{
  ℕ, zero, suc, leb, ltb, ◌≤◌, ◌<◌, ◌≡◌, ◌≢◌, refl, sym, ap, ◌∙◌, inl, inr, Option, none, some,
  List, [], ◌∷◌, ◌++◌, arith, length, length-drop, drop, drop_of_length_le, Result, ok, err,
  Bool-cases, if◌then◌else◌,
}
use elastic_gpu_telemetry_pi.Domain.{Gpu, TelemetryRecord, empty}
use elastic_gpu_telemetry_pi.Memory.{
  Store, StoreError, save_gpu, new_store_with_max_records, save_telemetry, evict_count, drop_oldest,
  evict_oldest_records, make_room, append_record,
}
use elastic_gpu_telemetry_pi.Memory.Invariant.{
  IsConsistent, save_gpu-IsConsistent, new_store_with_max_records-IsConsistent,
  evict_oldest_records-IsConsistent, append_record-IsConsistent,
}

-- Dropping more than there is drops everything.
drop_clipped :
    (n : ℕ) (xs : List TelemetryRecord)
    → drop (if ltb (length xs) n then length xs else n) xs ≡ drop n xs
drop_clipped n xs = elim (Bool-cases (ltb (length xs) n)) [
  | inl e ↦
      rw e (
        drop_of_length_le (length xs) xs (omega arith)
        ∙ sym (drop_of_length_le n xs (ground arith)))
  | inr e ↦ rw e
]

-- How many records a save evicts.
abbrev pub evicted : Store → ℕ
evicted s = if leb s.max_records (length s.telemetry) then evict_count s.max_records else 0

telemetry-evict_oldest_records :
    (n : ℕ) (s : Store) → (evict_oldest_records n s).telemetry ≡ drop n s.telemetry
unfolding evict_oldest_records drop_oldest
telemetry-evict_oldest_records zero s = ground arith
telemetry-evict_oldest_records (suc n) s =
    ground (arith, drop_clipped (suc n) s.telemetry, drop_of_length_le (suc n) s.telemetry)

frame-evict_oldest_records :
    (n : ℕ) (s : Store)
    → ((evict_oldest_records n s).max_records ≡ s.max_records)
      × ((evict_oldest_records n s).gpus ≡ s.gpus)
unfolding evict_oldest_records drop_oldest
frame-evict_oldest_records n s = ground arith

-- Making room drops the oldest records, and leaves room for one.
record MakesRoom (s t : Store) : Type 0 where
  consistent : IsConsistent t
  dropped : t.telemetry ≡ drop (evicted s) s.telemetry
  room : length t.telemetry < t.max_records
  same_limit : t.max_records ≡ s.max_records
  same_gpus : t.gpus ≡ s.gpus

evict_count_bounds : (max : ℕ) → 1 ≤ max → (1 ≤ evict_count max) × (evict_count max ≤ max)
evict_count_bounds max h = ground arith

make_room-MakesRoom : (s : Store) → IsConsistent s → MakesRoom s (make_room s)
unfolding make_room
make_room-MakesRoom s v = elim (Bool-cases (leb s.max_records (length s.telemetry))) [
  | inl e ↦ rw e (record {
    consistent = evict_oldest_records-IsConsistent n s v;
    dropped = rw e (telemetry-evict_oldest_records n s);
    room = omega (
      arith,
      ap length (telemetry-evict_oldest_records n s),
      length-drop n s.telemetry,
      (frame-evict_oldest_records n s).0,
      evict_count_bounds s.max_records v.positive,
    );
    same_limit = (frame-evict_oldest_records n s).0;
    same_gpus = (frame-evict_oldest_records n s).1;
  })
  | inr e ↦ rw e (record {
    consistent = v;
    dropped = rw e;
    room = ground arith;
    same_limit = refl;
    same_gpus = refl;
  })
]
  where
    n : ℕ
    n = evict_count s.max_records

-- What a save of a record makes of a store: the oldest records are evicted if the limit is reached,
-- the record is the newest, and the GPUs and the limit stay.
pub record Saves (s : Store) (r : TelemetryRecord) (t : Store) : Type 0 where
  pub consistent : IsConsistent t
  pub contents : t.telemetry ≡ drop (evicted s) s.telemetry ++ r ∷ []
  pub same_limit : t.max_records ≡ s.max_records
  pub same_gpus : t.gpus ≡ s.gpus

append_record-Saves :
    (s t : Store) (r : TelemetryRecord) → MakesRoom s t → Saves s r (append_record r t)
unfolding append_record
append_record-Saves s t r m = record {
  consistent = append_record-IsConsistent r t m.room m.consistent;
  contents = ap (λ l. l ++ r ∷ []) m.dropped;
  same_limit = m.same_limit;
  same_gpus = m.same_gpus;
}

-- On a consistent store `SaveTelemetry` accepts each record that names a GPU. The result is
-- consistent, and its records are the old ones, less a tenth of the limit (and at least one) of the
-- oldest if the limit was reached, then the new one.
pub save_telemetry-Saves :
    (s : Store) (r : TelemetryRecord)
    → IsConsistent s
    → r.gpu_uuid ≢ empty
    → (t : Store) × (save_telemetry (some r) s ≡ ok t) × Saves s r t
unfolding save_telemetry
save_telemetry-Saves s r v named = (
  append_record r (make_room s),
  ground arith,
  append_record-Saves s (make_room s) r (make_room-MakesRoom s v),
)

save_telemetry-IsConsistent :
    (r : Option TelemetryRecord) (s t : Store)
    → IsConsistent s
    → save_telemetry r s ≡ ok t
    → IsConsistent t
unfolding save_telemetry
save_telemetry-IsConsistent none s t v e = cc
save_telemetry-IsConsistent (some r) s t v e =
    ground (arith, (append_record-Saves s (make_room s) r (make_room-MakesRoom s v)).consistent)

-- A failed call leaves the store as it was.
abbrev after : Store → Result StoreError Store → Store
after s (ok t) = t
after s (err e) = s

-- The calls that change a store.
pub data Call : Type 0 where
  saves_gpu : Option Gpu → Call
  saves_telemetry : Option TelemetryRecord → Call

unfoldable pub step : Call → Store → Store
step (saves_gpu gpu) s = after s (save_gpu gpu s)
step (saves_telemetry r) s = after s (save_telemetry r s)

unfoldable pub run : List Call → Store → Store
run [] s = s
run (c ∷ cs) s = run cs (step c s)

after-IsConsistent :
    (s : Store) (m : Result StoreError Store)
    → IsConsistent s
    → ((t : Store) → m ≡ ok t → IsConsistent t)
    → IsConsistent (after s m)
after-IsConsistent s (ok t) v h = h t refl
after-IsConsistent s (err e) v h = v

step-IsConsistent : (c : Call) (s : Store) → IsConsistent s → IsConsistent (step c s)
unfolding step
step-IsConsistent (saves_gpu gpu) s v =
    after-IsConsistent s _ v (λ t. save_gpu-IsConsistent gpu s t v)
step-IsConsistent (saves_telemetry r) s v =
    after-IsConsistent s _ v (λ t. save_telemetry-IsConsistent r s t v)

run-IsConsistent : (cs : List Call) (s : Store) → IsConsistent s → IsConsistent (run cs s)
unfolding run
run-IsConsistent [] s v = v
run-IsConsistent (c ∷ cs) s v = run-IsConsistent cs (step c s) (step-IsConsistent c s v)

-- After any history of saves, failed ones included, a store that was created with any limit is
-- consistent: the index and the set of seen GPUs agree with the records, and the records do not
-- exceed the limit.
pub run-new_store-IsConsistent :
    (max : ℕ) (cs : List Call) → IsConsistent (run cs (new_store_with_max_records max))
run-new_store-IsConsistent max cs =
    run-IsConsistent cs _ (new_store_with_max_records-IsConsistent max)
