-- ===== src/Memory/Invariant.antt =====
-- pkg/storage/memory/store.go: the index and the records that it stands for.
use elastic_gpu_telemetry_pi.Common.{
  ℕ, suc, leb, ◌==◌, ◌+◌, ◌≤◌, ◌<◌, ◌≡◌, refl, sym, inl, inr, Bool, true, ◌||◌, Option, none, some,
  List, [], ◌∷◌, ◌++◌, arith, Text, text_eq, text_eq_iff, Map, lookup, insert, has, lookup-insert,
  has-insert, any, length, length-append, length-drop, drop, ok, Option-cases, Bool-cases,
  if◌then◌else◌,
}
use mathlib.Core.List.{append_assoc, append-nil}
use elastic_gpu_telemetry_pi.Domain.{Gpu, TelemetryRecord}
use elastic_gpu_telemetry_pi.Memory.{
  Store, new_store, new_store_with_max_records, save_gpu, append_index, rebuild_index, rebuild_seen,
  drop_oldest, evict_oldest_records, append_record,
}

-- The positions of a GPU's records, counted from `i`.
unfoldable pub positions : Text → ℕ → List TelemetryRecord → List ℕ
positions u i [] = []
positions u i (r ∷ rs) =
    let rest = positions u (suc i) rs in if text_eq r.gpu_uuid u then i ∷ rest else rest

-- What `index[uuid]` reads; a missing key reads as nil.
abbrev pub listed : Option (List ℕ) → List ℕ
listed none = []
listed (some is) = is

abbrev pub has_records : Text → List TelemetryRecord → Bool
has_records u = any λ r. text_eq r.gpu_uuid u

-- The index holds the positions of each GPU's records, the set of seen GPUs is that of the records,
-- a GPU is stored under its own UUID, and the records do not exceed the limit.
pub record IsConsistent (s : Store) : Type 0 where
  pub indexed : (u : Text) → listed (lookup u s.gpu_telemetry_index) ≡ positions u 0 s.telemetry
  pub seen : (u : Text) → has u s.gpus_with_telemetry ≡ has_records u s.telemetry
  pub keyed : (u : Text) (g : Gpu) → lookup u s.gpus ≡ some g → g.uuid ≡ u
  pub limited : length s.telemetry ≤ s.max_records
  pub positive : 1 ≤ s.max_records

listed-append_index :
    (k u : Text) (i : ℕ) (m : Map (List ℕ))
    → listed (lookup u (append_index k i m))
      ≡ (if text_eq k u then listed (lookup u m) ++ i ∷ [] else listed (lookup u m))
unfolding append_index
listed-append_index k u i m = elim (Option-cases (lookup k m)) [
  | inl e ↦ rw (e, append_index) (ground (arith, lookup-insert k u (i ∷ []) m, text_eq_iff k u))
  | inr (is, e) ↦
      rw (e, append_index) (ground (arith, lookup-insert k u (is ++ i ∷ []) m, text_eq_iff k u))
]

listed-rebuild_index :
    (u : Text) (i : ℕ) (rs : List TelemetryRecord) (m : Map (List ℕ))
    → listed (lookup u (rebuild_index i rs m)) ≡ listed (lookup u m) ++ positions u i rs
unfolding rebuild_index positions
listed-rebuild_index u i [] m = sym (append-nil _)
listed-rebuild_index u i (r ∷ rs) m = ground (
  arith,
  listed-rebuild_index u (suc i) rs (append_index r.gpu_uuid i m),
  listed-append_index r.gpu_uuid u i m,
  append_assoc (listed (lookup u m)) (i ∷ []) (positions u (suc i) rs),
)

has-rebuild_seen :
    (u : Text) (rs : List TelemetryRecord) (m : Map Bool)
    → has u (rebuild_seen rs m) ≡ (has u m || has_records u rs)
unfolding rebuild_seen
has-rebuild_seen u [] m = ground arith
has-rebuild_seen u (r ∷ rs) m =
    ground (arith, has-rebuild_seen u rs (insert r.gpu_uuid true m), has-insert r.gpu_uuid u true m)

positions-append :
    (u : Text) (i : ℕ) (rs : List TelemetryRecord) (r : TelemetryRecord)
    → positions u i (rs ++ r ∷ []) ≡ (
        if text_eq r.gpu_uuid u then positions u i rs ++ (i + length rs) ∷ [] else positions u i rs)
unfolding positions
positions-append u i [] r = ground arith
positions-append u i (x ∷ rs) r = ground (arith, positions-append u (suc i) rs r)

has_records-append :
    (u : Text) (rs : List TelemetryRecord) (r : TelemetryRecord)
    → has_records u (rs ++ r ∷ []) ≡ (text_eq r.gpu_uuid u || has_records u rs)
has_records-append u [] r = ground arith
has_records-append u (x ∷ rs) r = ground (arith, has_records-append u rs r)

pub new_store-IsConsistent : IsConsistent new_store
unfolding new_store positions lookup
new_store-IsConsistent = record {
  indexed = λ u. refl;
  seen = λ u. refl;
  keyed = λ u g e. cc;
  limited = omega arith;
  positive = omega arith;
}

-- A new store is consistent, whatever limit is asked for.
pub new_store_with_max_records-IsConsistent :
    (max : ℕ) → IsConsistent (new_store_with_max_records max)
unfolding new_store_with_max_records positions lookup
new_store_with_max_records-IsConsistent max = record {
  indexed = λ u. refl;
  seen = λ u. refl;
  keyed = λ u g e. cc;
  limited = ground arith;
  positive = ground arith;
}

drop_oldest-IsConsistent : (n : ℕ) (s : Store) → IsConsistent s → IsConsistent (drop_oldest n s)
unfolding drop_oldest lookup
drop_oldest-IsConsistent n s v = record {
  indexed = λ u. listed-rebuild_index u 0 (drop n s.telemetry) [];
  seen = λ u. has-rebuild_seen u (drop n s.telemetry) [];
  keyed = v.keyed;
  limited = omega (arith, length-drop n s.telemetry, v.limited);
  positive = v.positive;
}

pub evict_oldest_records-IsConsistent :
    (n : ℕ) (s : Store) → IsConsistent s → IsConsistent (evict_oldest_records n s)
unfolding evict_oldest_records
evict_oldest_records-IsConsistent n s v = elim (Bool-cases (leb n 0)) [
  | inl e ↦ rw e v
  | inr e ↦ rw e (elim (Bool-cases (length s.telemetry == 0)) [
    | inl e' ↦ rw e' v
    | inr e' ↦ rw e' (drop_oldest-IsConsistent _ s v)
  ])
]

pub append_record-IsConsistent :
    (r : TelemetryRecord) (s : Store)
    → length s.telemetry < s.max_records
    → IsConsistent s
    → IsConsistent (append_record r s)
unfolding append_record
append_record-IsConsistent r s room v = record {
  indexed = λ u. ground (
    arith,
    listed-append_index r.gpu_uuid u (length s.telemetry) s.gpu_telemetry_index,
    positions-append u 0 s.telemetry r,
    v.indexed u,
  );
  seen = λ u. ground (
    arith,
    has-insert r.gpu_uuid u true s.gpus_with_telemetry,
    has_records-append u s.telemetry r,
    v.seen u,
  );
  keyed = v.keyed;
  limited = omega (arith, length-append s.telemetry (r ∷ []));
  positive = v.positive;
}

-- Saving a GPU keeps the store consistent.
pub save_gpu-IsConsistent :
    (gpu : Option Gpu) (s t : Store) → IsConsistent s → save_gpu gpu s ≡ ok t → IsConsistent t
unfolding save_gpu
save_gpu-IsConsistent none s t v e = cc
save_gpu-IsConsistent (some gpu) s t v e = rw (← saved) (record {
  indexed = v.indexed;
  seen = v.seen;
  keyed = λ u g.
      λ h. ground (arith, lookup-insert gpu.uuid u gpu s.gpus, text_eq_iff gpu.uuid u, v.keyed u g);
  limited = v.limited;
  positive = v.positive;
})
  where
    saved : record s { gpus = insert gpu.uuid gpu s.gpus } ≡ t
    saved = ground arith
