-- ===== src/Memory/Listing.antt =====
-- pkg/storage/memory/store.go: `ListGPUs` and the order in which `range` visits the map.
use mathlib.Core.List.{
  Mem, Mem-prop, Perm, filter_map, mem-filter_map, mem-cons, mem-cons_self, mem-cons_of_mem,
  not-mem-nil,
}
use mathlib.Core.List.Perm
use mathlib.Core.Logic.{∥∥₁_elim}
use mathlib.Core.Logic.Or
use mathlib.Core.Bool.{Bool-set}
use mathlib.Core.HLevel.{×_prop}
use elastic_gpu_telemetry_pi.Common.{
  ◌≡◌, ◌↔◌, refl, sym, ap, ◌∙◌, inl, inr, Bool, true, Option, some, List, [], ◌∷◌, map, arith, Text,
  text_eq, text_eq_iff, text_ltb_asymm, text_ltb_negtrans, text_ltb_total, Map, lookup, has,
  Bool-cases,
}
use elastic_gpu_telemetry_pi.Common.Sorting.{SortSlice, IsSorted, IsStrictWeak, sorted_unique}
use elastic_gpu_telemetry_pi.Domain.{Gpu}
use elastic_gpu_telemetry_pi.Memory.{Store, uuid_less, collect_gpus, list_gpus}
use elastic_gpu_telemetry_pi.Memory.Invariant.{IsConsistent, has_records}

uuid_less-IsStrictWeak : IsStrictWeak uuid_less
uuid_less-IsStrictWeak = record {
  asymm = λ g h. text_ltb_asymm g.uuid h.uuid;
  negtrans = λ g h k. text_ltb_negtrans g.uuid h.uuid k.uuid;
}

collect_gpus-filter_map :
    (gpus : Map Gpu) (keys : List Text)
    → collect_gpus gpus keys ≡ filter_map (λ u. lookup u gpus) keys
unfolding collect_gpus filter_map
collect_gpus-filter_map gpus [] = refl
collect_gpus-filter_map gpus (u ∷ keys) = ground (arith, collect_gpus-filter_map gpus keys)

Gpu-Option-set : IsSet (Option Gpu)
Gpu-Option-set = hlevel

-- A GPU that is collected is stored under its own UUID.
abbrev IsStored : Store → Gpu → Type 0
IsStored s g = lookup g.uuid s.gpus ≡ some g

mem-collect_gpus :
    (s : Store) (keys : List Text) (g : Gpu)
    → IsConsistent s
    → Mem g (collect_gpus s.gpus keys) ↔ (IsStored s g × Mem g.uuid keys)
mem-collect_gpus s keys g v = (
  λ m.
      ∥∥₁_elim ((mem-filter_map (λ u. lookup u s.gpus) keys).0 (rw eq at m))
        (×_prop (Gpu-Option-set _ _) Mem-prop)
        λ (u, at_u, e). let k = v.keyed u g e in (ap (λ t. lookup t s.gpus) k ∙ e, rw k at_u),
  λ (stored, m). rw eq ((mem-filter_map (λ u. lookup u s.gpus) keys).1 ∣ (g.uuid, m, stored) ∣₁),
)
  where
    eq : collect_gpus s.gpus keys ≡ filter_map (λ u. lookup u s.gpus) keys
    eq = collect_gpus-filter_map s.gpus keys

-- The keys that a `range` over `gpusWithTelemetry` visits, in the order of the list.
abbrev pub seen_keys : Store → List Text
seen_keys s = map (λ e. e.0) s.gpus_with_telemetry

mem-seen_keys : (u : Text) (m : Map Bool) → Mem u (map (λ e. e.0) m) ↔ (has u m ≡ true)
mem-seen_keys u [] = (λ m. absurd (not-mem-nil m), λ e. cc)
mem-seen_keys u ((k, b) ∷ m) = (
  λ h.
      Or.elim (Bool-set _ _) (mem-cons.0 h) (λ e. ground (arith, text_eq_iff k u, e))
        (λ t. ground (arith, (mem-seen_keys u m).0 t)),
  λ h. elim (Bool-cases (text_eq k u)) [
    | inl e ↦ rw ((text_eq_iff k u).0 e) mem-cons_self
    | inr e ↦ mem-cons_of_mem k ((mem-seen_keys u m).1 (ground arith))
  ],
)

module _ (slice : SortSlice) (s : Store) (v : IsConsistent s) where
  IsStored-of_mem : (keys : List Text) (g : Gpu) → Mem g (collect_gpus s.gpus keys) → IsStored s g
  IsStored-of_mem keys g m = ((mem-collect_gpus s keys g v).0 m).0

  listed-IsSorted : (keys : List Text) → IsSorted uuid_less (list_gpus slice keys s)
  unfolding list_gpus
  listed-IsSorted keys = slice.sort-IsSorted Gpu uuid_less _ uuid_less-IsStrictWeak

  -- On a consistent store, whatever order `range` visits the seen GPUs in, `ListGPUs` lists by
  -- ascending UUID exactly the stored GPUs that have at least one telemetry record.
  pub list_gpus-lists :
      (keys : List Text)
      → Perm keys (seen_keys s)
      → ((g : Gpu)
          → Mem g (list_gpus slice keys s)
            ↔ ((lookup g.uuid s.gpus ≡ some g) × (has_records g.uuid s.telemetry ≡ true)))
        × IsSorted uuid_less (list_gpus slice keys s)
  unfolding list_gpus
  list_gpus-lists keys all = (
    λ g. (
      λ m.
          let (stored, seen) = (mem-collect_gpus s keys g v).0 ((Perm.mem_iff sorted).0 m) in
          (
            stored,
            sym (v.seen g.uuid)
                ∙ (mem-seen_keys g.uuid s.gpus_with_telemetry).0 ((Perm.mem_iff all).0 seen),
          ),
      λ (stored, has_some). (Perm.mem_iff sorted).1 (
          (mem-collect_gpus s keys g v).1 (
            stored,
            (Perm.mem_iff all).1
                ((mem-seen_keys g.uuid s.gpus_with_telemetry).1 (v.seen g.uuid ∙ has_some)),
          )),
    ),
    listed-IsSorted keys,
  )
    where
      sorted : Perm (slice.sort Gpu uuid_less (collect_gpus s.gpus keys)) (collect_gpus s.gpus keys)
      sorted = slice.sort-perm Gpu uuid_less _

some_injective_gpu : (g h : Gpu) → some g ≡ some h → g ≡ h
some_injective_gpu g h e = cc

-- Two visits of the map in different orders, and two sorts that meet the contract of `sort.Slice`,
-- make the same list of a consistent store: the listing is deterministic.
pub list_gpus_deterministic :
    (slice slice' : SortSlice) (s : Store) (keys keys' : List Text)
    → IsConsistent s
    → Perm keys keys'
    → list_gpus slice keys s ≡ list_gpus slice' keys' s
unfolding list_gpus
list_gpus_deterministic slice slice' s keys keys' v same =
    sorted_unique uuid_less (IsStored s) uuid_less-IsStrictWeak
      (λ g h p q a b.
        let e = text_ltb_total g.uuid h.uuid a b in
        some_injective_gpu g h (sym p ∙ ap (λ u. lookup u s.gpus) e ∙ q))
      _ _
      (λ g m.
        IsStored-of_mem slice s v keys g ((Perm.mem_iff (slice.sort-perm Gpu uuid_less _)).0 m))
      (slice.sort-IsSorted Gpu uuid_less _ uuid_less-IsStrictWeak)
      (slice'.sort-IsSorted Gpu uuid_less _ uuid_less-IsStrictWeak)
      (Perm.trans (slice.sort-perm Gpu uuid_less _) (
        Perm.trans
          (rw (collect_gpus-filter_map s.gpus keys, collect_gpus-filter_map s.gpus keys')
            (Perm.filter_map (λ u. lookup u s.gpus) same))
          (Perm.symm (slice'.sort-perm Gpu uuid_less _))))
