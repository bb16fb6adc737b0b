-- ===== src/Queue/Selecting.antt =====
-- pkg/mq/inmemory.go: the round-robin choice of `deliverMessage`.
use elastic_gpu_telemetry_pi.Common.{
  ℕ, zero, suc, ◌+◌, ◌%◌, ◌<◌, ◌≡◌, ◌⊎◌, inl, inr, true, some, List, [], ◌∷◌, arith, leb, ◌==◌,
  length, get_elem?, get_elem?_of_lt, Bool-cases, if◌then◌else◌,
}
use elastic_gpu_telemetry_pi.Queue.{Queue, contains_ref}
use elastic_gpu_telemetry_pi.Queue.Steps.{select, no_subscribers, selected}

-- The index that the choice uses: the current one, or the first where that is out of range.
abbrev pub chosen_index : Queue → ℕ
chosen_index q = if leb (length q.subscribers) q.current then 0 else q.current

contains_ref_of_get : (rs : List ℕ) (i r : ℕ) → get_elem? rs i ≡ some r → contains_ref r rs ≡ true
contains_ref_of_get [] i r e = cc
contains_ref_of_get (x ∷ rs) zero r e = ground arith
contains_ref_of_get (x ∷ rs) (suc i) r e = ground (arith, contains_ref_of_get rs i r)

-- What a choice among at least one subscriber gives.
pub record Chooses (q : Queue) (ref : ℕ) : Type 0 where
  pub at_index : get_elem? q.subscribers (chosen_index q) ≡ some ref
  pub listed : contains_ref ref q.subscribers ≡ true
  pub result :
      select q ≡ selected ref (record q { current = (chosen_index q + 1) % length q.subscribers })

pub select-Chooses : (q : Queue) → 0 < length q.subscribers → (ref : ℕ) × Chooses q ref
unfolding select
select-Chooses q h =
    let (ref, e) = get_elem?_of_lt q.subscribers (chosen_index q) (ground arith) in
    (
      ref,
      record {
        at_index = e;
        listed = contains_ref_of_get q.subscribers (chosen_index q) ref e;
        result = ground arith;
      },
    )

pub select_nobody : (q : Queue) → length q.subscribers ≡ 0 → select q ≡ no_subscribers
unfolding select
select_nobody q h = ground arith

-- Either there is nobody to choose, or somebody who is listed is chosen.
pub select_cases :
    (q : Queue)
    → ((length q.subscribers ≡ 0) × (select q ≡ no_subscribers)) ⊎ ((ref : ℕ) × Chooses q ref)
select_cases q = elim (Bool-cases (length q.subscribers == 0)) [
  | inl e ↦ inl (ground arith, select_nobody q (ground arith))
  | inr e ↦ inr (select-Chooses q (ground arith))
]
