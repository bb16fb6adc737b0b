-- ===== src/Common/Insertion.antt =====
-- Insertion sort, which meets the contract of `sort.Slice`.
use mathlib.Core.List.{List, [], ◌∷◌, Perm}
use mathlib.Core.List.Perm
use mathlib.Core.Path.{◌≡◌}
use mathlib.Core.Bool.{Bool, false}
use mathlib.Core.Logic.{inl, inr}
use elastic_gpu_telemetry_pi.Common.Tests.{if◌then◌else◌, Bool-cases}
use elastic_gpu_telemetry_pi.Common.Lists.{All}
use elastic_gpu_telemetry_pi.Common.Sorting.{IsStrictWeak, IsSorted, SortSlice}

module _ {A : Type 0} (less : A → A → Bool) where
  unfoldable pub place : A → List A → List A
  place x [] = x ∷ []
  place x (y ∷ ys) = let rest = place x ys in if less y x then y ∷ rest else x ∷ y ∷ ys

  unfoldable pub sort_by : List A → List A
  unfolding place
  sort_by [] = []
  sort_by (x ∷ xs) = place x (sort_by xs)

  place-perm : (x : A) (xs : List A) → Perm (place x xs) (x ∷ xs)
  unfolding place
  place-perm x [] = Perm.refl _
  place-perm x (y ∷ ys) = elim (Bool-cases (less y x)) [
    | inl e ↦ rw e (Perm.trans (Perm.cons y (place-perm x ys)) (Perm.swap x y ys))
    | inr e ↦ rw e (Perm.refl _)
  ]

  pub sort_by-perm : (xs : List A) → Perm (sort_by xs) xs
  unfolding sort_by
  sort_by-perm [] = Perm.refl []
  sort_by-perm (x ∷ xs) = Perm.trans (place-perm x (sort_by xs)) (Perm.cons x (sort_by-perm xs))

  place-All : (P : A → Type 0) (x : A) (xs : List A) → P x → All P xs → All P (place x xs)
  unfolding place
  place-All P x [] p h = (p, tt)
  place-All P x (y ∷ ys) p h = elim (Bool-cases (less y x)) [
    | inl e ↦ rw e (h.0, place-All P x ys p h.1)
    | inr e ↦ rw e (p, h)
  ]

  All-less_of :
      IsStrictWeak less
      → (x y : A) (ys : List A) → less y x ≡ false
      → All (λ z. less z y ≡ false) ys
      → All (λ z. less z x ≡ false) ys
  All-less_of w x y [] e h = tt
  All-less_of w x y (z ∷ ys) e h = (w.negtrans x y z e h.0, All-less_of w x y ys e h.1)

  place-IsSorted :
      IsStrictWeak less → (x : A) (xs : List A) → IsSorted less xs → IsSorted less (place x xs)
  unfolding place
  place-IsSorted w x [] h = (tt, tt)
  place-IsSorted w x (y ∷ ys) h = elim (Bool-cases (less y x)) [
    | inl e ↦
        rw e (place-All (λ z. less z y ≡ false) x ys (w.asymm y x e) h.0, place-IsSorted w x ys h.1)
    | inr e ↦ rw e ((e, All-less_of w x y ys e h.0), h)
  ]

  pub sort_by-IsSorted : IsStrictWeak less → (xs : List A) → IsSorted less (sort_by xs)
  unfolding sort_by
  sort_by-IsSorted w [] = tt
  sort_by-IsSorted w (x ∷ xs) = place-IsSorted w x (sort_by xs) (sort_by-IsSorted w xs)

abbrev pub insertion_sort : SortSlice
insertion_sort = record {
  sort = λ A less. sort_by less;
  sort-perm = λ A less. sort_by-perm less;
  sort-IsSorted = λ A less xs w. sort_by-IsSorted less w xs;
}
