-- ===== src/Common/Sorting.antt =====
-- `sort.Slice` of Go's standard library, by its documented behaviour.
use mathlib.Core.List.{
  List, [], ◌∷◌, Mem, Perm, mem-cons, mem-cons_self, mem-cons_of_mem, not-mem-nil,
}
use mathlib.Core.List.Perm
use mathlib.Core.Logic.Or
use mathlib.Core.Path.{◌≡◌, sym, ap₂, subst}
use mathlib.Core.Bool.{Bool, true, false, Bool-set}
use native.Mathlib.Omega.{arith}
use elastic_gpu_telemetry_pi.Common.Lists.{All}

-- What `sort.Slice` asks of `less`.
pub record IsStrictWeak {A : Type 0} (less : A → A → Bool) : Type 0 where
  pub asymm : (x y : A) → less x y ≡ true → less y x ≡ false
  pub negtrans : (x y z : A) → less y x ≡ false → less z y ≡ false → less z x ≡ false

-- No later element is less than an earlier one.
abbrev pub IsSorted : {A : Type 0} → (A → A → Bool) → List A → Type 0
IsSorted less [] = Unit
IsSorted less (x ∷ xs) = All (λ y. less y x ≡ false) xs × IsSorted less xs

-- The sort is not stable, so only this is known of the result.
pub record SortSlice : Type 1 where
  pub sort : (A : Type 0) → (A → A → Bool) → List A → List A
  pub sort-perm : (A : Type 0) (less : A → A → Bool) (xs : List A) → Perm (sort A less xs) xs
  pub sort-IsSorted :
      (A : Type 0) (less : A → A → Bool) (xs : List A)
      → IsStrictWeak less
      → IsSorted less (sort A less xs)

less_irrefl : {A : Type 0} (less : A → A → Bool) → IsStrictWeak less → (x : A) → less x x ≡ false
less_irrefl less w x = ground (arith, w.asymm x x)

mem-All_less :
    {A : Type 0} (less : A → A → Bool) (x y : A) (ys : List A)
    → All (λ z. less z y ≡ false) ys
    → Mem x ys
    → less x y ≡ false
mem-All_less less x y [] h m = absurd (not-mem-nil m)
mem-All_less less x y (z ∷ ys) h m =
    Or.elim (Bool-set _ _) (mem-cons.0 m) (λ e. rw e h.0) (mem-All_less less x y ys h.1)

-- The head of a sorted list is least.
head_least :
    {A : Type 0} (less : A → A → Bool)
    → IsStrictWeak less
    → (x y : A) (ys : List A) → IsSorted less (y ∷ ys)
    → Mem x (y ∷ ys)
    → less x y ≡ false
head_least less w x y ys h m =
    Or.elim (Bool-set _ _) (mem-cons.0 m) (λ e. rw e (less_irrefl less w y))
      (mem-All_less less x y ys h.0)

-- Two sorted lists of the same elements are equal, if those that neither precedes are equal.
pub sorted_unique {κ} :
    {A : Type 0} (less : A → A → Bool) (P : A → Type κ)
    → IsStrictWeak less
    → ((x y : A) → P x → P y → less x y ≡ false → less y x ≡ false → x ≡ y)
    → (xs ys : List A) → ((x : A) → Mem x xs → P x)
    → IsSorted less xs
    → IsSorted less ys
    → Perm xs ys
    → xs ≡ ys
sorted_unique less P w total [] ys p hx hy same = Perm.nil-eq same
sorted_unique less P w total (x ∷ xs) [] p hx hy same = Perm.eq-nil same
sorted_unique less P w total (x ∷ xs) (y ∷ ys) p hx hy same =
    let e =
      total x y (p x mem-cons_self) (p y ((Perm.mem_iff same).1 mem-cons_self))
        (head_least less w x y ys hy ((Perm.mem_iff same).0 mem-cons_self))
        (head_least less w y x xs hx ((Perm.mem_iff same).1 mem-cons_self)) in
    ap₂ ◌∷◌ e (
      sorted_unique less P w total xs ys (λ z m. p z (mem-cons_of_mem x m)) hx.1 hy.1
        (Perm.cons_inv (subst (λ z. Perm (x ∷ xs) (z ∷ ys)) (sym e) same)))
