-- ===== src/Prelude/Sorting.antt =====
-- Insertion sort: sort.Slice on items that are all different, and a concrete sort.SliceStable.
use mathlib.Core.Path.{refl}
use mathlib.Core.Logic.{inl, inr}
use mathlib.Core.Bool.{Bool}
use mathlib.Core.List.{List, [], ◌∷◌, Permᴰ}
use ooni_probe_engine.Prelude.Tests.{if◌then◌else◌, Bool-cases}
use ooni_probe_engine.Prelude.Perms.{Perm-refl}

module _ {A : Type 0} (less : A → A → Bool) where
  unfoldable pub put : A → List A → List A
  put x [] = x ∷ []
  put x (y ∷ l) = let further = y ∷ put x l in if less y x then further else x ∷ y ∷ l

  unfoldable pub insertion_sort : List A → List A
  insertion_sort [] = []
  insertion_sort (x ∷ l) = put x (insertion_sort l)

  put-perm : (x : A) (l : List A) → Permᴰ (put x l) (x ∷ l)
  unfolding put
  put-perm x [] = Perm-refl (x ∷ [])
  put-perm x (y ∷ l) = elim (Bool-cases (less y x)) [
    | inl later ↦ rw later (Permᴰ.trans (Permᴰ.cons refl (put-perm x l)) (Permᴰ.swap refl refl))
    | inr here ↦ rw here (Perm-refl (x ∷ y ∷ l))
  ]

  pub insertion_sort-perm : (l : List A) → Permᴰ (insertion_sort l) l
  unfolding insertion_sort
  insertion_sort-perm [] = Permᴰ.nil
  insertion_sort-perm (x ∷ l) =
      Permᴰ.trans (put-perm x (insertion_sort l)) (Permᴰ.cons refl (insertion_sort-perm l))
