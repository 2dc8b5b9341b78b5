-- ===== src/Prelude/Perms.antt =====
-- Rearrangements of lists, and what they keep.
use mathlib.Core.Path.{◌≡◌, refl, sym, ap, subst}
use mathlib.Core.Logic.{inl, inr}
use mathlib.Core.Bool.{Bool, true, false}
use mathlib.Core.List.{List, [], ◌∷◌, Permᴰ}
use ooni_probe_engine.Prelude.Tests.{if◌then◌else◌, Bool-cases}
use ooni_probe_engine.Prelude.Lists.{keep, All}

module _ {ℓ} {A : Type ℓ} where
  pub Perm-refl : (l : List A) → Permᴰ l l
  Perm-refl [] = Permᴰ.nil
  Perm-refl (x ∷ l) = Permᴰ.cons refl (Perm-refl l)

  pub All-Perm {κ} : (P : A → Type κ) {l m : List A} → Permᴰ l m → All P l → All P m
  All-Perm P Permᴰ.nil h = tt
  All-Perm P (Permᴰ.cons e p) h = (subst P e h.0, All-Perm P p h.1)
  All-Perm P (Permᴰ.swap e f) h = (subst P f h.1.0, (subst P e h.0, h.1.1))
  All-Perm P (Permᴰ.trans p q) h = All-Perm P q (All-Perm P p h)

  cons_if-Perm :
      (b c : Bool) {x y : A} {l m : List A}
      → b ≡ c
      → x ≡ y
      → Permᴰ l m
      → Permᴰ (if b then x ∷ l else l) (if c then y ∷ m else m)
  cons_if-Perm true c e f p = rw (← e) (Permᴰ.cons f p)
  cons_if-Perm false c e f p = rw (← e) p

  -- Two neighbours that each may be left out.
  swap_if-Perm :
      (p q p' q' : Bool) {a b a' b' : A} (l : List A)
      → p ≡ q'
      → q ≡ p'
      → a ≡ b'
      → b ≡ a'
      → Permᴰ
          (if p then a ∷ (if q then b ∷ l else l) else if q then b ∷ l else l)
          (if p' then a' ∷ (if q' then b' ∷ l else l) else if q' then b' ∷ l else l)
  swap_if-Perm true true p' q' l u v e f = rw (← u, ← v) (Permᴰ.swap e f)
  swap_if-Perm true false p' q' l u v e f = rw (← u, ← v) (Permᴰ.cons e (Perm-refl l))
  swap_if-Perm false true p' q' l u v e f = rw (← u, ← v) (Permᴰ.cons f (Perm-refl l))
  swap_if-Perm false false p' q' l u v e f = rw (← u, ← v) (Perm-refl l)

  pub keep-Perm : (test : A → Bool) {l m : List A} → Permᴰ l m → Permᴰ (keep test l) (keep test m)
  keep-Perm test Permᴰ.nil = Permᴰ.nil
  keep-Perm test (Permᴰ.cons {a = a} {b = b} e p) =
      cons_if-Perm (test a) (test b) (ap test e) e (keep-Perm test p)
  keep-Perm test (Permᴰ.swap {a = a} {b = b} {a' = a'} {b' = b'} {l = l} e f) =
      swap_if-Perm (test a) (test b) (test a') (test b') (keep test l) (ap test e) (ap test f) e f
  keep-Perm test (Permᴰ.trans p q) = Permᴰ.trans (keep-Perm test p) (keep-Perm test q)

  pub All-keep_test : (test : A → Bool) (l : List A) → All (λ x. test x ≡ true) (keep test l)
  All-keep_test test [] = tt
  All-keep_test test (x ∷ l) = elim (Bool-cases (test x)) [
    | inl accepted ↦ rw accepted (accepted, All-keep_test test l)
    | inr refused ↦ rw refused (All-keep_test test l)
  ]

  pub All-keep {κ} : (P : A → Type κ) (test : A → Bool) (l : List A) → All P l → All P (keep test l)
  All-keep P test [] h = tt
  All-keep P test (x ∷ l) h = elim (Bool-cases (test x)) [
    | inl accepted ↦ rw accepted (h.0, All-keep P test l h.1)
    | inr refused ↦ rw refused (All-keep P test l h.1)
  ]

  pub Perm-symm : {l m : List A} → Permᴰ l m → Permᴰ m l
  Perm-symm Permᴰ.nil = Permᴰ.nil
  Perm-symm (Permᴰ.cons e p) = Permᴰ.cons (sym e) (Perm-symm p)
  Perm-symm (Permᴰ.swap e f) = Permᴰ.swap (sym f) (sym e)
  Perm-symm (Permᴰ.trans p q) = Permᴰ.trans (Perm-symm q) (Perm-symm p)
