-- ===== src/Prelude/Dict.antt =====
-- Go's `map[string]V`: an association list. Its order stands for the order in which a `range` loop
-- meets the entries, which Go leaves open: theorems hold for every such list.
use Prim.Native.Nat.{suc, ◌≤◌}
use Prim.Native.String.{String}
use mathlib.Core.Path.{◌≡◌, refl, ap₂, subst}
use mathlib.Core.Logic.{inl, inr}
use mathlib.Core.Option.{Option, none, some, some-injective}
use mathlib.Core.List.{List, [], ◌∷◌}
use native.Mathlib.Omega.{arith}
use text.Mathlib.Text.{◌==◌ as str_eq}
use text.Mathlib.TextEquality.{eq_iff}
use ooni_probe_engine.Prelude.Tests.{if◌then◌else◌, Bool-cases}
use ooni_probe_engine.Prelude.Lists.{length, All}

abbrev pub Dict {ℓ} : Type ℓ → Type ℓ
Dict V = List (String × V)

module _ {ℓ} {V : Type ℓ} where
  -- value, found := m[key]
  unfoldable pub lookup : String → Dict V → Option V
  lookup key [] = none
  lookup key ((name, x) ∷ entries) = if str_eq name key then some x else lookup key entries

  -- m[key] = value
  unfoldable pub insert : String → V → Dict V → Dict V
  insert key value [] = (key, value) ∷ []
  insert key value ((name, x) ∷ entries) =
      let further = (name, x) ∷ insert key value entries in
      if str_eq name key then (key, value) ∷ entries else further

  pub lookup-insert :
      (key asked : String) (value : V) (entries : Dict V)
      → lookup asked (insert key value entries)
        ≡ (if str_eq key asked then some value else lookup asked entries)
  unfolding lookup insert
  lookup-insert key asked value [] = refl
  lookup-insert key asked value ((name, x) ∷ entries) = ground (
    arith,
    lookup-insert key asked value entries,
    eq_iff name key,
    eq_iff name asked,
    eq_iff key asked,
  )

  pub length-insert-le : (k : String) (v : V) (m : Dict V) → length (insert k v m) ≤ suc (length m)
  unfolding insert
  length-insert-le k v [] = omega arith
  length-insert-le k v ((i, w) ∷ m) = ground (arith, length-insert-le k v m)

  pub All-insert {κ} :
      (P : String × V → Type κ) (k : String) (v : V) (m : Dict V)
      → P (k, v)
      → All P m
      → All P (insert k v m)
  unfolding insert
  All-insert P k v [] p h = (p, tt)
  All-insert P k v ((i, w) ∷ m) p h = elim (Bool-cases (str_eq i k)) [
    | inl same ↦ rw same (p, h.1)
    | inr other ↦ rw other (h.0, All-insert P k v m p h.1)
  ]

  pub All-lookup {κ} :
      (P : String × V → Type κ) (k : String) (v : V) (m : Dict V)
      → All P m
      → lookup k m ≡ some v
      → P (k, v)
  unfolding lookup
  All-lookup P k v [] h e = cc
  All-lookup P k v ((i, w) ∷ m) h e = elim (Bool-cases (str_eq i k)) [
    | inl same ↦
        let found : some w ≡ some v = rw same at e in
        subst P (ap₂ (λ a b. (a, b)) ((eq_iff i k).0 same) (some-injective w v found)) h.0
    | inr other ↦ All-lookup P k v m h.1 (rw other at e)
  ]
