-- ===== src/Prelude/Table.antt =====
-- Go's `map[K]V` for any type of keys: an association list, in the order in which a `range` loop meets
-- the entries.
use mathlib.Core.Path.{◌≡◌, refl, subst, ap₂}
use mathlib.Core.Logic.{inl, inr}
use mathlib.Core.Bool.{false}
use mathlib.Core.Option.{Option, none, some, some-injective}
use mathlib.Core.List.{List, [], ◌∷◌}
use native.Mathlib.Omega.{arith}
use ooni_probe_engine.Prelude.Tests.{if◌then◌else◌, Bool-cases, is_set}
use ooni_probe_engine.Prelude.Lists.{All}
use ooni_probe_engine.Prelude.Keys.{Key}

abbrev pub Table {ℓ κ} : Type ℓ → Type κ → Type (ℓ ⊔ κ)
Table K V = List (K × V)

module _ {ℓ κ} {K : Type ℓ} {V : Type κ} ⦃k : Key K⦄ where
  unfoldable pub find : K → Table K V → Option V
  find key [] = none
  find key ((name, x) ∷ entries) = if k.same name key then some x else find key entries

  unfoldable pub store : K → V → Table K V → Table K V
  store key value [] = (key, value) ∷ []
  store key value ((name, x) ∷ entries) =
      let further = (name, x) ∷ store key value entries in
      if k.same name key then (key, value) ∷ entries else further

  pub All-store {μ} :
      (P : K × V → Type μ) (key : K) (value : V) (entries : Table K V)
      → P (key, value)
      → All P entries
      → All P (store key value entries)
  unfolding store
  All-store P key value [] p h = (p, tt)
  All-store P key value ((name, x) ∷ entries) p h = elim (Bool-cases (k.same name key)) [
    | inl old ↦ rw old (p, h.1)
    | inr other ↦ rw other (h.0, All-store P key value entries p h.1)
  ]

  pub All-find {μ} :
      (P : K × V → Type μ) (key : K) (value : V) (entries : Table K V)
      → All P entries
      → find key entries ≡ some value
      → P (key, value)
  unfolding find
  All-find P key value [] h e = cc
  All-find P key value ((name, x) ∷ entries) h e = elim (Bool-cases (k.same name key)) [
    | inl old ↦
        let found : some x ≡ some value = rw old at e in
        subst P (ap₂ (λ a b. (a, b)) ((k.same_iff name key).0 old) (some-injective x value found))
          h.0
    | inr other ↦ All-find P key value entries h.1 (rw other at e)
  ]

  pub find-store :
      (key asked : K) (value : V) (entries : Table K V)
      → find asked (store key value entries)
        ≡ (if k.same key asked then some value else find asked entries)
  unfolding find store
  find-store key asked value [] = refl
  find-store key asked value ((name, x) ∷ entries) = ground (
    arith,
    arith,
    find-store key asked value entries,
    k.same_iff name key,
    k.same_iff name asked,
    k.same_iff key asked,
  )

  -- Every key stands in the table once.
  unfoldable pub IsMap : Table K V → Type 0
  IsMap [] = Unit
  IsMap ((name, x) ∷ entries) = (is_set (find name entries) ≡ false) × IsMap entries

  pub IsMap-store :
      (key : K) (value : V) (entries : Table K V) → IsMap entries → IsMap (store key value entries)
  unfolding IsMap find store
  IsMap-store key value [] h = (refl, tt)
  IsMap-store key value ((name, x) ∷ entries) h = elim (Bool-cases (k.same name key)) [
    | inl old ↦
        rw old (subst (λ n. is_set (find n entries) ≡ false) ((k.same_iff name key).0 old) h.0, h.1)
    | inr other ↦
        let absent : is_set (find name (store key value entries)) ≡ false = ground (
          arith,
          find-store key name value entries,
          k.same_iff name key,
          k.same_iff key name,
          h.0,
        ) in
        rw other (absent, IsMap-store key value entries h.1)
  ]
