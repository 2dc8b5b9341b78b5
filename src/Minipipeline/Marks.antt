-- ===== src/Minipipeline/Marks.antt =====
-- The maps from keys to two bits with which pkg/minipipeline/dnsdiff.go and httpdiff.go compare what
-- the probe has with what the test helper has.
pub mod Laws
use ooni_probe_engine.Prelude.{
  Bool, true, false, not, ◌||◌, ◌&&◌, ◌≡◌, refl, subst, ◌∙◌, inl, inr, Option, none, some, List, [],
  ◌∷◌, Permᴰ, is_set, if◌then◌else◌, Bool-cases, arith,
}
use ooni_probe_engine.Prelude.Keys.{Key}
use ooni_probe_engine.Prelude.Table.{Table, find, store, find-store, IsMap, IsMap-store}
use ooni_probe_engine.Minipipeline.Set.{Set, contains, add_one, contains-add_one}

-- The bits 1 << 0 and 1 << 1.
pub record Marks : Type 0 where
  pub by_probe : Bool
  pub by_th : Bool

-- m[key], which is 0 for a missing key
abbrev pub marks_of : Option Marks → Marks
marks_of none = record { by_probe = false; by_th = false }
marks_of (some marks) = marks

abbrev pub mark_probe : Marks → Marks
mark_probe marks = record marks { by_probe = true }

abbrev pub mark_th : Marks → Marks
mark_th marks = record marks { by_th = true }

abbrev pub in_both : Marks → Bool
in_both marks = marks.by_probe && marks.by_th

module _ {K : Type 0} ⦃k : Key K⦄ where
  abbrev pub is_key : Option K → K → Bool
  is_key none asked = false
  is_key (some key) asked = k.same key asked

  -- if x has a key { m[key] |= bit }
  unfoldable pub mark_one : (Marks → Marks) → Option K → Table K Marks → Table K Marks
  mark_one set none table = table
  mark_one set (some key) table = store key (set (marks_of (find key table))) table

  -- The loop of it over the items.
  unfoldable pub mark_all {ℓ} :
      {X : Type ℓ} (key_of : X → Option K)
      → (Marks → Marks)
      → List X
      → Table K Marks
      → Table K Marks
  mark_all key_of set [] table = table
  mark_all key_of set (x ∷ xs) table = mark_all key_of set xs (mark_one set (key_of x) table)

  -- Some item has the key.
  unfoldable pub any_has {ℓ} : {X : Type ℓ} (key_of : X → Option K) → List X → K → Bool
  any_has key_of [] asked = false
  any_has key_of (x ∷ xs) asked = is_key (key_of x) asked || any_has key_of xs asked

  -- The loop `for key, value := range m { if test(key, value) { state.Add(key) } }`.
  unfoldable pub collect : (K → Marks → Bool) → Table K Marks → Set K → Set K
  collect test [] state = state
  collect test ((key, marks) ∷ table) state =
      collect test table (if test key marks then add_one key state else state)

module _ {ℓ κ} {K : Type 0} {X : Type ℓ} {Y : Type κ} ⦃k : Key K⦄ (key_of : X → Option K)
    (th_key_of : Y → Option K) where
  -- The map after the loop over what the probe has and the loop over what the test helper has.
  unfoldable pub compared : List X → List Y → Table K Marks
  compared measurement control =
      mark_all th_key_of mark_th control (mark_all key_of mark_probe measurement [])
