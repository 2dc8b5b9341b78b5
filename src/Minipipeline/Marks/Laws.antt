-- ===== src/Minipipeline/Marks/Laws.antt =====
-- pkg/minipipeline/dnsdiff.go and httpdiff.go: which keys a comparison of two maps to bits finds.
use ooni_probe_engine.Prelude.{
  Bool, true, false, not, ◌||◌, ◌&&◌, ◌≡◌, refl, subst, ◌∙◌, inl, inr, Option, none, some, List, [],
  ◌∷◌, Permᴰ, is_set, if◌then◌else◌, Bool-cases, arith,
}
use ooni_probe_engine.Prelude.Keys.{Key}
use ooni_probe_engine.Prelude.Table.{Table, find, find-store, IsMap, IsMap-store}
use ooni_probe_engine.Minipipeline.Set.{Set, contains, add_one, contains-add_one}
use ooni_probe_engine.Minipipeline.Marks.{
  Marks, marks_of, mark_probe, mark_th, in_both, is_key, mark_one, mark_all, any_has, collect,
  compared,
}

module _ {K : Type 0} ⦃k : Key K⦄ where
  pub any_has-Perm {ℓ} :
      {X : Type ℓ} (key_of : X → Option K) {l m : List X} (asked : K)
      → Permᴰ l m
      → any_has key_of l asked ≡ any_has key_of m asked
  unfolding any_has
  any_has-Perm key_of asked Permᴰ.nil = refl
  any_has-Perm key_of asked (Permᴰ.cons e p) = rw (e, any_has-Perm key_of asked p) refl
  any_has-Perm key_of asked (Permᴰ.swap {a = a} {b = b} e f) = rw (← e, ← f) (ground arith)
  any_has-Perm key_of asked (Permᴰ.trans p q) =
      any_has-Perm key_of asked p ∙ any_has-Perm key_of asked q

  -- What a bit does to a reading of the map: it makes the reading true at the key,
  module _ (get : Option Marks → Bool) (set : Marks → Marks) where
    mark_one_on :
        ((o : Option Marks) → get (some (set (marks_of o))) ≡ true)
        → (o : Option K) (table : Table K Marks) (asked : K)
        → get (find asked (mark_one set o table)) ≡ (is_key o asked || get (find asked table))
    unfolding mark_one
    mark_one_on on none table asked = refl
    mark_one_on on (some key) table asked = elim (Bool-cases (k.same key asked)) [
      | inl same ↦
          rw (find-store key asked (set (marks_of (find key table))) table, same)
            (on (find key table))
      | inr other ↦ rw (find-store key asked (set (marks_of (find key table))) table, other) refl
    ]

    pub find-mark_all_on {ℓ} :
        {X : Type ℓ} (key_of : X → Option K)
        → ((o : Option Marks) → get (some (set (marks_of o))) ≡ true)
        → (xs : List X) (table : Table K Marks) (asked : K)
        → get (find asked (mark_all key_of set xs table))
          ≡ (any_has key_of xs asked || get (find asked table))
    unfolding mark_all any_has
    find-mark_all_on key_of on [] table asked = refl
    find-mark_all_on key_of on (x ∷ xs) table asked = ground (
      arith,
      find-mark_all_on key_of on xs (mark_one set (key_of x) table) asked,
      mark_one_on on (key_of x) table asked,
    )

    -- or it leaves the reading.
    mark_one_off :
        ((o : Option Marks) → get (some (set (marks_of o))) ≡ get o)
        → (o : Option K) (table : Table K Marks) (asked : K)
        → get (find asked (mark_one set o table)) ≡ get (find asked table)
    unfolding mark_one
    mark_one_off off none table asked = refl
    mark_one_off off (some key) table asked = elim (Bool-cases (k.same key asked)) [
      | inl same ↦
          let at = (k.same_iff key asked).0 same in
          rw (find-store key asked (set (marks_of (find key table))) table, same)
            (subst (λ a. get (some (set (marks_of (find key table)))) ≡ get (find a table)) at
              (off (find key table)))
      | inr other ↦ rw (find-store key asked (set (marks_of (find key table))) table, other) refl
    ]

    pub find-mark_all_off {ℓ} :
        {X : Type ℓ} (key_of : X → Option K)
        → ((o : Option Marks) → get (some (set (marks_of o))) ≡ get o)
        → (xs : List X) (table : Table K Marks) (asked : K)
        → get (find asked (mark_all key_of set xs table)) ≡ get (find asked table)
    unfolding mark_all
    find-mark_all_off key_of off [] table asked = refl
    find-mark_all_off key_of off (x ∷ xs) table asked =
        find-mark_all_off key_of off xs (mark_one set (key_of x) table) asked
        ∙ mark_one_off off (key_of x) table asked

  IsMap-mark_one :
      (set : Marks → Marks) (o : Option K) (table : Table K Marks)
      → IsMap table
      → IsMap (mark_one set o table)
  unfolding mark_one
  IsMap-mark_one set none table h = h
  IsMap-mark_one set (some key) table h = IsMap-store key (set (marks_of (find key table))) table h

  pub IsMap-mark_all {ℓ} :
      {X : Type ℓ} (key_of : X → Option K) (set : Marks → Marks) (xs : List X)
      (table : Table K Marks)
      → IsMap table
      → IsMap (mark_all key_of set xs table)
  unfolding mark_all
  IsMap-mark_all key_of set [] table h = h
  IsMap-mark_all key_of set (x ∷ xs) table h =
      IsMap-mark_all key_of set xs (mark_one set (key_of x) table)
        (IsMap-mark_one set (key_of x) table h)

  abbrev pub passes : (K → Marks → Bool) → K → Option Marks → Bool
  passes test key none = false
  passes test key (some marks) = test key marks

  passes_none :
      (test : K → Marks → Bool) (key : K) (o : Option Marks)
      → is_set o ≡ false
      → passes test key o ≡ false
  passes_none test key none h = refl
  passes_none test key (some marks) h = cc

  passes-find :
      (test : K → Marks → Bool) (key asked : K) (marks : Marks) (table : Table K Marks)
      → is_set (find key table) ≡ false
      → passes test asked (find asked ((key, marks) ∷ table))
        ≡ (k.same key asked && test key marks || passes test asked (find asked table))
  unfolding find
  passes-find test key asked marks table h = elim (Bool-cases (k.same key asked)) [
    | inl same ↦
        let at = (k.same_iff key asked).0 same in
        let absent : passes test asked (find asked table) ≡ false =
          subst (λ a. passes test a (find a table) ≡ false) at
            (passes_none test key (find key table) h) in
        rw (same, absent) (subst (λ a. test a marks ≡ (test key marks || false)) at (ground arith))
    | inr other ↦ rw other refl
  ]

  pub contains-collect :
      (test : K → Marks → Bool) (table : Table K Marks) (state : Set K) (asked : K)
      → IsMap table
      → contains (collect test table state) asked
        ≡ (passes test asked (find asked table) || contains state asked)
  unfolding collect IsMap find contains
  contains-collect test [] state asked h = refl
  contains-collect test ((key, marks) ∷ table) state asked h = ground (
    arith,
    passes-find test key asked marks table h.0,
    contains-collect test table (if test key marks then add_one key state else state) asked h.1,
    contains-add_one key asked state,
    Bool-cases (test key marks),
  )

abbrev pub probe_bit : Option Marks → Bool
probe_bit o = (marks_of o).by_probe

abbrev pub th_bit : Option Marks → Bool
th_bit o = (marks_of o).by_th

module _ {ℓ κ} {K : Type 0} {X : Type ℓ} {Y : Type κ} ⦃k : Key K⦄ (key_of : X → Option K)
    (th_key_of : Y → Option K) where
  IsMap-compared : (xs : List X) (ys : List Y) → IsMap (compared key_of th_key_of xs ys)
  unfolding compared IsMap
  IsMap-compared xs ys =
      IsMap-mark_all th_key_of mark_th ys _ (IsMap-mark_all key_of mark_probe xs [] tt)

  probe_bit-compared :
      (xs : List X) (ys : List Y) (asked : K)
      → probe_bit (find asked (compared key_of th_key_of xs ys)) ≡ any_has key_of xs asked
  unfolding compared find
  probe_bit-compared xs ys asked = ground (
    arith,
    find-mark_all_off probe_bit mark_th th_key_of (λ o. refl) ys (mark_all key_of mark_probe xs [])
        asked,
    find-mark_all_on probe_bit mark_probe key_of (λ o. refl) xs [] asked,
  )

  th_bit-compared :
      (xs : List X) (ys : List Y) (asked : K)
      → th_bit (find asked (compared key_of th_key_of xs ys)) ≡ any_has th_key_of ys asked
  unfolding compared find
  th_bit-compared xs ys asked = ground (
    arith,
    find-mark_all_on th_bit mark_th th_key_of (λ o. refl) ys (mark_all key_of mark_probe xs [])
        asked,
    find-mark_all_off th_bit mark_probe key_of (λ o. refl) xs [] asked,
  )

  is_set-compared :
      (xs : List X) (ys : List Y) (asked : K)
      → is_set (find asked (compared key_of th_key_of xs ys))
        ≡ (any_has key_of xs asked || any_has th_key_of ys asked)
  unfolding compared find
  is_set-compared xs ys asked = ground (
    arith,
    find-mark_all_on is_set mark_th th_key_of (λ o. refl) ys (mark_all key_of mark_probe xs [])
        asked,
    find-mark_all_on is_set mark_probe key_of (λ o. refl) xs [] asked,
  )

  passes_both :
      (ok : K → Bool) (key : K) (o : Option Marks)
      → passes (λ key marks. ok key && in_both marks) key o ≡ (ok key && (probe_bit o && th_bit o))
  passes_both ok key none = ground arith
  passes_both ok key (some marks) = refl

  passes_one :
      (key : K) (o : Option Marks)
      → passes (λ key marks. not (in_both marks)) key o
        ≡ (is_set o && not (probe_bit o && th_bit o))
  passes_one key none = refl
  passes_one key (some marks) = refl

  -- The keys that pass a test and that both sides have.
  pub contains-collect_both :
      (ok : K → Bool) (xs : List X) (ys : List Y) (asked : K)
      → contains
          (collect (λ key marks. ok key && in_both marks) (compared key_of th_key_of xs ys) [])
          asked
        ≡ (ok asked && (any_has key_of xs asked && any_has th_key_of ys asked))
  unfolding contains
  contains-collect_both ok xs ys asked = ground (
    arith,
    contains-collect (λ key marks. ok key && in_both marks) (compared key_of th_key_of xs ys) []
        asked (IsMap-compared xs ys),
    passes_both ok asked (find asked (compared key_of th_key_of xs ys)),
    probe_bit-compared xs ys asked,
    th_bit-compared xs ys asked,
  )

  -- The keys that one side has and the other has not.
  pub contains-collect_one :
      (xs : List X) (ys : List Y) (asked : K)
      → contains
          (collect (λ key marks. not (in_both marks)) (compared key_of th_key_of xs ys) [])
          asked
        ≡ ((any_has key_of xs asked || any_has th_key_of ys asked)
            && not (any_has key_of xs asked && any_has th_key_of ys asked))
  unfolding contains
  contains-collect_one xs ys asked = ground (
    arith,
    contains-collect (λ key marks. not (in_both marks)) (compared key_of th_key_of xs ys) [] asked
        (IsMap-compared xs ys),
    passes_one asked (find asked (compared key_of th_key_of xs ys)),
    is_set-compared xs ys asked,
    probe_bit-compared xs ys asked,
    th_bit-compared xs ys asked,
  )
