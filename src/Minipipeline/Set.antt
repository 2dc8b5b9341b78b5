-- ===== src/Minipipeline/Set.antt =====
-- pkg/minipipeline/set.go: Set, kept as the keys of its map, each once.
use ooni_probe_engine.Prelude.{
  Bool, true, false, not, ◌||◌, ◌&&◌, ◌≡◌, refl, List, [], ◌∷◌, Permᴰ, keep, if◌then◌else◌,
  Bool-cases, arith,
}
use ooni_probe_engine.Prelude.Keys.{Key}
use ooni_probe_engine.Prelude.Sorting.{insertion_sort, insertion_sort-perm}

abbrev pub Set : Type 0 → Type 0
Set K = List K

module _ {K : Type 0} ⦃k : Key K⦄ where
  unfoldable pub contains : Set K → K → Bool
  contains [] key = false
  contains (entry ∷ sx) key = k.same entry key || contains sx key

  -- sx.state[key] = true
  unfoldable pub add_one : K → Set K → Set K
  add_one key [] = key ∷ []
  add_one key (entry ∷ sx) =
      let further = entry ∷ add_one key sx in if k.same entry key then entry ∷ sx else further

  unfoldable pub add : List K → Set K → Set K
  add [] sx = sx
  add (key ∷ keys) sx = add keys (add_one key sx)

  unfoldable pub new_set : List K → Set K
  new_set keys = add keys []

  unfoldable pub remove : K → Set K → Set K
  remove key sx = keep (λ entry. not (k.same entry key)) sx

  unfoldable pub keys : Set K → List K
  keys sx = insertion_sort k.less sx

  pub same_refl : (key : K) → k.same key key ≡ true
  same_refl key = (k.same_iff key key).1 refl

  pub contains-add_one :
      (key asked : K) (sx : Set K)
      → contains (add_one key sx) asked ≡ (k.same key asked || contains sx asked)
  unfolding contains add_one
  contains-add_one key asked [] = refl
  contains-add_one key asked (entry ∷ sx) = ground (
    arith,
    contains-add_one key asked sx,
    k.same_iff entry key,
    k.same_iff entry asked,
    k.same_iff key asked,
  )

  pub contains-add :
      (new : List K) (sx : Set K) (asked : K)
      → contains (add new sx) asked ≡ (contains new asked || contains sx asked)
  unfolding contains add
  contains-add [] sx asked = refl
  contains-add (key ∷ new) sx asked =
      ground (arith, contains-add new (add_one key sx) asked, contains-add_one key asked sx)

  pub contains-new_set :
      (new : List K) (asked : K) → contains (new_set new) asked ≡ contains new asked
  unfolding new_set contains
  contains-new_set new asked = ground (arith, contains-add new [] asked)

  pub contains-remove :
      (key asked : K) (sx : Set K)
      → contains (remove key sx) asked ≡ (contains sx asked && not (k.same key asked))
  unfolding contains remove
  contains-remove key asked [] = refl
  contains-remove key asked (entry ∷ sx) = ground (
    arith,
    contains-remove key asked sx,
    k.same_iff entry key,
    k.same_iff entry asked,
    k.same_iff key asked,
  )

  pub contains-Perm : {l m : List K} (asked : K) → Permᴰ l m → contains l asked ≡ contains m asked
  unfolding contains
  contains-Perm asked Permᴰ.nil = refl
  contains-Perm asked (Permᴰ.cons e p) = rw (e, contains-Perm asked p) refl
  contains-Perm asked (Permᴰ.swap {a = a} {b = b} e f) =
      rw (← e, ← f) (ground (arith, Bool-cases (k.same a asked)))
  contains-Perm asked (Permᴰ.trans p q) = rw (contains-Perm asked p) (contains-Perm asked q)

  pub contains-keys : (sx : Set K) (asked : K) → contains (keys sx) asked ≡ contains sx asked
  unfolding keys
  contains-keys sx asked = contains-Perm asked (insertion_sort-perm k.less sx)
