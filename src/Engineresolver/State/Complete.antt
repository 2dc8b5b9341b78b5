-- ===== src/Engineresolver/State/Complete.antt =====
-- The resolvers in the state that readstatedefault of state.go returns.
use ooni_probe_engine.Prelude.{
  String, Bool, true, ◌||◌, ◌≡◌, refl, ap, ◌∙◌, arith, Option, none, some, List, [], ◌∷◌, ◌++◌, map,
  All, All-append, All-imp, Permᴰ, str_eq, eq_refl, if◌then◌else◌, Bool-cases, ◌⊎◌, inl, inr,
}
use ooni_probe_engine.Prelude.Perms.{All-Perm, Perm-symm}
use ooni_probe_engine.Prelude.Golang.{SliceStable}
use ooni_probe_engine.Prelude.Outcome.{panicked, Returns, returns, Returns-bind}
use ooni_probe_engine.Kvstore.{KeyValueStore}
use ooni_probe_engine.Engineresolver.State.{
  Scores, ResolverInfo, StateCodec, all_makers, is_one_of, read_state, prune, not_empty, pruned,
  read_state_and_prune, missing, sort_state, or_nothing, read_state_default,
}

module _ (F : Scores) where
  abbrev pub urls : List (ResolverInfo F) → List String
  urls ri = map (λ e. e.url) ri

  abbrev pub IsSupported : ResolverInfo F → Type 0
  IsSupported e = is_one_of e.url all_makers ≡ true

  -- Every supported resolver is there, and nothing else.
  pub record IsComplete (ri : List (ResolverInfo F)) : Type 0 where
    pub covered : All (λ url. is_one_of url (urls ri) ≡ true) all_makers
    pub supported : All IsSupported ri

  is_one_of-append :
      (url : String) (a b : List (ResolverInfo F))
      → is_one_of url (urls (a ++ b)) ≡ (is_one_of url (urls a) || is_one_of url (urls b))
  unfolding is_one_of
  is_one_of-append url [] b = refl
  is_one_of-append url (e ∷ a) b = ground (arith, is_one_of-append url a b)

  swapped :
      (p q r : Bool)
      → (if p then true else if q then true else r) ≡ (if q then true else if p then true else r)
  swapped p q r = ground arith

  pub is_one_of-Perm :
      (url : String) {a b : List (ResolverInfo F)}
      → Permᴰ a b
      → is_one_of url (urls a) ≡ is_one_of url (urls b)
  unfolding is_one_of
  is_one_of-Perm url Permᴰ.nil = refl
  is_one_of-Perm url (Permᴰ.cons e p) = cc (ap (λ i. i.url) e, is_one_of-Perm url p)
  is_one_of-Perm url (Permᴰ.swap {a = a} {b = b} {l = l} e f) =
      rw (← ap (λ i. i.url) e, ← ap (λ i. i.url) f)
        (swapped (str_eq a.url url) (str_eq b.url url) (is_one_of url (urls l)))
  is_one_of-Perm url (Permᴰ.trans p q) = is_one_of-Perm url p ∙ is_one_of-Perm url q

  -- Whether a URL is here, or among those that are added.
  abbrev Covers : List String → List (ResolverInfo F) → String → Type 0
  Covers here added url = (is_one_of url here || is_one_of url (urls added)) ≡ true

  head_covered :
      (here makers : List String) (url : String) → Covers here (missing F here (url ∷ makers)) url
  unfolding missing is_one_of
  head_covered here makers url = elim (Bool-cases (is_one_of url here)) [
    | inl old ↦ rw old refl
    | inr new ↦ rw (new, eq_refl) refl
  ]

  still_covered :
      (here makers : List String) (url u : String)
      → Covers here (missing F here makers) u
      → Covers here (missing F here (url ∷ makers)) u
  unfolding missing is_one_of
  still_covered here makers url u h = elim (Bool-cases (is_one_of url here)) [
    | inl old ↦ rw old h
    | inr new ↦ rw new (ground arith)
  ]

  missing-Covers : (here makers : List String) → All (Covers here (missing F here makers)) makers
  missing-Covers here [] = tt
  missing-Covers here (url ∷ makers) = (
    head_covered here makers url,
    All-imp (Covers here (missing F here makers)) (Covers here (missing F here (url ∷ makers)))
        makers (λ u h. still_covered here makers url u h) (missing-Covers here makers),
  )

  missing-IsSupported :
      (here makers : List String)
      → All (λ url. is_one_of url all_makers ≡ true) makers
      → All IsSupported (missing F here makers)
  unfolding missing
  missing-IsSupported here [] h = tt
  missing-IsSupported here (url ∷ makers) h = elim (Bool-cases (is_one_of url here)) [
    | inl old ↦ rw old (missing-IsSupported here makers h.1)
    | inr new ↦ rw new (h.0, missing-IsSupported here makers h.1)
  ]

  all_makers_supported : All (λ url. is_one_of url all_makers ≡ true) all_makers
  unfolding is_one_of
  all_makers_supported = (refl, (refl, (refl, (refl, (refl, (refl, (refl, (refl, (refl, tt)))))))))

-- An entry of the decoded state that is not null; a list with a null entry.
abbrev pub HasEntry {ℓ} : {A : Type ℓ} → Option A → Type 0
HasEntry none = ⊥
HasEntry (some e) = Unit

abbrev pub HasNull {ℓ} : {A : Type ℓ} → List (Option A) → Type 0
HasNull [] = ⊥
HasNull (none ∷ l) = Unit
HasNull (some e ∷ l) = HasNull l

module _ {Bytes : Type 0} (F : Scores) (S : SliceStable (ResolverInfo F)) (J : StateCodec F Bytes)
    (K : KeyValueStore Bytes) where
  abbrev pub NoNull : String ⊎ List (Option (ResolverInfo F)) → Type 0
  NoNull (inl err) = Unit
  NoNull (inr ri) = All HasEntry ri

  abbrev SupportedOrError : String ⊎ List (ResolverInfo F) → Type 0
  SupportedOrError (inl err) = Unit
  SupportedOrError (inr ri) = All (IsSupported F) ri

  prune-Returns :
      (ri : List (Option (ResolverInfo F)))
      → All HasEntry ri
      → Returns (All (IsSupported F)) (prune F S J K ri)
  unfolding prune
  prune-Returns [] h = returns [] tt
  prune-Returns (none ∷ ri) h = absurd h.0
  prune-Returns (some e ∷ ri) h =
      Returns-bind (All (IsSupported F)) (All (IsSupported F)) _ (prune-Returns ri h.1) λ out ok.
        elim (Bool-cases (is_one_of e.url all_makers)) [
          | inl known ↦ rw known (returns (e ∷ out) (known, ok))
          | inr other ↦ rw other (returns out ok)
        ]

  not_empty-Supported :
      (out : List (ResolverInfo F))
      → All (IsSupported F) out
      → SupportedOrError (not_empty F S J K out)
  unfolding not_empty
  not_empty-Supported [] h = tt
  not_empty-Supported (e ∷ out) h = h

  pruned-Returns :
      (found : String ⊎ List (Option (ResolverInfo F)))
      → NoNull found
      → Returns SupportedOrError (pruned F S J K found)
  unfolding pruned
  pruned-Returns (inl err) h = returns (inl err) tt
  pruned-Returns (inr ri) h =
      Returns-bind (All (IsSupported F)) SupportedOrError _ (prune-Returns ri h)
        (λ out ok. returns _ (not_empty-Supported out ok))

  or_nothing-Supported :
      (found : String ⊎ List (ResolverInfo F))
      → SupportedOrError found
      → All (IsSupported F) (or_nothing F S J K found)
  unfolding or_nothing
  or_nothing-Supported (inl err) h = tt
  or_nothing-Supported (inr ri) h = h

  completed-IsComplete :
      (ri : List (ResolverInfo F))
      → All (IsSupported F) ri
      → IsComplete F (sort_state F S J K (ri ++ missing F (urls F ri) all_makers))
  unfolding sort_state
  completed-IsComplete ri h =
      let full : List (ResolverInfo F) = ri ++ missing F (urls F ri) all_makers in
      let sorted = S.sort_perm (λ a b. F.geb a.score b.score) full in
      record {
        covered =
            All-imp (Covers F (urls F ri) (missing F (urls F ri) all_makers))
              (λ url. is_one_of url (urls F (sort_state F S J K full)) ≡ true) all_makers
              (λ url here.
                is_one_of-Perm F url sorted
                ∙ (is_one_of-append F url ri (missing F (urls F ri) all_makers) ∙ here))
              (missing-Covers F (urls F ri) all_makers);
        supported = All-Perm (IsSupported F) (Perm-symm sorted) (
            All-append (IsSupported F) ri _ h
              (missing-IsSupported F (urls F ri) all_makers (all_makers_supported F)));
      }

  -- Whatever the store holds, be it nothing, something that is not decoded, or any entries none of
  -- which is null, the state that is read returns, with every supported resolver in it and no other.
  pub read_state_default-IsComplete :
      (kv_store : Option K.Store)
      → NoNull (read_state F S J K kv_store)
      → Returns (IsComplete F) (read_state_default F S J K kv_store)
  unfolding read_state_default read_state_and_prune
  read_state_default-IsComplete kv_store h =
      Returns-bind SupportedOrError (IsComplete F) _
        (pruned-Returns (read_state F S J K kv_store) h)
        (λ found ok.
          returns _
            (completed-IsComplete (or_nothing F S J K found) (or_nothing-Supported found ok)))

  prune_null : (ri : List (Option (ResolverInfo F))) → HasNull ri → prune F S J K ri ≡ panicked
  unfolding prune
  prune_null [] h = absurd h
  prune_null (none ∷ ri) h = refl
  prune_null (some e ∷ ri) h = rw (prune_null ri h) refl

  -- A null among the stored entries makes the reading of the state panic.
  pub read_state_default_null :
      (kv_store : Option K.Store) (ri : List (Option (ResolverInfo F)))
      → read_state F S J K kv_store ≡ inr ri
      → HasNull ri
      → read_state_default F S J K kv_store ≡ panicked
  unfolding read_state_default read_state_and_prune pruned
  read_state_default_null kv_store ri stored null = rw (stored, prune_null ri null) refl
