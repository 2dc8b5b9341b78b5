-- ===== src/Engineresolver/Lookup/Exhausted.antt =====
-- The loop over the resolvers, and the lookup as a whole.
use mathlib.Core.List.{append-nil}
use ooni_probe_engine.Prelude.{
  ℕ, ◌+◌, String, Bool, true, false, ◌≡◌, refl, sym, ◌∙◌, Option, List, [], ◌∷◌, ◌++◌, map, All,
  All-imp, ◌⊎◌, inl, inr,
}
use ooni_probe_engine.Prelude.Dict.{Dict}
use ooni_probe_engine.Prelude.Golang.{SliceStable}
use ooni_probe_engine.Prelude.Outcome.{Returns, returns, Returns-bind}
use ooni_probe_engine.Kvstore.{KeyValueStore}
use ooni_probe_engine.Engineresolver.State.{
  Scores, ResolverInfo, StateCodec, all_makers, is_one_of, read_state,
}
use ooni_probe_engine.Engineresolver.State.Complete.{
  urls, IsComplete, is_one_of-Perm, NoNull, read_state_default-IsComplete,
}
use ooni_probe_engine.Engineresolver.Lookup.{
  maybe_confusion, Environment, LookupResult, found, failed, LookedUp, LoopEnd, Attempt, skipped,
  canceled, tried, attempt, after_lookup, after, lookup_loop, lookup_host,
}
use ooni_probe_engine.Engineresolver.Lookup.Frame.{
  maybe_confusion-perm, skips, Answered, SoundAttempt, attempt-Sound, TouchedAll-refl, tried_urls,
  Tells, Ended, error_urls, Tells-skipped, Tells-tried,
}

module _ {Child : Type 0} (w : Environment Child) (proxied : Bool) (F : Scores)
    (hostname : String) where
  -- The rest of the loop, from any cache and errors, is as it should be.
  abbrev Continues :
      List (ResolverInfo F) → (Dict Child → List (String × String) → LoopEnd w proxied F) → Type 0
  Continues state continue =
      (res : Dict Child) (me : List (String × String))
      → Ended w proxied F hostname (error_urls w proxied F hostname me) state (continue res me)

  module _ (e : ResolverInfo F) (me : List (String × String)) (state : List (ResolverInfo F))
      (continue : Dict Child → List (String × String) → LoopEnd w proxied F) where
    after_lookup-Ended :
        (t : LookedUp w proxied F) (o : String ⊎ List String)
        → skips w proxied F hostname e ≡ false
        → t.entry.url ≡ e.url
        → Answered w proxied F hostname o
        → Continues state continue
        → Ended w proxied F hostname
            (error_urls w proxied F hostname me)
            (e ∷ state)
            (after_lookup w proxied F e t me state continue o)
    unfolding after_lookup
    after_lookup-Ended t (inr addrs) go same answer k = record {
      touched = (inr (same, go), TouchedAll-refl w proxied F hostname state);
      tells = answer;
    }
    after_lookup-Ended t (inl err) go same answer k =
        let rest = k t.res (me ++ ((err, e.url) ∷ [])) in
        record {
          touched = (inr (same, go), rest.touched);
          tells = Tells-tried w proxied F hostname me e state err _ go rest.tells;
        }

    after-Ended :
        (res : Dict Child) (a : Attempt w proxied F)
        → SoundAttempt w proxied F hostname e a
        → Continues state continue
        → Ended w proxied F hostname
            (error_urls w proxied F hostname me)
            (e ∷ state)
            (after w proxied F e res me state continue a)
    unfolding after
    after-Ended res skipped skip k =
        let rest = k res me in
        record {
          touched = (inl refl, rest.touched);
          tells = Tells-skipped w proxied F hostname _ e state _ skip rest.tells;
        }
    after-Ended res (canceled err) go k =
        let rest = k res (me ++ ((err, e.url) ∷ [])) in
        record {
          touched = (inl refl, rest.touched);
          tells = Tells-tried w proxied F hostname me e state err _ go rest.tells;
        }
    after-Ended res (tried t) sound k = after_lookup-Ended t t.answer sound.0 sound.1.0 sound.1.1 k

  -- The loop changes the score of no entry that a proxy excludes, keeps every entry at its place with
  -- its URL, and ends with addresses that a child resolver answered to this lookup or with one error
  -- for each entry that the proxy does not exclude, in the order of the state, after the errors so far.
  pub lookup_loop-Ended :
      (n : ℕ) (res : Dict Child) (me : List (String × String)) (state : List (ResolverInfo F))
      → Ended w proxied F hostname
          (error_urls w proxied F hostname me)
          state
          (lookup_loop w proxied F n hostname res me state)
  unfolding lookup_loop
  lookup_loop-Ended n res me [] = record { touched = tt; tells = sym (append-nil _) }
  lookup_loop-Ended n res me (e ∷ state) =
      after-Ended e me state _ res (attempt w proxied F n hostname res e)
        (attempt-Sound w proxied F hostname n res e)
        (λ res' me'. lookup_loop-Ended (n + 1) res' me' state)

module _ {Child : Type 0} (w : Environment Child) (F : Scores) (hostname : String) where
  -- Addresses that were answered, or an error for every supported resolver.
  abbrev pub Exhaustive : LookupResult → Type 0
  Exhaustive (found addrs) = Answered w false F hostname (inr addrs)
  Exhaustive (failed errs) = All (λ url. is_one_of url (map (λ p. p.1) errs) ≡ true) all_makers

  all_tried : (state : List (ResolverInfo F)) → tried_urls w false F hostname state ≡ urls F state
  all_tried [] = refl
  all_tried (e ∷ state) = cc (all_tried state)

  Tells-Exhaustive :
      (state : List (ResolverInfo F)) (r : LookupResult)
      → All (λ url. is_one_of url (urls F state) ≡ true) all_makers
      → Tells w false F hostname [] state r
      → Exhaustive r
  Tells-Exhaustive state (found addrs) covered h = h
  Tells-Exhaustive state (failed errs) covered h =
      let same : map (λ p. p.1) errs ≡ urls F state = h ∙ all_tried state in rw same covered

  module _ {Bytes : Type 0} (S : SliceStable (ResolverInfo F)) (J : StateCodec F Bytes)
      (K : KeyValueStore Bytes) where
    confused-covered :
        (lucky : Bool) (state : List (ResolverInfo F))
        → IsComplete F state
        → All (λ url. is_one_of url (urls F (maybe_confusion lucky state).0) ≡ true) all_makers
    confused-covered lucky state h =
        All-imp (λ url. is_one_of url (urls F state) ≡ true)
          (λ url. is_one_of url (urls F (maybe_confusion lucky state).0) ≡ true) all_makers
          (λ url here. is_one_of-Perm F url (maybe_confusion-perm lucky state) ∙ here) h.covered

    -- Without a proxy, and with no null entry in the stored state, LookupHost returns: with addresses
    -- that a child resolver answered to this lookup, or with an error of every supported resolver,
    -- whatever state was stored, whether or not the first entries are swapped, and even where the
    -- context is done.
    pub lookup_host-Exhaustive :
        (lucky : Bool) (res : Dict Child) (kv_store : Option K.Store)
        → NoNull F S J K (read_state F S J K kv_store)
        → Returns (λ p. Exhaustive p.0) (lookup_host w false F S J K lucky hostname res kv_store)
    unfolding lookup_host
    lookup_host-Exhaustive lucky res kv_store h =
        Returns-bind (IsComplete F) (λ p. Exhaustive p.0) _
          (read_state_default-IsComplete F S J K kv_store h)
          (λ state complete.
            let confused = (maybe_confusion lucky state).0 in
            let end = lookup_loop w false F 0 hostname res [] confused in
            returns _ (
              Tells-Exhaustive confused end.result (confused-covered lucky state complete)
                (lookup_loop-Ended w false F hostname 0 res [] confused).tells))
