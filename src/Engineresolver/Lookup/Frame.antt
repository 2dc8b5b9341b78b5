-- ===== src/Engineresolver/Lookup/Frame.antt =====
-- What a lookup does to the state, and what its result says.
use mathlib.Core.List.{append_assoc}
use ooni_probe_engine.Prelude.{
  ℕ, String, Bool, true, false, ◌&&◌, not, ◌≡◌, refl, ap, ◌∙◌, Option, none, some, List, [], ◌∷◌,
  ◌++◌, map, keep, Permᴰ, Bool-cases, ◌⊎◌, inl, inr,
}
use ooni_probe_engine.Prelude.Dict.{Dict}
use ooni_probe_engine.Prelude.Perms.{Perm-refl}
use ooni_probe_engine.Engineresolver.State.{Scores, ResolverInfo}
use ooni_probe_engine.Engineresolver.State.Complete.{urls}
use ooni_probe_engine.Engineresolver.Lookup.{
  maybe_confusion, Environment, LookupResult, found, failed, should_skip_with_proxy, get_resolver,
  LookedUp, scored, asked, lookup_host_using, LoopEnd, Attempt, skipped, canceled, tried, entered,
  attempt,
}

-- The list is the same, or its ends or its first and third items are swapped.
pub maybe_confusion-perm {ℓ} :
    {A : Type ℓ} (lucky : Bool) (state : List A) → Permᴰ (maybe_confusion lucky state).0 state
unfolding maybe_confusion
maybe_confusion-perm false state = Perm-refl state
maybe_confusion-perm true [] = Permᴰ.nil
maybe_confusion-perm true (a ∷ []) = Perm-refl (a ∷ [])
maybe_confusion-perm true (a ∷ b ∷ []) = Permᴰ.swap refl refl
maybe_confusion-perm true (a ∷ b ∷ c ∷ state) =
    Permᴰ.trans (Permᴰ.cons refl (Permᴰ.swap refl refl))
      (Permᴰ.trans (Permᴰ.swap refl refl) (Permᴰ.cons refl (Permᴰ.swap refl refl)))

module _ {Child : Type 0} (w : Environment Child) (proxied : Bool) (F : Scores)
    (hostname : String) where
  -- Whether an entry is skipped because of the proxy.
  abbrev pub skips : ResolverInfo F → Bool
  skips e = proxied && should_skip_with_proxy w proxied e.url

  -- An address list is what a child resolver answered to this lookup.
  abbrev pub Answered : String ⊎ List String → Type 0
  Answered (inl err) = Unit
  Answered (inr addrs) = (n : ℕ) × (re : Child) × (w.answer n re hostname ≡ inr addrs)

  abbrev pub SoundLookup : ResolverInfo F → LookedUp w proxied F → Type 0
  SoundLookup e t = (t.entry.url ≡ e.url) × Answered t.answer

  abbrev pub SoundAttempt : ResolverInfo F → Attempt w proxied F → Type 0
  SoundAttempt e skipped = skips e ≡ true
  SoundAttempt e (canceled err) = skips e ≡ false
  SoundAttempt e (tried t) = (skips e ≡ false) × SoundLookup e t

  scored-Sound :
      (e : ResolverInfo F) (res : Dict Child) (n : ℕ) (re : Child) (o : String ⊎ List String)
      → w.answer n re hostname ≡ o
      → SoundLookup e (scored w proxied F e res o)
  unfolding scored
  scored-Sound e res n re (inl err) h = (refl, tt)
  scored-Sound e res n re (inr addrs) h = (refl, (n, re, h))

  asked-Sound :
      (n : ℕ) (e : ResolverInfo F) (p : (String ⊎ Child) × Dict Child)
      → SoundLookup e (asked w proxied F n hostname e p)
  unfolding asked
  asked-Sound n e (inl err, res) = (refl, tt)
  asked-Sound n e (inr re, res) = scored-Sound e res n re (w.answer n re hostname) refl

  entered-Sound :
      (n : ℕ) (res : Dict Child) (e : ResolverInfo F) (o : Option String)
      → skips e ≡ false
      → SoundAttempt e (entered w proxied F n hostname res e o)
  unfolding entered lookup_host_using
  entered-Sound n res e (some err) h = h
  entered-Sound n res e none h = (h, asked-Sound n e (get_resolver w proxied res e.url))

  pub attempt-Sound :
      (n : ℕ) (res : Dict Child) (e : ResolverInfo F)
      → SoundAttempt e (attempt w proxied F n hostname res e)
  unfolding attempt
  attempt-Sound n res e = elim (Bool-cases (skips e)) [
    | inl skip ↦ rw skip skip
    | inr go ↦ rw go (entered-Sound n res e (w.ctx_err n) go)
  ]

  -- The entry is as it was, or has another score and was not skipped.
  abbrev pub Touched : ResolverInfo F → ResolverInfo F → Type 0
  Touched e e' = (e' ≡ e) ⊎ ((e'.url ≡ e.url) × (skips e ≡ false))

  abbrev pub TouchedAll : List (ResolverInfo F) → List (ResolverInfo F) → Type 0
  TouchedAll [] [] = Unit
  TouchedAll [] (e' ∷ state') = ⊥
  TouchedAll (e ∷ state) [] = ⊥
  TouchedAll (e ∷ state) (e' ∷ state') = Touched e e' × TouchedAll state state'

  pub TouchedAll-refl : (state : List (ResolverInfo F)) → TouchedAll state state
  TouchedAll-refl [] = tt
  TouchedAll-refl (e ∷ state) = (inl refl, TouchedAll-refl state)

  -- The resolvers that report an error if the lookup fails.
  abbrev pub tried_urls : List (ResolverInfo F) → List String
  tried_urls state = urls F (keep (λ e. not (skips e)) state)

  -- What the result says, where `us` are the URLs of the errors so far.
  abbrev pub Tells : List String → List (ResolverInfo F) → LookupResult → Type 0
  Tells us state (found addrs) = Answered (inr addrs)
  Tells us state (failed errs) = map (λ p. p.1) errs ≡ us ++ tried_urls state

  -- What holds where the loop ends.
  pub record Ended (us : List String) (state : List (ResolverInfo F)) (end : LoopEnd w proxied F)
      : Type 0 where
    pub touched : TouchedAll state end.state
    pub tells : Tells us state end.result

  abbrev pub error_urls : List (String × String) → List String
  error_urls me = map (λ p. p.1) me

  error_urls-append :
      (me : List (String × String)) (err url : String)
      → error_urls (me ++ ((err, url) ∷ [])) ≡ error_urls me ++ (url ∷ [])
  error_urls-append [] err url = refl
  error_urls-append (p ∷ me) err url = cc (error_urls-append me err url)

  pub Tells-skipped :
      (us : List String) (e : ResolverInfo F) (state : List (ResolverInfo F)) (r : LookupResult)
      → skips e ≡ true
      → Tells us state r
      → Tells us (e ∷ state) r
  Tells-skipped us e state (found addrs) skip h = h
  Tells-skipped us e state (failed errs) skip h = rw skip h

  pub Tells-tried :
      (me : List (String × String)) (e : ResolverInfo F) (state : List (ResolverInfo F))
      (err : String) (r : LookupResult)
      → skips e ≡ false
      → Tells (error_urls (me ++ ((err, e.url) ∷ []))) state r
      → Tells (error_urls me) (e ∷ state) r
  Tells-tried me e state err (found addrs) go h = h
  Tells-tried me e state err (failed errs) go h = rw go (
      h
      ∙ (ap (λ (us : List String). us ++ tried_urls state) (error_urls-append me err e.url)
          ∙ append_assoc (error_urls me) (e.url ∷ []) (tried_urls state)))
