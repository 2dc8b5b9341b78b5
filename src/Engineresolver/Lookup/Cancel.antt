-- ===== src/Engineresolver/Lookup/Cancel.antt =====
-- A lookup whose context is done, and the cache of the child resolvers.
use mathlib.Core.List.{◌++◌}
use ooni_probe_engine.Prelude.{
  ℕ, ◌+◌, String, Bool, true, ◌&&◌, ◌≡◌, refl, ap, Option, none, some, List, [], ◌∷◌, is_set,
  eq_refl, Bool-cases, ◌⊎◌, inl, inr,
}
use ooni_probe_engine.Prelude.Dict.{Dict, lookup, insert, lookup-insert}
use ooni_probe_engine.Engineresolver.State.{Scores, ResolverInfo}
use ooni_probe_engine.Engineresolver.Lookup.{
  Environment, should_skip_with_proxy, new_resolver, cached, or_made, get_resolver, LoopEnd,
  Attempt, skipped, canceled, tried, entered, attempt, after, lookup_loop,
}

module _ {Child : Type 0} (w : Environment Child) (proxied : Bool) where
  made-again :
      (res res' : Dict Child) (url : String) (re : Child) (o : String ⊎ Child)
      → cached w proxied res url o ≡ (inr re, res')
      → lookup url res' ≡ some re
  unfolding cached
  made-again res res' url re (inl err) h = cc
  made-again res res' url re (inr re') h =
      let stored : lookup url (insert url re' res) ≡ some re' = rw (lookup-insert, eq_refl) refl in
      cc

  found-again :
      (res res' : Dict Child) (url : String) (re : Child) (o : Option Child)
      → lookup url res ≡ o
      → or_made w proxied res url o ≡ (inr re, res')
      → lookup url res' ≡ some re
  unfolding or_made
  found-again res res' url re (some re') e h = cc
  found-again res res' url re none e h = made-again res res' url re (new_resolver w proxied url) h

  -- A child resolver is made once: after it was returned for a URL, the same child is returned for
  -- that URL, and the cache stays as it is.
  pub get_resolver_again :
      (res res' : Dict Child) (url : String) (re : Child)
      → get_resolver w proxied res url ≡ (inr re, res')
      → get_resolver w proxied res' url ≡ (inr re, res')
  unfolding get_resolver or_made
  get_resolver_again res res' url re h =
      rw (found-again res res' url re (lookup url res) refl h) refl

module _ {Child : Type 0} (w : Environment Child) (proxied : Bool) (F : Scores)
    (hostname : String) where
  abbrev NotTried : Attempt w proxied F → Type 0
  NotTried (tried t) = ⊥
  NotTried a = Unit

  entered-NotTried :
      (n : ℕ) (res : Dict Child) (e : ResolverInfo F) (o : Option String)
      → is_set o ≡ true
      → NotTried (entered w proxied F n hostname res e o)
  unfolding entered
  entered-NotTried n res e (some err) h = tt
  entered-NotTried n res e none h = cc

  attempt-NotTried :
      (n : ℕ) (res : Dict Child) (e : ResolverInfo F)
      → is_set (w.ctx_err n) ≡ true
      → NotTried (attempt w proxied F n hostname res e)
  unfolding attempt
  attempt-NotTried n res e h =
      elim (Bool-cases (proxied && should_skip_with_proxy w proxied e.url)) [
        | inl skip ↦ rw skip tt
        | inr go ↦ rw go (entered-NotTried n res e (w.ctx_err n) h)
      ]

  abbrev Unchanged : List (ResolverInfo F) → Dict Child → LoopEnd w proxied F → Type 0
  Unchanged state res end = (end.state ≡ state) × (end.res ≡ res)

  after-Unchanged :
      (e : ResolverInfo F) (res : Dict Child) (me : List (String × String))
      (state : List (ResolverInfo F))
      (continue : Dict Child → List (String × String) → LoopEnd w proxied F)
      (a : Attempt w proxied F)
      → NotTried a
      → ((me' : List (String × String)) → Unchanged state res (continue res me'))
      → Unchanged (e ∷ state) res (after w proxied F e res me state continue a)
  unfolding after
  after-Unchanged e res me state continue skipped h k =
      (ap (λ (l : List (ResolverInfo F)). e ∷ l) (k me).0, (k me).1)
  after-Unchanged e res me state continue (canceled err) h k =
      let rest = k (me ++ ((err, e.url) ∷ [])) in
      (ap (λ (l : List (ResolverInfo F)). e ∷ l) rest.0, rest.1)
  after-Unchanged e res me state continue (tried t) h k = absurd h

  -- Where the context is done before every resolver, the loop leaves all the scores and the cache as
  -- they were.
  pub lookup_loop_canceled :
      (n : ℕ) (res : Dict Child) (me : List (String × String)) (state : List (ResolverInfo F))
      → ((m : ℕ) → is_set (w.ctx_err m) ≡ true)
      → ((lookup_loop w proxied F n hostname res me state).state ≡ state)
        × ((lookup_loop w proxied F n hostname res me state).res ≡ res)
  unfolding lookup_loop
  lookup_loop_canceled n res me [] h = (refl, refl)
  lookup_loop_canceled n res me (e ∷ state) h =
      after-Unchanged e res me state _ (attempt w proxied F n hostname res e)
        (attempt-NotTried n res e (h n)) (λ me'. lookup_loop_canceled (n + 1) res me' state h)
