-- ===== src/Engineresolver/Lookup.antt =====
-- resolver.go: the lookup with the resolvers in the order of the state, and the cache of the child
-- resolvers of resolvermaker.go.
pub mod Frame
pub mod Cancel
pub mod Exhausted
use ooni_probe_engine.Prelude.{
  ℕ, zero, suc, ◌+◌, String, Bool, true, false, ◌&&◌, not, Option, none, some, List, [], ◌∷◌, ◌++◌,
  map, str_eq, if◌then◌else◌, ◌⊎◌, inl, inr,
}
use ooni_probe_engine.Prelude.Int.{ℤ, pos, negsuc}
use ooni_probe_engine.Prelude.Dict.{Dict, lookup, insert}
use ooni_probe_engine.Prelude.Golang.{SliceStable}
use ooni_probe_engine.Prelude.Outcome.{Outcome, returned, ◌>>=◌}
use ooni_probe_engine.Kvstore.{KeyValueStore}
use ooni_probe_engine.Engineresolver.State.{
  Scores, ResolverInfo, StateCodec, read_state_default, write_state,
}

-- maybeConfusion: the new order, and what it returns. `lucky` says that the random number is below
-- the threshold.
unfoldable pub maybe_confusion {ℓ} : {A : Type ℓ} → Bool → List A → List A × ℤ
maybe_confusion false state = (state, negsuc 0)
maybe_confusion true [] = ([], pos 0)
maybe_confusion true (a ∷ []) = (a ∷ [], pos 0)
maybe_confusion true (a ∷ b ∷ []) = (b ∷ a ∷ [], pos 2)
maybe_confusion true (a ∷ b ∷ c ∷ state) = (c ∷ b ∷ a ∷ state, pos 3)

-- What the lookup takes from elsewhere: the child resolvers that can be made (by whether HTTP/3 is
-- used and the URL), what they answer in the n-th lookup, whether the context is done before the
-- n-th resolver, the scheme of a URL (none if it is not parsed), and strings.HasPrefix and
-- strings.Replace for the prefix of HTTP/3.
pub record Environment (Child : Type 0) : Type 0 where
  pub make : Bool → String → String ⊎ Child
  pub answer : ℕ → Child → String → String ⊎ List String
  pub ctx_err : ℕ → Option String
  pub url_scheme : String → Option String
  pub has_http3_prefix : String → Bool
  pub with_https_prefix : String → String

-- An address list, or the errors, each with the URL of its resolver.
pub data LookupResult : Type 0 where
  found : List String → LookupResult
  failed : List (String × String) → LookupResult

module _ {Child : Type 0} (w : Environment Child) (proxied : Bool) where
  can_proxy : Option String → Bool
  can_proxy none = false
  can_proxy (some scheme) =
      if str_eq scheme "https"
      then true
      else if str_eq scheme "dot"
      then true
      else str_eq scheme "tcp"

  unfoldable pub should_skip_with_proxy : String → Bool
  unfolding can_proxy
  should_skip_with_proxy url = not (can_proxy (w.url_scheme url))

  unfoldable pub new_resolver : String → String ⊎ Child
  new_resolver url =
      if w.has_http3_prefix url then w.make true (w.with_https_prefix url) else w.make false url

  cached : Dict Child → String → String ⊎ Child → (String ⊎ Child) × Dict Child
  cached res url (inl err) = (inl err, res)
  cached res url (inr re) = (inr re, insert url re res)

  or_made : Dict Child → String → Option Child → (String ⊎ Child) × Dict Child
  or_made res url (some re) = (inr re, res)
  or_made res url none = cached res url (new_resolver url)

  -- getresolver, with the map of the resolvers, which is empty where it is nil.
  unfoldable pub get_resolver : Dict Child → String → (String ⊎ Child) × Dict Child
  unfolding or_made cached
  get_resolver res url = or_made res url (lookup url res)

  module _ (F : Scores) where
    -- The outcome of lookupHost: the answer, the entry with its new score, and the cache.
    pub record LookedUp : Type 0 where
      pub answer : String ⊎ List String
      pub entry : ResolverInfo F
      pub res : Dict Child

    scored : ResolverInfo F → Dict Child → String ⊎ List String → LookedUp
    scored ri res (inr addrs) = record {
      answer = inr addrs;
      entry = record ri {
        score = F.add (F.mul F.ewma F.one_score) (F.mul F.one_less_ewma ri.score);
      };
      res = res;
    }
    scored ri res (inl err) = record {
      answer = inl err;
      entry = record ri {
        score = F.add (F.mul F.ewma F.zero_score) (F.mul F.one_less_ewma ri.score);
      };
      res = res;
    }

    asked : ℕ → String → ResolverInfo F → (String ⊎ Child) × Dict Child → LookedUp
    asked n hostname ri (inl err, res) = record {
      answer = inl err;
      entry = record ri { score = F.zero_score };
      res = res;
    }
    asked n hostname ri (inr re, res) = scored ri res (w.answer n re hostname)

    unfoldable pub lookup_host_using : ℕ → String → Dict Child → ResolverInfo F → LookedUp
    unfolding asked scored
    lookup_host_using n hostname res ri = asked n hostname ri (get_resolver res ri.url)

    -- Where the loop ends: the state with the new scores, the cache and the result.
    pub record LoopEnd : Type 0 where
      pub state : List (ResolverInfo F)
      pub res : Dict Child
      pub result : LookupResult

    abbrev before : ResolverInfo F → LoopEnd → LoopEnd
    before e rest = record rest { state = e ∷ rest.state }

    -- What the body of the loop does with an entry: it skips the entry, it finds that the context is
    -- done, or it makes a lookup.
    pub data Attempt : Type 0 where
      skipped : Attempt
      canceled : String → Attempt
      tried : LookedUp → Attempt

    entered : ℕ → String → Dict Child → ResolverInfo F → Option String → Attempt
    entered n hostname res e (some err) = canceled err
    entered n hostname res e none = tried (lookup_host_using n hostname res e)

    unfoldable pub attempt : ℕ → String → Dict Child → ResolverInfo F → Attempt
    unfolding entered
    attempt n hostname res e =
        if proxied && should_skip_with_proxy e.url
        then skipped
        else entered n hostname res e (w.ctx_err n)

    -- How the loop goes on with the entries that are left, given the rest of the loop.
    after_lookup :
        ResolverInfo F
        → LookedUp
        → List (String × String)
        → List (ResolverInfo F)
        → (Dict Child → List (String × String) → LoopEnd)
        → String ⊎ List String
        → LoopEnd
    after_lookup e t me state continue (inr addrs) = record {
      state = t.entry ∷ state;
      res = t.res;
      result = found addrs;
    }
    after_lookup e t me state continue (inl err) =
        before t.entry (continue t.res (me ++ ((err, e.url) ∷ [])))

    unfoldable pub after :
        ResolverInfo F
        → Dict Child
        → List (String × String)
        → List (ResolverInfo F)
        → (Dict Child → List (String × String) → LoopEnd)
        → Attempt
        → LoopEnd
    unfolding after_lookup
    after e res me state continue skipped = before e (continue res me)
    after e res me state continue (canceled err) =
        before e (continue res (me ++ ((err, e.url) ∷ [])))
    after e res me state continue (tried t) = after_lookup e t me state continue t.answer

    -- The loop of LookupHost at its n-th entry; `me` are the errors so far.
    unfoldable pub lookup_loop :
        ℕ → String → Dict Child → List (String × String) → List (ResolverInfo F) → LoopEnd
    lookup_loop n hostname res me [] = record { state = []; res = res; result = failed me }
    lookup_loop n hostname res me (e ∷ state) =
        after e res me state (λ res' me'. lookup_loop (n + 1) hostname res' me' state)
          (attempt n hostname res e)

    module _ {Bytes : Type 0} (S : SliceStable (ResolverInfo F)) (J : StateCodec F Bytes)
        (K : KeyValueStore Bytes) where
      -- LookupHost: the result, the cache and the store after it.
      unfoldable pub lookup_host :
          Bool
          → String
          → Dict Child
          → Option K.Store
          → Outcome (LookupResult × (Dict Child × Option K.Store))
      lookup_host lucky hostname res kv_store = do
        state ← read_state_default F S J K kv_store
        let (confused, swapped) = maybe_confusion lucky state
        let end = lookup_loop 0 hostname res [] confused
        returned (end.result, (end.res, (write_state F S J K kv_store end.state).0))
