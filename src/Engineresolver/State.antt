-- ===== src/Engineresolver/State.antt =====
-- The state of the session resolver: state.go, and the makers of resolvermaker.go.
pub mod Complete
use ooni_probe_engine.Prelude.{
  ℕ, String, Bool, true, false, not, Option, none, some, List, [], ◌∷◌, ◌++◌, map, is_set, str_eq,
  if◌then◌else◌, ◌⊎◌, inl, inr,
}
use ooni_probe_engine.Prelude.Dict.{Dict, lookup, insert}
use ooni_probe_engine.Prelude.Golang.{SliceStable}
use ooni_probe_engine.Prelude.Outcome.{Outcome, returned, panicked, ◌>>=◌}
use ooni_probe_engine.Kvstore.{KeyValueStore}

-- float64, as the scores use it: the weight of the last sample, one less that weight, and the initial
-- scores, which are random but for the system resolver's.
pub record Scores : Type 1 where
  pub Score : Type 0
  pub zero_score : Score
  pub one_score : Score
  pub ewma : Score
  pub one_less_ewma : Score
  pub add : Score → Score → Score
  pub mul : Score → Score → Score
  pub geb : Score → Score → Bool
  pub initial : String → Score

module _ (F : Scores) where
  pub record ResolverInfo : Type 0 where
    pub url : String
    pub score : F.Score

  -- The JSON codec of the state, whose entries may be null.
  pub record StateCodec (Bytes : Type 0) : Type 0 where
    pub encode : List ResolverInfo → Option Bytes
    pub decode : Bytes → Option (List (Option ResolverInfo))

abbrev pub system_resolver_url : String
system_resolver_url = "system:///"

-- allmakers
abbrev pub all_makers : List String
all_makers =
    "https://cloudflare-dns.com/dns-query" ∷ "http3://cloudflare-dns.com/dns-query"
    ∷ "https://dns.google/dns-query" ∷ "http3://dns.google/dns-query"
    ∷ "https://dns.quad9.net/dns-query" ∷ system_resolver_url
    ∷ "https://mozilla.cloudflare-dns.com/dns-query"
    ∷ "http3://mozilla.cloudflare-dns.com/dns-query" ∷ "https://wikimedia-dns.org/dns-query" ∷ []

-- A look into allbyurl, or into the map of the URLs that are here.
unfoldable pub is_one_of : String → List String → Bool
is_one_of url [] = false
is_one_of url (known ∷ urls) = if str_eq known url then true else is_one_of url urls

abbrev pub store_key : String
store_key = "sessionresolver.state"

abbrev pub err_no_entries : String
err_no_entries = "sessionresolver: no available entries"

abbrev pub err_nil_kv_store : String
err_nil_kv_store = "sessionresolver: kvstore is nil"

module _ (F : Scores) where
  -- The makers that are not here yet, with their initial scores.
  unfoldable pub missing : List String → List String → List (ResolverInfo F)
  missing here [] = []
  missing here (url ∷ makers) =
      let rest = missing here makers in
      let added : List (ResolverInfo F) = record { url = url; score = F.initial url } ∷ rest in
      if is_one_of url here then rest else added

module _ {Bytes : Type 0} (F : Scores) (S : SliceStable (ResolverInfo F)) (J : StateCodec F Bytes)
    (K : KeyValueStore Bytes) where
  decoded : Option (List (Option (ResolverInfo F))) → String ⊎ List (Option (ResolverInfo F))
  decoded none = inl "cannot decode"
  decoded (some ri) = inr ri

  read_data : Option Bytes → String ⊎ List (Option (ResolverInfo F))
  read_data none = inl "cannot read"
  read_data (some bytes) = decoded (J.decode bytes)

  unfoldable pub read_state : Option K.Store → String ⊎ List (Option (ResolverInfo F))
  unfolding read_data decoded
  read_state none = inl err_nil_kv_store
  read_state (some kv_store) = read_data (K.get kv_store store_key)

  -- The loop of readstateandprune, which dereferences every entry.
  unfoldable pub prune : List (Option (ResolverInfo F)) → Outcome (List (ResolverInfo F))
  prune [] = returned []
  prune (none ∷ ri) = panicked
  prune (some e ∷ ri) = do
    out ← prune ri
    returned (if is_one_of e.url all_makers then e ∷ out else out)

  not_empty : List (ResolverInfo F) → String ⊎ List (ResolverInfo F)
  not_empty [] = inl err_no_entries
  not_empty (e ∷ out) = inr (e ∷ out)

  unfoldable pub pruned :
      String ⊎ List (Option (ResolverInfo F)) → Outcome (String ⊎ List (ResolverInfo F))
  unfolding not_empty
  pruned (inl err) = returned (inl err)
  pruned (inr ri) = do out ← prune ri; returned (not_empty out)

  unfoldable pub read_state_and_prune : Option K.Store → Outcome (String ⊎ List (ResolverInfo F))
  read_state_and_prune kv_store = pruned (read_state kv_store)

  sort_state : List (ResolverInfo F) → List (ResolverInfo F)
  sort_state ri = S.sort (λ a b. F.geb a.score b.score) ri

  or_nothing : String ⊎ List (ResolverInfo F) → List (ResolverInfo F)
  or_nothing (inl err) = []
  or_nothing (inr ri) = ri

  unfoldable pub read_state_default : Option K.Store → Outcome (List (ResolverInfo F))
  unfolding or_nothing sort_state
  read_state_default kv_store = do
    found ← read_state_and_prune kv_store
    let ri = or_nothing found
    returned (sort_state (ri ++ missing F (map (λ e. e.url) ri) all_makers))

  written : K.Store → Option Bytes → Option K.Store × Bool
  written kv_store none = (some kv_store, false)
  written kv_store (some bytes) =
      let (after, ok) = K.set kv_store store_key bytes in (some after, ok)

  -- The store after writestate, and whether there was no error.
  unfoldable pub write_state : Option K.Store → List (ResolverInfo F) → Option K.Store × Bool
  unfolding written
  write_state none ri = (none, false)
  write_state (some kv_store) ri = written kv_store (J.encode ri)
