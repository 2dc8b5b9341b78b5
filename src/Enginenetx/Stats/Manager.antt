-- ===== src/Enginenetx/Stats/Manager.antt =====
-- statsManager of statsmanager.go: loading the stats from the key-value store, trimming them, saving
-- them once on Close, and looking up the tactics of an endpoint.
mod Tests
pub mod Robust
pub mod Lookup
use ooni_probe_engine.Prelude.{
  ℕ, String, Bool, true, false, ◌≡◌, not, ◌&&◌, Option, none, some, List, [], ◌∷◌, length, ltb,
  is_set, if◌then◌else◌,
}
use ooni_probe_engine.Prelude.Int.{ℤ, pos, ltb_ℤ}
use ooni_probe_engine.Prelude.Dict.{Dict, lookup}
use ooni_probe_engine.Prelude.Golang.{Float64, SliceStable}
use ooni_probe_engine.Prelude.Outcome.{Outcome, returned, panicked, ◌>>=◌}
use ooni_probe_engine.Kvstore.{KeyValueStore}
use ooni_probe_engine.Enginenetx.Tactic.{HttpsDialerTactic, join_host_port}
use ooni_probe_engine.Enginenetx.Stats.Data.{
  StatsTactic, StatsDomainEndpoint, StatsContainer, entries, new_stats_container,
  stats_container_version, clone,
}
use ooni_probe_engine.Enginenetx.Stats.Prune.{stats_container_prune_entries}
use ooni_probe_engine.Enginenetx.Stats.Events.{get_stats_tactic}

-- encoding/json on containers, where writing may fail: a document that was written is read back with
-- the version and the records that it was written with.
pub record ContainerCodec (Bytes : Type 0) : Type 0 where
  pub marshal : StatsContainer → Option Bytes
  pub unmarshal : Bytes → Option StatsContainer
  pub unmarshal-marshal :
      (c : StatsContainer) (bytes : Bytes)
      → marshal c ≡ some bytes
      → (d : StatsContainer) × (unmarshal bytes ≡ some d)
        × (d.version ≡ c.version)
        × ((t : HttpsDialerTactic) → get_stats_tactic d t ≡ get_stats_tactic c t)

abbrev pub stats_key : String
stats_key = "httpsdialerstats.state"

pub data Loaded : Type 0 where
  get_failed unmarshal_failed wrong_version : Loaded
  loaded : StatsContainer → Loaded

-- runtimex.Try1
unfoldable pub try_one {ℓ} : {A : Type ℓ} → Option A → Outcome A
try_one none = panicked
try_one (some a) = returned a

abbrev same_version : ℤ → ℤ → Bool
same_version a b = not (ltb_ℤ a b) && not (ltb_ℤ b a)

module _ {Bytes : Type 0} (F : Float64) (S : SliceStable StatsTactic) (J : ContainerCodec Bytes)
    (K : KeyValueStore Bytes) where
  check_version : (String → ℤ) → StatsContainer → Outcome Loaded
  check_version clock c =
      if same_version c.version stats_container_version
      then (do pruned ← stats_container_prune_entries F S clock c; returned (loaded pruned))
      else returned wrong_version

  unmarshalled : (String → ℤ) → Option StatsContainer → Outcome Loaded
  unmarshalled clock none = returned unmarshal_failed
  unmarshalled clock (some c) = check_version clock c

  read_bytes : (String → ℤ) → Option Bytes → Outcome Loaded
  read_bytes clock none = returned get_failed
  read_bytes clock (some bytes) = unmarshalled clock (J.unmarshal bytes)

  unfoldable pub load_stats_container : (String → ℤ) → K.Store → Outcome Loaded
  unfolding read_bytes unmarshalled check_version
  load_stats_container clock store = read_bytes clock (K.get store stats_key)

  -- The state of the manager: the container, whether `closeOnce` has run, and the store.
  pub record StatsManager : Type 0 where
    pub container : StatsContainer
    pub closed : Bool
    pub kv_store : K.Store

  root_of : Loaded → StatsContainer
  root_of (loaded c) = c
  root_of error = new_stats_container

  -- The interval of the trims that the background goroutine makes must be positive.
  unfoldable pub new_stats_manager : (String → ℤ) → K.Store → ℤ → Outcome StatsManager
  unfolding root_of
  new_stats_manager clock store trim_interval =
      if ltb_ℤ (pos 0) trim_interval
      then (do
        result ← load_stats_container clock store
        returned (record { container = root_of result; closed = false; kv_store = store }))
      else panicked

  -- What the background goroutine does at each tick.
  unfoldable pub trim : (String → ℤ) → StatsManager → Outcome StatsManager
  trim clock mt = do
    container ← stats_container_prune_entries F S clock mt.container
    returned (record mt { container = container })

  -- The new state, and whether Close returned no error.
  unfoldable pub close : (String → ℤ) → StatsManager → Outcome (StatsManager × Bool)
  close clock mt = if mt.closed then returned (mt, true) else (do
    container ← stats_container_prune_entries F S clock mt.container
    bytes ← try_one (J.marshal container)
    let (store, written) = K.set mt.kv_store stats_key bytes
    returned (record mt { closed = true; kv_store = store }, written))

-- A copy of each entry; a nil entry has no copy.
unfoldable pub clone_entries : Dict (Option StatsTactic) → Outcome (List StatsTactic)
clone_entries [] = returned []
clone_entries ((summary, none) ∷ m) = panicked
clone_entries ((summary, some entry) ∷ m) = do out ← clone_entries m; returned (clone entry ∷ out)

pub lookup_in : Option (Option StatsDomainEndpoint) → Outcome (List StatsTactic × Bool)
lookup_in none = returned ([], false)
lookup_in (some none) = returned ([], false)
lookup_in (some (some e)) = do
  out ← clone_entries (entries e.tactics)
  returned (out, ltb 0 (length out))

unfoldable pub lookup_tactics : StatsContainer → String → String → Outcome (List StatsTactic × Bool)
unfolding lookup_in
lookup_tactics c domain port =
    lookup_in (lookup (join_host_port domain port) (entries c.domain_endpoints))
