-- ===== src/Enginenetx/Stats/Manager/Robust.antt =====
-- The manager on stores with any content.
use ooni_probe_engine.Prelude.{
  String, true, false, ◌≡◌, refl, ap, arith, Option, none, some, inl, inr, Bool-cases,
}
use ooni_probe_engine.Prelude.Int.{ℤ, pos, ltb_ℤ, ◌<ℤ◌}
use ooni_probe_engine.Prelude.Golang.{Float64, SliceStable}
use ooni_probe_engine.Prelude.Outcome.{
  Outcome, Returns-value, returned, Returns, returns, >>=-returned, returned_inj, Returns-at,
  Returns-bind,
}
use ooni_probe_engine.Kvstore.{KeyValueStore}
use ooni_probe_engine.Enginenetx.Stats.Data.{
  StatsTactic, StatsContainer, new_stats_container, stats_container_version,
}
use ooni_probe_engine.Enginenetx.Stats.Prune.{stats_container_prune_entries}
use ooni_probe_engine.Enginenetx.Stats.Prune.Result.{
  IsPruned, stats_container_prune_entries-IsPruned,
}
use ooni_probe_engine.Enginenetx.Stats.Events.Validity.{IsValid, IsPruned-IsValid}
use ooni_probe_engine.Enginenetx.Tactic.{HttpsDialerTactic}
use ooni_probe_engine.Enginenetx.Stats.Events.{get_stats_tactic}
use ooni_probe_engine.Enginenetx.Stats.Manager.{
  ContainerCodec, Loaded, get_failed, unmarshal_failed, wrong_version, loaded, StatsManager,
  stats_key, load_stats_container, check_version, read_bytes, unmarshalled, root_of,
  new_stats_manager, close, same_version, try_one,
}

module _ {Bytes : Type 0} (F : Float64) (S : SliceStable StatsTactic) (J : ContainerCodec Bytes)
    (K : KeyValueStore Bytes) where
  -- What loading may give: an error, or stats that have just been pruned.
  abbrev LoadedPruned : (String → ℤ) → Loaded → Type 0
  LoadedPruned clock (loaded c) = IsPruned clock c
  LoadedPruned clock error = Unit

  check_version-Returns :
      (clock : String → ℤ) (c : StatsContainer)
      → Returns (LoadedPruned clock) (check_version F S J K clock c)
  unfolding check_version
  check_version-Returns clock c =
      elim (Bool-cases (same_version c.version stats_container_version)) [
        | inl same ↦ rw same (
            Returns-bind (IsPruned clock) (LoadedPruned clock) (λ p. returned (loaded p))
              (stats_container_prune_entries-IsPruned F S clock c)
              (λ p pruned. returns (loaded p) pruned))
        | inr other ↦ rw other (returns wrong_version tt)
      ]

  unmarshalled-Returns :
      (clock : String → ℤ) (o : Option StatsContainer)
      → Returns (LoadedPruned clock) (unmarshalled F S J K clock o)
  unfolding unmarshalled
  unmarshalled-Returns clock none = returns unmarshal_failed tt
  unmarshalled-Returns clock (some c) = check_version-Returns clock c

  read_bytes-Returns :
      (clock : String → ℤ) (o : Option Bytes)
      → Returns (LoadedPruned clock) (read_bytes F S J K clock o)
  unfolding read_bytes
  read_bytes-Returns clock none = returns get_failed tt
  read_bytes-Returns clock (some bytes) = unmarshalled-Returns clock (J.unmarshal bytes)

  load-Returns :
      (clock : String → ℤ) (store : K.Store)
      → Returns (LoadedPruned clock) (load_stats_container F S J K clock store)
  unfolding load_stats_container
  load-Returns clock store = read_bytes-Returns clock (K.get store stats_key)

  root_of-IsValid :
      (clock : String → ℤ) (result : Loaded)
      → LoadedPruned clock result
      → IsValid (root_of F S J K result)
  unfolding root_of new_stats_container
  root_of-IsValid clock (loaded c) h = IsPruned-IsValid F S clock c h
  root_of-IsValid clock result h = record { endpoints = tt }

  -- Whatever bytes the store holds, a manager with a positive trim interval starts without a panic,
  -- on stats without nil pointers.
  pub new_stats_manager-IsValid :
      (clock : String → ℤ) (store : K.Store) (trim_interval : ℤ)
      → pos 0 <ℤ trim_interval
      → Returns (λ mt. IsValid mt.container) (new_stats_manager F S J K clock store trim_interval)
  unfolding new_stats_manager
  new_stats_manager-IsValid clock store trim_interval h =
      let positive : ltb_ℤ (pos 0) trim_interval ≡ true = ground arith in
      rw positive (
        Returns-bind (LoadedPruned clock) (λ mt. IsValid mt.container) _ (load-Returns clock store)
          (λ result pruned. returns _ (root_of-IsValid clock result pruned)))

  same_version_refl : (v : ℤ) → same_version v v ≡ true
  same_version_refl v = ground arith

  try_one-returned :
      (o : Option Bytes) (bytes : Bytes) → try_one o ≡ returned bytes → o ≡ some bytes
  unfolding try_one
  try_one-returned none bytes h = cc
  try_one-returned (some given) bytes h = ap some (returned_inj given bytes h)

  -- Loading reads back stats with the records of those that Close pruned, and prunes them again.
  abbrev pub IsReloaded : (String → ℤ) → (String → ℤ) → StatsContainer → Outcome Loaded → Type 0
  IsReloaded clock later c result =
      (saved : StatsContainer) × (read : StatsContainer) × (reloaded : StatsContainer)
      × (stats_container_prune_entries F S clock c ≡ returned saved)
      × ((t : HttpsDialerTactic) → get_stats_tactic read t ≡ get_stats_tactic saved t)
      × (stats_container_prune_entries F S later read ≡ returned reloaded)
      × (result ≡ returned (loaded reloaded))

  load_saved :
      (clock later : String → ℤ) (store : K.Store) (c saved : StatsContainer) (bytes : Bytes)
      → stats_container_prune_entries F S clock c ≡ returned saved
      → saved.version ≡ stats_container_version
      → J.marshal saved ≡ some bytes
      → K.get store stats_key ≡ some bytes
      → IsReloaded clock later c (load_stats_container F S J K later store)
  unfolding load_stats_container read_bytes unmarshalled check_version
  load_saved clock later store c saved bytes pruned current encoded written =
      let (read, decoded, version, same) = J.unmarshal-marshal saved bytes encoded in
      let good : same_version read.version stats_container_version ≡ true = ground arith in
      let again =
        Returns-value (IsPruned later) (stats_container_prune_entries-IsPruned F S later read) in
      (
        saved,
        read,
        again.0,
        pruned,
        same,
        again.1,
        rw (written, read_bytes, decoded, unmarshalled, good, again.1) refl,
      )

  -- Stats that a manager saved on its first Close, with a write that succeeded, are loaded by the next
  -- manager: it reads each record that Close kept when it pruned the manager's stats, and no other,
  -- and prunes them again at the time of loading.
  pub close_reload :
      (clock later : String → ℤ) (mt mt' : StatsManager F S J K)
      → mt.closed ≡ false
      → close F S J K clock mt ≡ returned (mt', true)
      → IsReloaded clock later mt.container (load_stats_container F S J K later mt'.kv_store)
  unfolding close
  close_reload clock later mt mt' first done =
      let (c, pruned, next) =
        >>=-returned (stats_container_prune_entries F S clock mt.container) _
          (simp first at done) in
      let (bytes, tried, rest) = >>=-returned (try_one (J.marshal c)) _ next in
      let written : (K.set mt.kv_store stats_key bytes).1 ≡ true =
        ap (λ p. p.1) (returned_inj _ (mt', true) rest) in
      let stored : (K.set mt.kv_store stats_key bytes).0 ≡ mt'.kv_store =
        ap (λ p. p.0.kv_store) (returned_inj _ (mt', true) rest) in
      let saved : K.get mt'.kv_store stats_key ≡ some bytes =
        rw stored at (K.get-set mt.kv_store stats_key bytes written) in
      let current =
        (Returns-at (IsPruned clock) c
          (stats_container_prune_entries-IsPruned F S clock mt.container) pruned).current in
      load_saved clock later mt'.kv_store mt.container c bytes pruned current
        (try_one-returned (J.marshal c) bytes tried) saved
