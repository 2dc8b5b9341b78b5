-- ===== src/Enginenetx/Stats/Manager/Tests.antt =====
-- The manager, pruning and sorting at concrete stats.
use ooni_probe_engine.Enginenetx.Samples.{thousandths}
use ooni_probe_engine.Enginenetx.Stats.Sorting.{stats_nil_safe_success_rate}
use ooni_probe_engine.Prelude.Dict.{insert}
use ooni_probe_engine.Kvstore.{memory_set}
use ooni_probe_engine.Enginenetx.Stats.Prune.{
  stats_container_prune_entries, prune_endpoints, prune_endpoint,
  stats_domain_endpoint_prune_entries, store_all, store_by_key, cut_excess, is_recent, collect,
}
use ooni_probe_engine.Prelude.{
  ℕ, String, ◌≡◌, refl, arith, Bool, true, false, Option, none, some, [], ◌∷◌,
}
use ooni_probe_engine.Prelude.Int.{ℤ, pos, ◌-ℤ◌}
use ooni_probe_engine.Prelude.Outcome.{returned, Returns}
use ooni_probe_engine.Enginenetx.Stats.Data.{StatsTactic, StatsContainer, stats_container_version}
use ooni_probe_engine.Enginenetx.Stats.Sorting.{
  stats_nil_safe_last_updated, well_formed_copies, goes_first, sort_with_accept_predicate,
}
use ooni_probe_engine.Enginenetx.Stats.Sorting.Laws.{goes_first_both_ways}
use ooni_probe_engine.Prelude.Sorting.{insertion_sort, put}
use ooni_probe_engine.Prelude.Golang.{sub_time}
use ooni_probe_engine.Enginenetx.Stats.Data.{clone, stats_maybe_clone_tactic, stats_maybe_clone_map}
use ooni_probe_engine.Enginenetx.Tactic
use ooni_probe_engine.Enginenetx.Tactic.{tactic_summary_key}
use ooni_probe_engine.Enginenetx.Stats.Events.{new_stats_tactic}
use ooni_probe_engine.Enginenetx.Stats.Data.{StatsDomainEndpoint}
use ooni_probe_engine.Enginenetx.Stats.Events.Validity.{IsValid}
use ooni_probe_engine.Enginenetx.Stats.Manager.{
  StatsManager, try_one, stats_key, load_stats_container, new_stats_manager, close,
}
use ooni_probe_engine.Enginenetx.Stats.Manager.Robust.{
  IsReloaded, new_stats_manager-IsValid, close_reload,
}
use ooni_probe_engine.Enginenetx.Samples.{
  floats, sorter, codec, store, backend, backend_record, backend_v6_record, edited_stats,
}

-- A clock that stands still.
abbrev at : ℕ → String → ℤ
at n name = pos n

-- A store with the stats that a user edited.
abbrev edited_store : store.Store
edited_store = some ((stats_key, edited_stats) ∷ [])

new_stats_manager-IsValid_example :
    Returns
      (λ mt. IsValid mt.container)
      (new_stats_manager floats sorter codec store (at 5) edited_store (pos 30))
new_stats_manager-IsValid_example =
    new_stats_manager-IsValid floats sorter codec store (at 5) edited_store (pos 30) (ground arith)

-- The endpoint of the edited stats that has tactics.
abbrev edited_endpoint : StatsDomainEndpoint
edited_endpoint = record {
  tactics = some (
      ("", none)
      ∷ ("a", some (record backend_record { tactic = none }))
      ∷ ("b", some backend_record)
      ∷ []);
}

-- A manager of the edited stats, and what it saves.
abbrev opened : StatsManager floats sorter codec store
opened = record { container = edited_stats; closed = false; kv_store = none }

abbrev kept_stats : StatsContainer
kept_stats = record {
  domain_endpoints = some (
      (
        "api.ooni.io:443",
        some (record { tactics = some ((tactic_summary_key backend, some backend_record) ∷ []) }),
      )
      ∷ []);
  version = stats_container_version;
}

abbrev closed : StatsManager floats sorter codec store
closed = record {
  container = edited_stats;
  closed = true;
  kv_store = some ((stats_key, kept_stats) ∷ []);
}

close_run : close floats sorter codec store (at 5) opened ≡ returned (closed, true)
unfolding close stats_container_prune_entries prune_endpoints prune_endpoint
    stats_domain_endpoint_prune_entries store_all store_by_key cut_excess is_recent collect
    well_formed_copies put sub_time ◌-ℤ◌ stats_nil_safe_last_updated clone stats_maybe_clone_tactic
    stats_maybe_clone_map Tactic.clone new_stats_tactic floats sort_with_accept_predicate
    insertion_sort sorter memory_set insert try_one codec
close_run = refl

close_reload_example :
    IsReloaded floats sorter codec store
      (at 5)
      (at 9)
      edited_stats
      (load_stats_container floats sorter codec store (at 9) closed.kv_store)
close_reload_example =
    close_reload floats sorter codec store (at 5) (at 9) opened closed refl close_run

abbrev HasNoErrors : String → StatsTactic → Type 0
HasNoErrors d r = r.count_tls_handshake_error ≡ pos 0

abbrev any_tactic : Option StatsTactic → Bool
any_tactic none = false
any_tactic (some t) = true

-- Four successes of four starts against seven of ten.
goes_first_both_ways_example :
    (goes_first floats backend_v6_record backend_record ≡ true)
    × (goes_first floats backend_record backend_v6_record ≡ true)
unfolding floats stats_nil_safe_success_rate thousandths
goes_first_both_ways_example =
    goes_first_both_ways floats backend_v6_record backend_record refl (ground arith)
