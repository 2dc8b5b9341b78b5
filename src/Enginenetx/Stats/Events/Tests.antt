-- ===== src/Enginenetx/Stats/Events/Tests.antt =====
-- The theorems on events at concrete stats.
use ooni_probe_engine.Enginenetx.Tactic.{join_host_port, has_colon}
use ooni_probe_engine.Prelude.Dict.{lookup, insert}
use ooni_probe_engine.Enginenetx.Stats.Events.{record_in, write_in, write_tactic, initialized}
use ooni_probe_engine.Prelude.Dict.{lookup, insert}
use ooni_probe_engine.Enginenetx.Stats.Events.{write_in, write_tactic, initialized}
use ooni_probe_engine.Prelude.{◌≡◌, refl, none, some, [], ◌∷◌, List, if◌then◌else◌}
use ooni_probe_engine.Prelude.Int.{pos}
use ooni_probe_engine.Prelude.Outcome.{returned, Returns}
use ooni_probe_engine.Enginenetx.Tactic.{domain_endpoint_key, tactic_summary_key}
use ooni_probe_engine.Enginenetx.Stats.Data.{
  StatsTactic, StatsContainer, new_stats_container, stats_container_version,
}
use ooni_probe_engine.Enginenetx.Stats.Events.{
  starting, tcp_connect_error, success, handle, get_stats_tactic, set_stats_tactic,
  new_stats_tactic, on_starting, start_found, started,
}
use ooni_probe_engine.Enginenetx.Stats.Events.Slots.{same_slot}
use ooni_probe_engine.Enginenetx.Stats.Events.Effects.{slot_after, get-handle}
use ooni_probe_engine.Enginenetx.Stats.Events.Validity.{
  IsValid, Step, occurs, trims, run, run-IsValid,
}
use ooni_probe_engine.Enginenetx.Samples.{
  floats, sorter, backend, backend_v6, backend_record, some_stats, some_stats-IsValid,
}

-- A dial that fails to connect, a trim, and another dial.
abbrev busy : List Step
busy =
    occurs (record { time = pos 10; event = starting; of_tactic = backend })
    ∷ occurs
        (record { time = pos 20; event = tcp_connect_error none "timeout"; of_tactic = backend })
    ∷ trims (λ name. pos 25)
    ∷ occurs (record { time = pos 30; event = starting; of_tactic = backend_v6 })
    ∷ occurs (record { time = pos 40; event = success; of_tactic = backend_v6 })
    ∷ []

run-IsValid_example : Returns IsValid (run floats sorter busy some_stats)
run-IsValid_example = run-IsValid floats sorter busy some_stats some_stats-IsValid

-- One record alone in the stats.
abbrev only : StatsTactic → StatsContainer
only r = record {
  domain_endpoints = some (
      (
        domain_endpoint_key backend,
        some (record { tactics = some ((tactic_summary_key backend, some r) ∷ []) }),
      )
      ∷ []);
  version = stats_container_version;
}

set_run :
    set_stats_tactic new_stats_container backend backend_record ≡ returned (only backend_record)
unfolding set_stats_tactic write_in lookup new_stats_container write_tactic insert initialized
set_run = refl

start_run :
    handle (pos 9) starting backend new_stats_container
    ≡ returned (only (started (pos 9) (new_stats_tactic backend)))
unfolding handle on_starting start_found get_stats_tactic record_in lookup new_stats_container
    set_stats_tactic write_in write_tactic insert initialized domain_endpoint_key join_host_port
    has_colon tactic_summary_key
start_run = refl

get-handle_example :
    get_stats_tactic (only (started (pos 9) (new_stats_tactic backend))) backend ≡ (
      if same_slot backend backend
      then slot_after (pos 9) starting backend (get_stats_tactic new_stats_container backend)
      else get_stats_tactic new_stats_container backend)
get-handle_example =
    get-handle (pos 9) starting new_stats_container
      (only (started (pos 9) (new_stats_tactic backend))) backend backend start_run
