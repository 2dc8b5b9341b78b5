-- ===== src/Enginenetx/HttpsDialer/Tests.antt =====
-- The theorems on dialing at concrete attempts and reports.
use ooni_probe_engine.Prelude.Dict.{lookup}
use ooni_probe_engine.Enginenetx.Stats.Events.{record_in}
use ooni_probe_engine.Enginenetx.Tactic.{join_host_port, has_colon}
use ooni_probe_engine.Prelude.Dict.{lookup, insert}
use ooni_probe_engine.Enginenetx.Stats.Events.{record_in, write_in, write_tactic, initialized}
use ooni_probe_engine.Prelude.Int.{◌-ℤ◌, ◌+ℤ◌, inc64}
use ooni_probe_engine.Prelude.Golang.{sub_time}
use ooni_probe_engine.Prelude.{
  ℕ, zero, suc, arith, String, ◌≡◌, ◌≢◌, ◌↔◌, refl, Option, none, some, List, [], ◌∷◌, false,
  str_eq, if◌then◌else◌,
}
use ooni_probe_engine.Prelude.Int.{pos}
use ooni_probe_engine.Prelude.Outcome.{returned, Returns}
use ooni_probe_engine.Enginenetx.Tactic.{domain_endpoint_key, tactic_summary_key}
use ooni_probe_engine.Enginenetx.Stats.Data.{
  StatsTactic, StatsContainer, new_stats_container, stats_container_version,
}
use ooni_probe_engine.Enginenetx.Stats.Events.{
  new_stats_tactic, handle, on_starting, on_success, start_found, update_found, succeeded, started,
  get_stats_tactic, set_stats_tactic,
}
use ooni_probe_engine.Enginenetx.Stats.Events.Validity.{IsValid}
use ooni_probe_engine.Enginenetx.Stats.Events.Accounting.{IsBalanced}
use ooni_probe_engine.Enginenetx.Samples.{backend, some_stats, some_stats-IsValid}
use ooni_probe_engine.Enginenetx.HttpsDialer.{
  tcp_opened, tls_opened, verify_certificate_chain, tactic_wait_ready, timer, dialed, Attempted,
  peer_certificates, Answers, dial_tls, Message, joined, got_error, got_conn, connection,
  joined_errors, dns_no_answer, dial_tls_context, parallelism,
}
use ooni_probe_engine.Enginenetx.HttpsDialer.Attempt.{open_after, is_dialed}
use ooni_probe_engine.Enginenetx.HttpsDialer.Safety.{
  dial_tls_safe, dial_tls-Verified, dial_tls-IsBalanced,
}
use ooni_probe_engine.Enginenetx.HttpsDialer.Gather.{dial_tls_context-Explained, conns, errors}

-- Certificates are the names that they are for.
abbrev verify_name : String → List String → String → Option String
verify_name leaf intermediates hostname = if str_eq leaf hostname then none else some "bad name"

abbrev good : Answers verify_name
good = record {
  zero_time = pos 5;
  asked_at = pos 6;
  select = timer;
  started_at = pos 6;
  connect_error = none;
  connect_ctx = none;
  connected_at = pos 7;
  handshake = peer_certificates ("api.ooni.io" ∷ "R3" ∷ []);
  handshake_ctx = none;
  handshaked_at = pos 8;
  verified_at = pos 9;
}

abbrev unconnected : Answers verify_name
unconnected = record good { connect_error = some "timeout" }

dial_tls_safe_example :
    Returns
      (λ r. IsValid r.stats × (open_after false r.actions ≡ is_dialed r.result))
      (dial_tls verify_name unconnected backend some_stats)
dial_tls_safe_example = dial_tls_safe verify_name unconnected backend some_stats some_stats-IsValid

-- The stats after one start and one success.
abbrev dialed_once : StatsTactic
dialed_once = record (new_stats_tactic backend) {
  count_started = pos 1;
  count_success = pos 1;
  last_updated = pos 9;
}

abbrev dialed_stats : StatsContainer
dialed_stats = record {
  domain_endpoints = some (
      (
        domain_endpoint_key backend,
        some (record { tactics = some ((tactic_summary_key backend, some dialed_once) ∷ []) }),
      )
      ∷ []);
  version = stats_container_version;
}

abbrev dialed_end : Attempted
dialed_end = record {
  result = dialed;
  actions = tcp_opened ∷ tls_opened ∷ [];
  stats = dialed_stats;
}

good_run : dial_tls verify_name good backend new_stats_container ≡ returned dialed_end
unfolding dial_tls verify_certificate_chain tactic_wait_ready handle on_starting on_success
    start_found update_found succeeded started get_stats_tactic set_stats_tactic new_stats_container
    domain_endpoint_key tactic_summary_key sub_time ◌-ℤ◌ ◌+ℤ◌ record_in lookup write_in write_tactic
    insert initialized join_host_port has_colon inc64 new_stats_tactic
good_run = refl

dial_tls-Verified_example :
    (leaf : String) × (rest : List String) × (good.handshake ≡ peer_certificates (leaf ∷ rest))
    × (verify_name leaf rest backend.verify_hostname ≡ none)
    × (backend.verify_hostname ≢ "")
dial_tls-Verified_example =
    dial_tls-Verified verify_name good backend new_stats_container dialed_end good_run refl

new-IsBalanced : IsBalanced new_stats_container
unfolding new_stats_container get_stats_tactic record_in lookup
new-IsBalanced u = tt

dial_tls-IsBalanced_example : IsBalanced dialed_end.stats
dial_tls-IsBalanced_example =
    dial_tls-IsBalanced verify_name good backend new_stats_container dialed_end good_run
      new-IsBalanced

-- A worker reports an error, another one two connections, and all sixteen join.
abbrev joined_times : ℕ → List (Message String)
joined_times zero = []
joined_times (suc n) = joined ∷ joined_times n

abbrev reports : List (Message String)
reports = got_error "timeout" ∷ got_conn "first" ∷ joined ∷ got_conn "second" ∷ joined_times 15

dial_tls_context-Explained_example :
    ((dial_tls_context reports ≡ some (connection "first" ("second" ∷ [])))
      ↔ (conns parallelism reports ≡ "first" ∷ "second" ∷ []))
    × ((dial_tls_context reports ≡ some (joined_errors ("timeout" ∷ []))) ↔ (
        (conns parallelism reports ≡ [])
        × (errors parallelism reports ≡ "timeout" ∷ [])
        × ◌≢◌ {A = List String} ("timeout" ∷ []) []))
    × ((dial_tls_context reports ≡ some dns_no_answer)
        ↔ ((conns parallelism reports ≡ []) × (errors parallelism reports ≡ [])))
dial_tls_context-Explained_example =
    dial_tls_context-Explained reports "first" ("second" ∷ []) ("timeout" ∷ []) (omega arith)
