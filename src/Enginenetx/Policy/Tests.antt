-- ===== src/Enginenetx/Policy/Tests.antt =====
-- The policies in a concrete world.
use ooni_probe_engine.Enginenetx.Tactic.{domain_endpoint_key, join_host_port}
use ooni_probe_engine.Prelude.Dict.{lookup}
use ooni_probe_engine.Enginenetx.Stats.Data.{entries}
use ooni_probe_engine.Prelude.Int.{pos}
use ooni_probe_engine.Enginenetx.Policy.User.{first_or, given_tactics, user_policy_first}
use ooni_probe_engine.Kvstore.{memory, memory_get}
use ooni_probe_engine.Enginenetx.Policy.Loading.{
  new_user_policy_v2, user_policy_key, user_policy_version, new_user_policy_v2_lem,
}
use ooni_probe_engine.Prelude.{◌↔◌, inr, ◌≡◌, refl, false, none, some, [], ◌∷◌, All}
use ooni_probe_engine.Enginenetx.Filter.{https_dialer_filter_tactics}
use ooni_probe_engine.Enginenetx.Policy.Dialed.{dialed-Serves}
use ooni_probe_engine.Prelude.Outcome.{◌>>=◌, returned, Returns}
use ooni_probe_engine.Enginenetx.Tactic.{has_colon}
use ooni_probe_engine.Enginenetx.Samples.{floats, sorter, some_stats, backend}
use ooni_probe_engine.Enginenetx.Policy.{UserPolicyRoot, World, emitted, new_https_dialer_policy}
use ooni_probe_engine.Enginenetx.Policy.Endpoint.{
  Serves, IsKeyedByEndpoint, ServesOption, new_https_dialer_policy-Serves,
}

-- The resolver knows one address, and names are not shuffled.
abbrev world : World
world = record {
  canceled = false;
  is_ip = λ name. false;
  resolve = λ name. some ("104.16.249.249" ∷ []);
  bridges_order = λ n names. names;
  helpers_order = λ n names. names;
  stats = some_stats;
  floats = floats;
  sorter = sorter;
}

some_stats-IsKeyedByEndpoint : IsKeyedByEndpoint some_stats
unfolding has_colon domain_endpoint_key
some_stats-IsKeyedByEndpoint = record { endpoints = (((refl, refl), ((refl, refl), tt)), tt) }

new_https_dialer_policy-Serves_example :
    Returns
      (All (ServesOption world "api.ooni.io" "443"))
      (emitted world "api.ooni.io" "443" (new_https_dialer_policy false none))
unfolding has_colon
new_https_dialer_policy-Serves_example =
    new_https_dialer_policy-Serves world "api.ooni.io" "443" refl false some_stats-IsKeyedByEndpoint

dialed-Serves_example : Returns (All (Serves world "api.ooni.io" "443")) (do
  tactics ← emitted world "api.ooni.io" "443" (new_https_dialer_policy false none)
  returned (https_dialer_filter_tactics tactics))
unfolding has_colon
dialed-Serves_example =
    dialed-Serves world "api.ooni.io" "443" false refl some_stats-IsKeyedByEndpoint

-- A user policy with a nil tactic.
abbrev configured : UserPolicyRoot
configured = record {
  domain_endpoints = some (("api.ooni.io:443", some backend ∷ none ∷ []) ∷ []);
  version = pos 3;
}

user_policy_first_example :
    emitted world "api.ooni.io" "443" (new_https_dialer_policy false (some configured))
    ≡ first_or
        (given_tactics
          (lookup (join_host_port "api.ooni.io" "443") (entries configured.domain_endpoints)))
        (emitted world "api.ooni.io" "443" (new_https_dialer_policy false none))
user_policy_first_example = user_policy_first world configured "api.ooni.io" "443"

-- A store whose documents are user policies.
new_user_policy_v2_lem_example :
    (new_user_policy_v2
        (λ root. some root)
        (memory UserPolicyRoot)
        (some ((user_policy_key, configured) ∷ []))
      ≡ inr configured)
    ↔ ((bytes : UserPolicyRoot) × (memory_get
            (some ((user_policy_key, configured) ∷ []))
            user_policy_key
          ≡ some bytes)
        × (some bytes ≡ some configured)
        × (configured.version ≡ user_policy_version))
new_user_policy_v2_lem_example =
    new_user_policy_v2_lem (λ root. some root) (memory UserPolicyRoot)
      (some ((user_policy_key, configured) ∷ [])) configured
