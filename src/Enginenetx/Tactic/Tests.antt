-- ===== src/Enginenetx/Tactic/Tests.antt =====
-- Keys of concrete tactics, and the theorems of Keys at them.
use ooni_probe_engine.Prelude.{◌≡◌, refl}
use ooni_probe_engine.Enginenetx.Tactic.{has_colon, join_host_port, tactic_summary_key}
use ooni_probe_engine.Enginenetx.Samples.{backend, backend_v6}

backend_key :
    tactic_summary_key backend ≡ "162.55.247.208:443 sni=www.example.com verify=api.ooni.io"
unfolding tactic_summary_key join_host_port has_colon
backend_key = refl

backend_v6_key :
    tactic_summary_key backend_v6 ≡ "[2001:db8::1]:443 sni=api.ooni.io verify=api.ooni.io"
unfolding tactic_summary_key join_host_port has_colon
backend_v6_key = refl
