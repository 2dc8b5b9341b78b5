-- ===== src/Enginenetx/Tactic.antt =====
-- pkg/enginenetx/httpsdialer.go: httpsDialerTactic and the keys made from it.
pub mod Keys
mod Tests
use Prim.Native.Char.{Char, code}
use Prim.Native.String.{◌++◌}
use ooni_probe_engine.Prelude.{String, Bool, true, false, ◌||◌, ◌==◌, if◌then◌else◌}
use ooni_probe_engine.Prelude.Int.{ℤ}

pub record HttpsDialerTactic : Type 0 where
  pub address : String
  pub initial_delay : ℤ  -- nanoseconds
  pub port : String
  pub sni : String
  pub verify_hostname : String

unfoldable pub clone : HttpsDialerTactic → HttpsDialerTactic
clone dt = record {
  address = dt.address;
  initial_delay = dt.initial_delay;
  port = dt.port;
  sni = dt.sni;
  verify_hostname = dt.verify_hostname;
}

-- strings.IndexByte(s, ':') >= 0
unfoldable pub has_colon : String → Bool
has_colon String.[] = false
has_colon (String.◌∷◌ c s) = code c == b':' || has_colon s

-- net.JoinHostPort of Go's standard library: an IPv6 address is put in brackets.
unfoldable pub join_host_port : String → String → String
join_host_port host port =
    if has_colon host then "[" ++ (host ++ ("]:" ++ port)) else host ++ (":" ++ port)

unfoldable pub tactic_summary_key : HttpsDialerTactic → String
tactic_summary_key dt =
    join_host_port dt.address dt.port ++ (" sni=" ++ (dt.sni ++ (" verify=" ++ dt.verify_hostname)))

unfoldable pub domain_endpoint_key : HttpsDialerTactic → String
domain_endpoint_key dt = join_host_port dt.verify_hostname dt.port
