-- ===== src/Enginenetx/Policy.antt =====
-- The dialing policies of pkg/enginenetx: dnspolicy.go, bridgespolicy.go, statspolicy.go,
-- testhelperspolicy.go, userpolicy.go, nullpolicy.go, and their composition in network.go. What a
-- policy streams is the list of the tactics, one of which may be nil.
pub mod Names
pub mod Endpoint
pub mod Dialed
pub mod User
pub mod Loading
mod Tests
use ooni_probe_engine.Prelude.{
  ℕ, zero, suc, ◌+◌, String, Bool, true, false, not, ◌&&◌, Option, none, some, List, [], ◌∷◌, ◌++◌,
  map, ltb, length, is_set, str_eq, if◌then◌else◌,
}
use ooni_probe_engine.Prelude.Int.{ℤ, pos, ltb_ℤ}
use ooni_probe_engine.Prelude.Dict.{Dict, lookup}
use ooni_probe_engine.Prelude.Golang.{Float64, SliceStable}
use ooni_probe_engine.Prelude.Outcome.{Outcome, returned, panicked, ◌>>=◌}
use ooni_probe_engine.Enginenetx.Tactic.{HttpsDialerTactic, join_host_port}
use ooni_probe_engine.Enginenetx.Mix
use ooni_probe_engine.Enginenetx.Stats.Data.{StatsTactic, StatsContainer, entries}
use ooni_probe_engine.Enginenetx.Stats.Sorting.{sort_with_accept_predicate}
use ooni_probe_engine.Enginenetx.Stats.Manager.{lookup_tactics}
use Names.{bridges_addrs, bridges_domains, test_helpers_domains}

-- userPolicyRoot
pub record UserPolicyRoot : Type 0 where
  pub domain_endpoints : Option (Dict (List (Option HttpsDialerTactic)))
  pub version : ℤ

-- What the policies ask: whether the context is done, whether a name is an IP address (net.ParseIP),
-- what the resolver answers, in which order the n-th call of bridgesDomainsInRandomOrder shuffles the
-- names, and what the stats hold.
pub record World : Type 1 where
  pub canceled : Bool
  pub is_ip : String → Bool
  pub resolve : String → Option (List String)
  pub bridges_order : ℕ → List String → List String
  pub helpers_order : ℕ → List String → List String
  pub stats : StatsContainer
  pub floats : Float64
  pub sorter : SliceStable StatsTactic

abbrev pub Stream : Type 0
Stream = List (Option HttpsDialerTactic)

tactic_for : String → String → String → String → HttpsDialerTactic
tactic_for address port sni verify_hostname = record {
  address = address;
  initial_delay = pos 0;
  port = port;
  sni = sni;
  verify_hostname = verify_hostname;
}

-- ResolverShortCircuitIPAddr.LookupHost of netxlite.
unfoldable pub short_circuit_lookup_host : World → String → Option (List String)
short_circuit_lookup_host w hostname =
    if w.is_ip hostname then some (hostname ∷ []) else w.resolve hostname

dns_tactics : String → String → Option (List String) → Stream
dns_tactics domain port none = []
dns_tactics domain port (some addrs) = map (λ addr. some (tactic_for addr port domain domain)) addrs

unfoldable pub dns_policy : World → String → String → Stream
unfolding tactic_for dns_tactics
dns_policy w domain port =
    if w.canceled then [] else dns_tactics domain port (short_circuit_lookup_host w domain)

-- The loop over the addresses; `n` counts the calls that shuffle.
bridges_loop : World → String → String → ℕ → List String → Stream
bridges_loop w domain port n [] = []
bridges_loop w domain port n (ip_addr ∷ addrs) =
    map (λ sni. some (tactic_for ip_addr port sni domain)) (w.bridges_order n bridges_domains)
    ++ bridges_loop w domain port (n + 1) addrs

unfoldable pub bridges_tactics_for_domain : World → String → String → Stream
unfolding tactic_for bridges_loop
bridges_tactics_for_domain w domain port =
    if not (str_eq domain "api.ooni.io") then [] else bridges_loop w domain port 0 bridges_addrs

-- statsPolicyFilterStatsTactics: the predicate, and the loop with its assertion.
is_working : Option StatsTactic → Bool
is_working none = false
is_working (some st) = is_set st.tactic && ltb_ℤ (pos 0) st.count_success

asserted : Option HttpsDialerTactic → Outcome (Option HttpsDialerTactic)
asserted none = panicked
asserted (some t) = returned (some t)

to_tactics : List StatsTactic → Outcome Stream
to_tactics [] = returned []
to_tactics (t ∷ only_successes) = do
  tx ← (if ltb_ℤ (pos 0) t.count_success then asserted t.tactic else panicked)
  out ← to_tactics only_successes
  returned (tx ∷ out)

unfoldable pub stats_policy_filter : World → List StatsTactic × Bool → Outcome Stream
unfolding is_working asserted to_tactics
stats_policy_filter w (tactics, good) =
    if good
    then to_tactics (sort_with_accept_predicate w.floats w.sorter (map some tactics) is_working)
    else returned []

unfoldable pub stats_policy : World → String → String → Outcome Stream
stats_policy w domain port = do
  found ← lookup_tactics w.stats domain port
  stats_policy_filter w found

-- slices.Contains
unfoldable pub contains : List String → String → Bool
contains [] x = false
contains (y ∷ ys) x = if str_eq y x then true else contains ys x

-- The first loop of testHelpersPolicy: the tactics to modify later. A nil tactic has no host name.
unfoldable pub collect_todo : Stream → Outcome (List HttpsDialerTactic)
collect_todo [] = returned []
collect_todo (none ∷ tactics) = panicked
collect_todo (some tactic ∷ tactics) = do
  todo ← collect_todo tactics
  returned (if contains test_helpers_domains tactic.verify_hostname then tactic ∷ todo else todo)

unfoldable pub extended : World → ℕ → List HttpsDialerTactic → Stream
unfolding tactic_for
extended w n [] = []
extended w n (tactic ∷ todo) =
    map (λ sni. some (tactic_for tactic.address tactic.port sni tactic.verify_hostname))
      (w.helpers_order n bridges_domains)
    ++ extended w (n + 1) todo

unfoldable pub test_helpers_policy : World → Stream → Outcome Stream
test_helpers_policy w child = do todo ← collect_todo child; returned (child ++ extended w 0 todo)

unfoldable pub user_policy_remove_nil_entries : Stream → Stream
user_policy_remove_nil_entries [] = []
user_policy_remove_nil_entries (none ∷ input) = user_policy_remove_nil_entries input
user_policy_remove_nil_entries (some entry ∷ input) =
    some entry ∷ user_policy_remove_nil_entries input

found_tactics : Option Stream → Stream
found_tactics none = []
found_tactics (some tactics) = user_policy_remove_nil_entries tactics

unfoldable pub user_policy : UserPolicyRoot → String → String → Stream
unfolding found_tactics
user_policy root domain port =
    found_tactics (lookup (join_host_port domain port) (entries root.domain_endpoints))

-- The policies, and how they are built from one another.
pub data Policy : Type 0 where
  null dns bridges stats : Policy
  user : UserPolicyRoot → Policy
  test_helpers : Policy → Policy
  either_or : Policy → Policy → Policy
  interleave : ℕ → Policy → Policy → Policy

-- mixPolicyEitherOr asks the fallback only where the primary gave nothing.
either_or_asked : Stream → Outcome Stream → Outcome Stream
either_or_asked primary fallback =
    if ltb 0 (length primary)
    then returned (Mix.either_or primary [])
    else (do out ← fallback; returned (Mix.either_or primary out))

-- The loop of mixPolicyInterleave has the fuel that it needs.
ended : Option Stream → Outcome Stream
ended none = panicked
ended (some output) = returned output

unfoldable pub emitted : World → String → String → Policy → Outcome Stream
unfolding either_or_asked ended
emitted w domain port null = returned []
emitted w domain port dns = returned (dns_policy w domain port)
emitted w domain port bridges = returned (bridges_tactics_for_domain w domain port)
emitted w domain port stats = stats_policy w domain port
emitted w domain port (user root) = returned (user_policy root domain port)
emitted w domain port (test_helpers child) = emitted w domain port child >>= test_helpers_policy w
emitted w domain port (either_or primary fallback) =
    let asked = emitted w domain port fallback in
    emitted w domain port primary >>= λ tactics. either_or_asked tactics asked
emitted w domain port (interleave factor primary fallback) = do
  first ← emitted w domain port primary
  second ← emitted w domain port fallback
  ended (Mix.interleave factor first second)

-- newHTTPSDialerPolicy: whether there is a proxy URL, and the user policy that could be loaded.
unfoldable pub new_https_dialer_policy : Bool → Option UserPolicyRoot → Policy
new_https_dialer_policy true primary = dns
new_https_dialer_policy false none = interleave 3 (test_helpers dns) (interleave 3 stats bridges)
new_https_dialer_policy false (some root) =
    either_or (user root) (interleave 3 (test_helpers dns) (interleave 3 stats bridges))
