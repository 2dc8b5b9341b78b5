-- ===== src/Minipipeline/Utils.antt =====
-- pkg/minipipeline/utils.go.
use Prim.Native.Char.{code}
use ooni_probe_engine.Prelude.{
  ◌==◌, String, Bool, false, ◌&&◌, ◌||◌, Option, none, some, List, [], ◌∷◌, map, str_eq,
  if◌then◌else◌,
}
use ooni_probe_engine.Prelude.Int.{ℤ, pos}
use ooni_probe_engine.Prelude.Dict.{Dict}
use ooni_probe_engine.Prelude.Keys.{int_eq, string_key}
use ooni_probe_engine.Optional.{unwrap_or}
use ooni_probe_engine.Minipipeline.Set.{Set, new_set}
use ooni_probe_engine.Minipipeline.Archival.{ArchivalDnsAnswer}
use ooni_probe_engine.Minipipeline.Environment.{Environment}
use ooni_probe_engine.Minipipeline.Observation.{WebObservation}
use ooni_probe_engine.Minipipeline.DnsDiff.{asn_key}
use ooni_probe_engine.Minipipeline.HttpDiff.{hundreds}

-- utilsStringPointerToString
abbrev pub string_pointer_to_string : Option String → String
string_pointer_to_string none = ""
string_pointer_to_string (some failure) = failure

unfoldable pub extract_http_header_keys : Dict String → Option (Set String)
extract_http_header_keys input = some (new_set (map (λ (entry : String × String). entry.0) input))

-- The rest of a string after a prefix.
unfoldable pub strip_prefix : String → String → Option String
strip_prefix String.[] tag = some tag
strip_prefix (String.◌∷◌ c prefix) String.[] = none
strip_prefix (String.◌∷◌ c prefix) (String.◌∷◌ d tag) =
    let rest = strip_prefix prefix tag in if code c == code d then rest else none

unfoldable pub determine_whether_http_response_is_final : ℤ → Option Bool
unfolding hundreds
determine_whether_http_response_is_final status =
    let class = hundreds status in
    some (int_eq class (pos 2) || int_eq class (pos 4) || int_eq class (pos 5))

unfoldable pub resolved_addresses : List ArchivalDnsAnswer → List String
resolved_addresses [] = []
resolved_addresses (ans ∷ answers) =
    let addrs = resolved_addresses answers in
    if str_eq ans.answer_type "A"
    then ans.ipv4 ∷ addrs
    else if str_eq ans.answer_type "AAAA"
    then ans.ipv6 ∷ addrs
    else addrs

unfoldable pub engine_is_getaddrinfo : Option String → Bool
engine_is_getaddrinfo engine =
    let name = unwrap_or engine "" in str_eq name "getaddrinfo" || str_eq name "golang_net_resolver"

-- The loop of utilsExtractTagFetchBody, and its variable `result`.
unfoldable pub fetch_body_from : List String → Option Bool → Option Bool
fetch_body_from [] result = result
fetch_body_from (tag ∷ tags) result = fetch_body_from tags (elim (strip_prefix "fetch_body=" tag) [
  | none ↦ result
  | some value ↦ some (str_eq value "true")
])

unfoldable pub extract_tag_fetch_body : List String → Option Bool
unfolding fetch_body_from
extract_tag_fetch_body tags = fetch_body_from tags none

abbrev pub failure_dns_no_answer : String
failure_dns_no_answer = "dns_no_answer"

abbrev pub failure_network_unreachable : String
failure_network_unreachable = "network_unreachable"

abbrev pub failure_host_unreachable : String
failure_host_unreachable = "host_unreachable"

unfoldable pub dns_lookup_failure_is_dns_no_answer_for_aaaa : WebObservation → Bool
dns_lookup_failure_is_dns_no_answer_for_aaaa obs =
    str_eq (unwrap_or obs.dns_query_type "") "AAAA"
    && str_eq (unwrap_or obs.dns_lookup_failure "") failure_dns_no_answer

unfoldable pub dns_engine_is_dns_over_https : WebObservation → Bool
dns_engine_is_dns_over_https obs = str_eq (unwrap_or obs.dns_engine "") "doh"

module _ (env : Environment) where
  unfoldable pub geoipx_lookup_asn : String → Option ℤ
  unfolding asn_key
  geoipx_lookup_asn ip_address = asn_key (env.lookup_asn ip_address)

  unfoldable pub extract_http_location : Dict String → Option String
  extract_http_location [] = none
  extract_http_location ((key, value) ∷ input) =
      if str_eq (env.to_lower key) "location" then some value else extract_http_location input

  -- The loop of utilsExtractTagDepth, and its variable `result`.
  depth_after : Option String → Option ℤ → Option ℤ
  depth_after none result = result
  depth_after (some value) result = elim (env.parse_int value) [
    | none ↦ result
    | some depth ↦ some depth
  ]

  unfoldable pub depth_from : List String → Option ℤ → Option ℤ
  unfolding depth_after
  depth_from [] result = result
  depth_from (tag ∷ tags) result = depth_from tags (depth_after (strip_prefix "depth=" tag) result)

  unfoldable pub extract_tag_depth : List String → Option ℤ
  unfolding depth_from
  extract_tag_depth tags = depth_from tags none

  unfoldable pub tcp_connect_failure_seems_misconfigured_ipv6 : WebObservation → Bool
  tcp_connect_failure_seems_misconfigured_ipv6 obs =
      let failure = unwrap_or obs.tcp_connect_failure "" in
      (str_eq failure failure_network_unreachable || str_eq failure failure_host_unreachable)
      && unwrap_or (env.is_ipv6 (unwrap_or obs.ip_address "")) false
