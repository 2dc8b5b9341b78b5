-- ===== src/Minipipeline/Environment.antt =====
-- What pkg/minipipeline calls: Go's standard library, the lookupper of its callers and the predicates
-- on addresses of pkg/netxlite.
use ooni_probe_engine.Prelude.{ℕ, String, Bool, Option, List}
use ooni_probe_engine.Prelude.Int.{ℤ}

pub record Environment : Type 0 where
  pub lookup_asn : String → Option ℕ  -- model.GeoIPASNLookupper; none for an error
  pub is_bogon : String → Bool  -- netxlite.IsBogon
  pub is_ipv6 : String → Option Bool  -- netxlite.IsIPv6; none for an error
  pub itoa : ℤ → String  -- strconv.Itoa
  pub parse_int : String → Option ℤ  -- strconv.ParseInt(s, 10, 64); none for an error
  pub hostname : String → Option String  -- url.Parse and URL.Hostname; none for an error
  pub to_lower : String → String  -- strings.ToLower
  pub split_words : String → List String  -- strings.Split(s, " ")
  pub byte_length : String → ℕ  -- len(s)
  pub web_get_title : String → String  -- measurexlite.WebGetTitle
