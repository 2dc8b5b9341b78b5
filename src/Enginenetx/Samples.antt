-- ===== src/Enginenetx/Samples.antt =====
-- Concrete instances of what the code takes from elsewhere, and concrete stats, for the tests.
use mathlib.Core.Option.{some-injective}
use ooni_probe_engine.Prelude.{
  ap, sym, ℕ, ◌*◌, ◌/◌, true, false, ◌≡◌, refl, arith, none, some, [], ◌∷◌, ltb,
}
use ooni_probe_engine.Prelude.Int.{ℤ, pos}
use ooni_probe_engine.Prelude.Sorting.{insertion_sort, insertion_sort-perm}
use ooni_probe_engine.Prelude.Golang.{Float64, SliceStable}
use ooni_probe_engine.Kvstore.{KeyValueStore, memory}
use ooni_probe_engine.Enginenetx.Tactic.{HttpsDialerTactic, tactic_summary_key, domain_endpoint_key}
use ooni_probe_engine.Enginenetx.Stats.Data.{StatsTactic, StatsContainer, stats_container_version}
use ooni_probe_engine.Enginenetx.Stats.Events.{new_stats_tactic, get_stats_tactic}
use ooni_probe_engine.Enginenetx.Stats.Events.Validity.{IsValid}
use ooni_probe_engine.Enginenetx.Stats.Manager.{ContainerCodec}

-- Fixed-point numbers with three digits.
unfoldable pub thousandths : ℤ → ℤ → ℕ
thousandths (pos a) (pos b) = a * 1000 / b
thousandths a b = 0

pub gtb_asym : (x y : ℕ) → ltb y x ≡ true → ltb x y ≡ false
gtb_asym x y h = ground arith

unfoldable pub floats : Float64
floats = record {
  Float = ℕ;
  zero_float = 0;
  divide = thousandths;
  gtb = λ x y. ltb y x;
  gtb_asym = gtb_asym;
}

unfoldable pub sorter : SliceStable StatsTactic
sorter = record {
  sort = λ less l. insertion_sort less l;
  sort_perm = λ less l. insertion_sort-perm less l;
}

-- A codec whose documents are the containers.
unfoldable pub codec : ContainerCodec StatsContainer
codec = record {
  marshal = λ c. some c;
  unmarshal = λ c. some c;
  unmarshal-marshal = λ c bytes e. (
    bytes,
    refl,
    ap (λ (d : StatsContainer). d.version) (sym (some-injective c bytes e)),
    λ t. ap (λ d. get_stats_tactic d t) (sym (some-injective c bytes e)),
  );
}

abbrev pub store : KeyValueStore StatsContainer
store = memory StatsContainer

-- Tactics and records.
abbrev pub backend : HttpsDialerTactic
backend = record {
  address = "162.55.247.208";
  initial_delay = pos 0;
  port = "443";
  sni = "www.example.com";
  verify_hostname = "api.ooni.io";
}

abbrev pub backend_v6 : HttpsDialerTactic
backend_v6 = record backend { address = "2001:db8::1"; sni = "api.ooni.io" }

-- Ten starts and seven successes, three failed connects.
abbrev pub backend_record : StatsTactic
backend_record = record (new_stats_tactic backend) {
  count_started = pos 10;
  count_tcp_connect_error = pos 3;
  count_success = pos 7;
  last_updated = pos 1000;
  tactic = some backend;
}

-- Four starts and four successes.
abbrev pub backend_v6_record : StatsTactic
backend_v6_record = record backend_record {
  count_started = pos 4;
  count_tcp_connect_error = pos 0;
  count_success = pos 4;
  tactic = some backend_v6;
}

abbrev pub some_stats : StatsContainer
some_stats = record {
  domain_endpoints = some (
      (
        domain_endpoint_key backend,
        some (record {
          tactics = some (
              (tactic_summary_key backend, some backend_record)
              ∷ (tactic_summary_key backend_v6, some backend_v6_record)
              ∷ []);
        }),
      )
      ∷ []);
  version = stats_container_version;
}

-- Stats as a user may have edited them: a nil record, a record without a tactic, an empty name.
abbrev pub edited_stats : StatsContainer
edited_stats = record {
  domain_endpoints = some (
      ("", none)
      ∷ (
        "api.ooni.io:443",
        some (record {
          tactics = some (
              ("", none)
              ∷ ("a", some (record backend_record { tactic = none }))
              ∷ ("b", some backend_record)
              ∷ []);
        }),
      )
      ∷ ("a.b:1", some (record { tactics = none }))
      ∷ []);
  version = stats_container_version;
}

pub some_stats-IsValid : IsValid some_stats
some_stats-IsValid = record { endpoints = ((refl, (refl, tt)), tt) }
