-- ===== src/Engineresolver/Tests.antt =====
-- Concrete lookups, and the theorems on them.
use ooni_probe_engine.Engineresolver.Lookup.{new_resolver}
use ooni_probe_engine.Prelude.Dict.{lookup, insert}
use ooni_probe_engine.Prelude.Dict.{lookup}
use ooni_probe_engine.Kvstore.{memory_get}
use ooni_probe_engine.Prelude.{
  ℕ, ◌+◌, ◌*◌, ◌/◌, String, true, false, ◌≡◌, refl, Option, none, some, List, [], ◌∷◌, ltb, not,
  inl, inr, if◌then◌else◌, str_eq,
}
use ooni_probe_engine.Prelude.Golang.{SliceStable}
use ooni_probe_engine.Prelude.Dict.{Dict}
use ooni_probe_engine.Prelude.Outcome.{panicked, Returns}
use ooni_probe_engine.Kvstore.{KeyValueStore, memory}
use ooni_probe_engine.Prelude.Sorting.{insertion_sort, insertion_sort-perm}
use ooni_probe_engine.Engineresolver.State.{
  Scores, ResolverInfo, StateCodec, store_key, read_state, read_state_default,
}
use ooni_probe_engine.Engineresolver.State.Complete.{
  IsComplete, read_state_default-IsComplete, read_state_default_null,
}
use ooni_probe_engine.Engineresolver.Lookup.{Environment, get_resolver, lookup_loop, lookup_host}
use ooni_probe_engine.Engineresolver.Lookup.Frame.{Ended, error_urls}
use ooni_probe_engine.Engineresolver.Lookup.Exhausted.{
  Exhaustive, lookup_loop-Ended, lookup_host-Exhaustive,
}
use ooni_probe_engine.Engineresolver.Lookup.Cancel.{lookup_loop_canceled}

-- Scores in percents.
abbrev percents : Scores
percents = record {
  Score = ℕ;
  zero_score = 0;
  one_score = 100;
  ewma = 90;
  one_less_ewma = 10;
  add = λ a b. a + b;
  mul = λ a b. a * b / 100;
  geb = λ a b. not (ltb a b);
  initial = λ url. 50;
}

abbrev Info : Type 0
Info = ResolverInfo percents

abbrev info_sorter : SliceStable Info
info_sorter = record {
  sort = λ less l. insertion_sort less l;
  sort_perm = λ less l. insertion_sort-perm less l;
}

-- Documents are the entries.
abbrev Document : Type 0
Document = List (Option Info)

abbrev present : List Info → Document
present [] = []
present (e ∷ ri) = some e ∷ present ri

abbrev documents : StateCodec percents Document
documents = record { encode = λ ri. some (present ri); decode = λ d. some d }

abbrev files : KeyValueStore Document
files = memory Document

abbrev google : Info
google = record { url = "https://dns.google/dns-query"; score = 70 }

abbrev unknown : Info
unknown = record { url = "https://dns.example/dns-query"; score = 90 }

abbrev saved : Option (Option (Dict Document))
saved = some (some ((store_key, some google ∷ some unknown ∷ []) ∷ []))

abbrev broken : Option (Option (Dict Document))
broken = some (some ((store_key, some google ∷ none ∷ []) ∷ []))

read_state_default-IsComplete_example :
    Returns (IsComplete percents) (read_state_default percents info_sorter documents files saved)
unfolding read_state memory_get lookup
read_state_default-IsComplete_example =
    read_state_default-IsComplete percents info_sorter documents files saved (tt, (tt, tt))

read_state_default_null_example :
    read_state_default percents info_sorter documents files broken ≡ panicked
unfolding read_state memory_get lookup
read_state_default_null_example =
    read_state_default_null percents info_sorter documents files broken (some google ∷ none ∷ [])
      refl tt

-- The children are the URLs; one of them answers.
abbrev world : Environment String
world = record {
  make = λ http3 url. inr url;
  answer = λ n child hostname.
      if str_eq child "https://dns.google/dns-query" then inr ("8.8.8.8" ∷ []) else inl "timeout";
  ctx_err = λ n. none;
  url_scheme = λ url. some "https";
  has_http3_prefix = λ url. false;
  with_https_prefix = λ url. url;
}

abbrev over : Environment String
over = record world { ctx_err = λ n. some "interrupted" }

lookup_loop-Ended_example :
    Ended world true percents "ooni.org"
      (error_urls world true percents "ooni.org" [])
      (unknown ∷ google ∷ [])
      (lookup_loop world true percents 0 "ooni.org" [] [] (unknown ∷ google ∷ []))
lookup_loop-Ended_example =
    lookup_loop-Ended world true percents "ooni.org" 0 [] [] (unknown ∷ google ∷ [])

lookup_host-Exhaustive_example :
    Returns
      (λ p. Exhaustive world percents "ooni.org" p.0)
      (lookup_host world false percents info_sorter documents files true "ooni.org" [] saved)
unfolding read_state memory_get lookup
lookup_host-Exhaustive_example =
    lookup_host-Exhaustive world percents "ooni.org" info_sorter documents files true [] saved
      (tt, (tt, tt))

get_run : get_resolver world true [] "https://dns.google/dns-query" ≡ (
  inr "https://dns.google/dns-query",
  ("https://dns.google/dns-query", "https://dns.google/dns-query") ∷ [],
)
unfolding get_resolver lookup new_resolver insert
get_run = refl

lookup_loop_canceled_example :
    ((lookup_loop over false percents 0 "ooni.org" [] [] (unknown ∷ google ∷ [])).state
      ≡ unknown ∷ google ∷ [])
    × ((lookup_loop over false percents 0 "ooni.org" [] [] (unknown ∷ google ∷ [])).res ≡ [])
lookup_loop_canceled_example =
    lookup_loop_canceled over false percents "ooni.org" 0 [] [] (unknown ∷ google ∷ []) (λ m. refl)
