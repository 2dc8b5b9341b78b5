-- ===== src/Enginenetx/Stats/Prune.antt =====
-- statsDomainEndpointPruneEntries and statsContainerPruneEntries of statsmanager.go.
pub mod Result
pub mod Retained
use ooni_probe_engine.Prelude.{
  ℕ, ◌*◌, String, Bool, true, false, not, ◌||◌, Option, none, some, List, [], ◌∷◌, ltb, leb, length,
  take, str_eq, is_set, if◌then◌else◌,
}
use ooni_probe_engine.Prelude.Int.{ℤ, pos, ltb_ℤ}
use ooni_probe_engine.Prelude.Dict.{Dict, insert}
use ooni_probe_engine.Prelude.Golang.{Float64, SliceStable, sub_time}
use ooni_probe_engine.Prelude.Outcome.{Outcome, returned, panicked, ◌>>=◌}
use ooni_probe_engine.Enginenetx.Tactic.{HttpsDialerTactic, tactic_summary_key}
use ooni_probe_engine.Enginenetx.Stats.Data.{
  StatsTactic, StatsDomainEndpoint, StatsContainer, entries, new_stats_container,
  stats_container_version,
}
use ooni_probe_engine.Enginenetx.Stats.Sorting.{
  stats_nil_safe_last_updated, sort_with_accept_predicate,
}

-- 7 * 24 * time.Hour
abbrev pub one_week : ℕ
one_week = 7 * 24 * 3600000000000

abbrev pub max_entries_per_domain_endpoint : ℕ
max_entries_per_domain_endpoint = 10

abbrev pub is_malformed : Option StatsTactic → Bool
is_malformed none = true
is_malformed (some t) = not (is_set t.tactic)

-- The first loop: the entries that are not malformed.
unfoldable pub collect : Dict (Option StatsTactic) → List (Option StatsTactic)
collect [] = []
collect ((summary, tactic) ∷ input) =
    if str_eq summary "" || is_malformed tactic then collect input else tactic ∷ collect input

-- The accept predicate: the entry was updated less than a week ago.
unfoldable pub is_recent : ℤ → Option StatsTactic → Bool
is_recent now st = ltb_ℤ (sub_time now (stats_nil_safe_last_updated st)) (pos one_week)

unfoldable pub cut_excess : List StatsTactic → List StatsTactic
cut_excess tactics =
    if ltb max_entries_per_domain_endpoint (length tactics)
    then take max_entries_per_domain_endpoint tactics
    else tactics

-- output.Tactics[t.Tactic.tacticSummaryKey()] = t
unfoldable pub store_by_key :
    Option HttpsDialerTactic
    → StatsTactic
    → Dict (Option StatsTactic)
    → Outcome (Dict (Option StatsTactic))
store_by_key none t output = panicked
store_by_key (some tactic) t output = returned (insert (tactic_summary_key tactic) (some t) output)

-- The last loop.
unfoldable pub store_all :
    List StatsTactic → Dict (Option StatsTactic) → Outcome (Dict (Option StatsTactic))
store_all [] output = returned output
store_all (t ∷ tactics) output = store_by_key t.tactic t output >>= λ m. store_all tactics m

abbrev pub has_no_tactics : Option StatsDomainEndpoint → Bool
has_no_tactics none = true
has_no_tactics (some e) = leb (length (entries e.tactics)) 0

module _ (F : Float64) (S : SliceStable StatsTactic) (now : ℤ) where
  unfoldable pub stats_domain_endpoint_prune_entries :
      StatsDomainEndpoint → Outcome StatsDomainEndpoint
  stats_domain_endpoint_prune_entries input = do
    let recent = sort_with_accept_predicate F S (collect (entries input.tactics)) (is_recent now)
    output ← store_all (cut_excess recent) []
    returned (record { tactics = some output })

-- Each endpoint is pruned at its own reading of the clock.
module _ (F : Float64) (S : SliceStable StatsTactic) (clock : String → ℤ) where
  -- The body of the loop: `output` after one domain endpoint.
  unfoldable pub prune_endpoint :
      String
      → Option StatsDomainEndpoint
      → Dict (Option StatsDomainEndpoint)
      → Outcome (Dict (Option StatsDomainEndpoint))
  prune_endpoint domain_epnt none output = returned output
  prune_endpoint domain_epnt (some input_stats) output =
      if str_eq domain_epnt "" || has_no_tactics (some input_stats) then returned output else do
        pruned_stats ← stats_domain_endpoint_prune_entries F S (clock domain_epnt) input_stats
        returned (
            if has_no_tactics (some pruned_stats)
            then output
            else insert domain_epnt (some pruned_stats) output)

  unfoldable pub prune_endpoints :
      Dict (Option StatsDomainEndpoint)
      → Dict (Option StatsDomainEndpoint)
      → Outcome (Dict (Option StatsDomainEndpoint))
  prune_endpoints [] output = returned output
  prune_endpoints ((domain_epnt, input_stats) ∷ input) output =
      prune_endpoint domain_epnt input_stats output >>= λ m. prune_endpoints input m

  unfoldable pub stats_container_prune_entries : StatsContainer → Outcome StatsContainer
  stats_container_prune_entries input = do
    output ← prune_endpoints (entries input.domain_endpoints) []
    returned (record { domain_endpoints = some output; version = stats_container_version })
