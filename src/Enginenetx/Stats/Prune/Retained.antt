-- ===== src/Enginenetx/Stats/Prune/Retained.antt =====
-- Which entries of an endpoint pruning retains.
use ooni_probe_engine.Prelude.{
  String, ◌≡◌, Bool, false, not, ◌&&◌, ◌||◌, Option, none, some, List, [], ◌∷◌, is_set, str_eq,
  if◌then◌else◌,
}
use ooni_probe_engine.Prelude.Int.{ℤ, pos, ltb_ℤ, ◌+ℤ◌}
use ooni_probe_engine.Prelude.Dict.{Dict, lookup}
use ooni_probe_engine.Enginenetx.Tactic.{HttpsDialerTactic, tactic_summary_key}
use ooni_probe_engine.Enginenetx.Stats.Data.{StatsTactic, StatsDomainEndpoint, entries}

-- The records of an endpoint that have a name and a tactic and were updated less than 7 * 24 hours of
-- nanoseconds before the time.
unfoldable pub recents : ℤ → Dict (Option StatsTactic) → List StatsTactic
recents now [] = []
recents now ((summary, none) ∷ m) = recents now m
recents now ((summary, some r) ∷ m) =
    if not (str_eq summary "")
      && (is_set r.tactic && ltb_ℤ now (r.last_updated +ℤ pos 604800000000000))
    then r ∷ recents now m
    else recents now m

abbrev pub has_summary : Option HttpsDialerTactic → String → Bool
has_summary none key = false
has_summary (some t) key = str_eq (tactic_summary_key t) key

-- Some record is about a tactic with the summary key.
unfoldable pub any_summary : List StatsTactic → String → Bool
any_summary [] key = false
any_summary (r ∷ l) key = has_summary r.tactic key || any_summary l key

-- The endpoint has an entry for the summary key exactly when one of the records has it.
unfoldable pub Retains : List StatsTactic → String → StatsDomainEndpoint → Type 0
Retains l key e = is_set (lookup key (entries e.tactics)) ≡ any_summary l key
