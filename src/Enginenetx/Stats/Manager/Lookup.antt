-- ===== src/Enginenetx/Stats/Manager/Lookup.antt =====
-- Looking up the tactics of an endpoint in stats without nil pointers.
use ooni_probe_engine.Prelude.{
  String, Bool, false, refl, Option, none, some, List, [], ◌∷◌, All, ltb, length,
}
use ooni_probe_engine.Prelude.Dict.{Dict, lookup}
use ooni_probe_engine.Prelude.Outcome.{returned, ◌>>=◌, Returns, returns, Returns-bind}
use ooni_probe_engine.Enginenetx.Tactic.{join_host_port}
use ooni_probe_engine.Enginenetx.Stats.Data.{
  StatsTactic, StatsDomainEndpoint, StatsContainer, entries, clone, clone_lem,
}
use ooni_probe_engine.Enginenetx.Stats.Events.Holds.{
  EntryHolds, TacticsHold, Holds, FoundHolds, Holds-found, Holds-entries,
}
use ooni_probe_engine.Enginenetx.Stats.Manager.{clone_entries, lookup_in, lookup_tactics}

module _ (P : String → StatsTactic → Type 0) where
  abbrev Q : String → String → StatsTactic → Type 0
  Q d k r = P d r

  clone_entries-Returns :
      (d : String) (m : Dict (Option StatsTactic))
      → All (EntryHolds (Q d)) m
      → Returns (All (P d)) (clone_entries m)
  unfolding clone_entries
  clone_entries-Returns d [] h = returns [] tt
  clone_entries-Returns d ((k, none) ∷ m) h = absurd h.0
  clone_entries-Returns d ((k, some r) ∷ m) h =
      Returns-bind (All (P d)) (All (P d)) _ (clone_entries-Returns d m h.1)
        (λ out ok. returns (clone r ∷ out) (rw clone_lem h.0, ok))

  abbrev FirstAll : String → List StatsTactic × Bool → Type 0
  FirstAll d p = All (P d) p.0

  tactics-Returns :
      (d : String) (m : Option (Dict (Option StatsTactic)))
      → TacticsHold (Q d) m
      → Returns
          (FirstAll d)
          (do out ← clone_entries (entries m); returned (out, ltb 0 (length out)))
  tactics-Returns d none h = absurd h
  tactics-Returns d (some m) h =
      Returns-bind (All (P d)) (FirstAll d) _ (clone_entries-Returns d m h)
        (λ out ok. returns (out, ltb 0 (length out)) ok)

  lookup_in-Returns :
      (d : String) (o : Option (Option StatsDomainEndpoint))
      → FoundHolds Q d o
      → Returns (FirstAll d) (lookup_in o)
  unfolding lookup_in
  lookup_in-Returns d none h = returns ([], false) tt
  lookup_in-Returns d (some none) h = absurd h
  lookup_in-Returns d (some (some e)) h = tactics-Returns d e.tactics h

  -- A lookup returns, and every record that it gives has the property that all the endpoint's records
  -- have.
  pub lookup_tactics-Returns :
      (c : StatsContainer) (domain port : String)
      → Holds Q c
      → Returns (λ p. All (P (join_host_port domain port)) p.0) (lookup_tactics c domain port)
  unfolding lookup_tactics
  lookup_tactics-Returns c domain port h =
      let d = join_host_port domain port in
      let m = entries c.domain_endpoints in
      lookup_in-Returns d (lookup d m)
        (Holds-found Q d m (lookup d m) (Holds-entries Q c.domain_endpoints h.endpoints) refl)
