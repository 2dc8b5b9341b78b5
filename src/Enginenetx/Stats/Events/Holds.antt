-- ===== src/Enginenetx/Stats/Events/Holds.antt =====
-- A property of every record, by its endpoint's and its tactic's key, in a container without nil
-- pointers.
use ooni_probe_engine.Prelude.{
  String, ◌≡◌, refl, Option, none, some, [], All, leb, length, inl, inr, Bool-cases,
}
use ooni_probe_engine.Prelude.Dict.{Dict, lookup, All-insert, All-lookup}
use ooni_probe_engine.Prelude.Outcome.{Returns, returns, Returns-bind}
use ooni_probe_engine.Enginenetx.Tactic.{HttpsDialerTactic, tactic_summary_key, domain_endpoint_key}
use ooni_probe_engine.Enginenetx.Stats.Data.{
  StatsTactic, StatsDomainEndpoint, StatsContainer, entries,
}
use ooni_probe_engine.Enginenetx.Stats.Events.{
  record_in, get_stats_tactic, write_tactic, write_in, initialized, set_stats_tactic,
}

abbrev pub EntryHolds : (String → StatsTactic → Type 0) → String × Option StatsTactic → Type 0
EntryHolds Q (k, none) = ⊥
EntryHolds Q (k, some r) = Q k r

abbrev pub TacticsHold :
    (String → StatsTactic → Type 0) → Option (Dict (Option StatsTactic)) → Type 0
TacticsHold Q none = ⊥
TacticsHold Q (some m) = All (EntryHolds Q) m

abbrev pub EndpointHolds :
    (String → String → StatsTactic → Type 0) → String × Option StatsDomainEndpoint → Type 0
EndpointHolds Q (d, none) = ⊥
EndpointHolds Q (d, some e) = TacticsHold (Q d) e.tactics

abbrev pub EndpointsHold :
    (String → String → StatsTactic → Type 0) → Option (Dict (Option StatsDomainEndpoint)) → Type 0
EndpointsHold Q none = Unit
EndpointsHold Q (some m) = All (EndpointHolds Q) m

-- No nil endpoint, no nil map of tactics, no nil record, and `Q` of each record.
pub record Holds (Q : String → String → StatsTactic → Type 0) (c : StatsContainer) : Type 0 where
  pub endpoints : EndpointsHold Q c.domain_endpoints

module _ (Q : String → String → StatsTactic → Type 0) where
  pub Holds-entries :
      (d : Option (Dict (Option StatsDomainEndpoint)))
      → EndpointsHold Q d
      → All (EndpointHolds Q) (entries d)
  Holds-entries none h = tt
  Holds-entries (some m) h = h

  TacticsHold-lookup :
      (d k : String) (m : Option (Dict (Option StatsTactic))) (o : Option StatsTactic)
      → TacticsHold (Q d) m
      → lookup k (entries m) ≡ some o
      → (r : StatsTactic) × (o ≡ some r) × Q d k r
  TacticsHold-lookup d k none o h e = absurd h
  TacticsHold-lookup d k (some m) none h e = absurd (All-lookup (EntryHolds (Q d)) k none m h e)
  TacticsHold-lookup d k (some m) (some r) h e =
      (r, refl, All-lookup (EntryHolds (Q d)) k (some r) m h e)

  -- What `record_in` and `write_in` are given.
  abbrev pub FoundHolds : String → Option (Option StatsDomainEndpoint) → Type 0
  FoundHolds d none = Unit
  FoundHolds d (some o) = EndpointHolds Q (d, o)

  pub Holds-found :
      (d : String) (m : Dict (Option StatsDomainEndpoint)) (o : Option (Option StatsDomainEndpoint))
      → All (EndpointHolds Q) m
      → lookup d m ≡ o
      → FoundHolds d o
  Holds-found d m none h e = tt
  Holds-found d m (some o) h e = All-lookup (EndpointHolds Q) d o m h e

  record_in-Q :
      (d k : String) (o : Option (Option StatsDomainEndpoint)) (x : Option StatsTactic)
      → FoundHolds d o
      → record_in o k ≡ some x
      → (r : StatsTactic) × (x ≡ some r) × Q d k r
  unfolding record_in
  record_in-Q d k none x h e = cc
  record_in-Q d k (some none) x h e = absurd h
  record_in-Q d k (some (some ep)) x h e = TacticsHold-lookup d k ep.tactics x h e

  -- A record that is found is not nil, and has the property.
  pub get_stats_tactic-Q :
      (c : StatsContainer) (tactic : HttpsDialerTactic) (x : Option StatsTactic)
      → Holds Q c
      → get_stats_tactic c tactic ≡ some x
      → (r : StatsTactic) × (x ≡ some r)
        × Q (domain_endpoint_key tactic) (tactic_summary_key tactic) r
  unfolding get_stats_tactic
  get_stats_tactic-Q c tactic x h e =
      let d = domain_endpoint_key tactic in
      let m = entries c.domain_endpoints in
      record_in-Q d (tactic_summary_key tactic) (lookup d m) x
        (Holds-found d m (lookup d m) (Holds-entries c.domain_endpoints h.endpoints) refl) e

  write_tactic-Q :
      (d k : String) (m : Option (Dict (Option StatsTactic))) (r : StatsTactic)
      → TacticsHold (Q d) m
      → Q d k r
      → Returns (λ e. TacticsHold (Q d) e.tactics) (write_tactic m k r)
  unfolding write_tactic
  write_tactic-Q d k none r h q = absurd h
  write_tactic-Q d k (some m) r h q = returns _ (All-insert (EntryHolds (Q d)) k (some r) m q h)

  write_in-Q :
      (d k : String) (o : Option (Option StatsDomainEndpoint)) (r : StatsTactic)
      → FoundHolds d o
      → Q d k r
      → Returns (λ e. TacticsHold (Q d) e.tactics) (write_in o k r)
  unfolding write_in
  write_in-Q d k none r h q = write_tactic-Q d k (some []) r tt q
  write_in-Q d k (some none) r h q = absurd h
  write_in-Q d k (some (some e)) r h q = write_tactic-Q d k e.tactics r h q

  initialized-All :
      (d : Option (Dict (Option StatsDomainEndpoint)))
      → EndpointsHold Q d
      → All (EndpointHolds Q) (initialized d)
  unfolding initialized
  initialized-All d h = elim (Bool-cases (leb (length (entries d)) 0)) [
    | inl empty ↦ rw empty tt
    | inr filled ↦ rw filled (Holds-entries d h)
  ]

  -- Storing a record does not panic, and keeps the property if the record has it.
  pub set_stats_tactic-Holds :
      (c : StatsContainer) (tactic : HttpsDialerTactic) (r : StatsTactic)
      → Q (domain_endpoint_key tactic) (tactic_summary_key tactic) r
      → Holds Q c
      → Returns (Holds Q) (set_stats_tactic c tactic r)
  unfolding set_stats_tactic
  set_stats_tactic-Holds c tactic r q h =
      let d = domain_endpoint_key tactic in
      let m = entries c.domain_endpoints in
      Returns-bind (λ e. TacticsHold (Q d) e.tactics) (Holds Q) _
        (write_in-Q d (tactic_summary_key tactic) (lookup d m) r
          (Holds-found d m (lookup d m) (Holds-entries c.domain_endpoints h.endpoints) refl) q)
        (λ e kept. returns _ (record {
          endpoints =
              All-insert (EndpointHolds Q) d (some e) (initialized c.domain_endpoints) kept
                (initialized-All c.domain_endpoints h.endpoints);
        }))
