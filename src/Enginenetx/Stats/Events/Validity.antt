-- ===== src/Enginenetx/Stats/Events/Validity.antt =====
-- The stats that a manager holds: no nil pointers, and each record under its tactic's summary key.
use ooni_probe_engine.Prelude.{String, ◌≡◌, refl, arith, Option, none, some, List, [], ◌∷◌, All-imp}
use ooni_probe_engine.Prelude.Int.{ℤ}
use ooni_probe_engine.Prelude.Dict.{Dict}
use ooni_probe_engine.Prelude.Outcome.{
  Outcome, returned, ◌>>=◌, Returns, returns, Returns-bind, Returns-imp,
}
use ooni_probe_engine.Prelude.Golang.{Float64, SliceStable}
use ooni_probe_engine.Enginenetx.Tactic.{HttpsDialerTactic, tactic_summary_key}
use ooni_probe_engine.Enginenetx.Tactic.Keys.{clone_lem}
use ooni_probe_engine.Enginenetx.Stats.Data.{StatsTactic, StatsDomainEndpoint, StatsContainer}
use ooni_probe_engine.Enginenetx.Stats.Prune.{stats_container_prune_entries}
use ooni_probe_engine.Enginenetx.Stats.Prune.Result.{
  KeyedBy, PrunedEntry, PrunedTactics, PrunedEndpoint, IsPruned, PrunedEndpoints,
  stats_container_prune_entries-IsPruned,
}
use ooni_probe_engine.Enginenetx.Stats.Events.{Event, handle, new_stats_tactic}
use ooni_probe_engine.Enginenetx.Stats.Events.Effects.{counted}
use ooni_probe_engine.Enginenetx.Stats.Events.Holds.{
  EntryHolds, TacticsHold, EndpointHolds, EndpointsHold, Holds,
}
use ooni_probe_engine.Enginenetx.Stats.Events.Safety.{handle-Holds}

abbrev pub KeyedRecord : String → String → StatsTactic → Type 0
KeyedRecord d k r = KeyedBy k r.tactic

abbrev pub IsValid : StatsContainer → Type 0
IsValid = Holds KeyedRecord

tactic-counted : (now : ℤ) (e : Event) (r : StatsTactic) → (counted now e r).tactic ≡ r.tactic
unfolding counted
tactic-counted now e r = ground arith

new-KeyedRecord :
    (d : String) (t : HttpsDialerTactic) → KeyedRecord d (tactic_summary_key t) (new_stats_tactic t)
unfolding new_stats_tactic
new-KeyedRecord d t = rw clone_lem refl

-- One event.
pub event-IsValid :
    (now : ℤ) (e : Event) (t : HttpsDialerTactic) (c : StatsContainer)
    → IsValid c
    → Returns IsValid (handle now e t c)
event-IsValid now e t c h =
    handle-Holds KeyedRecord t c now e (new-KeyedRecord "" t) (λ r q. rw tactic-counted q) h

-- One event, at a time, of a tactic.
pub record Occurrence : Type 0 where
  pub time : ℤ
  pub event : Event
  pub of_tactic : HttpsDialerTactic

-- The handlers called one after the other, as the mutex orders them; a trim comes between two events
-- at some time.
pub data Step : Type 0 where
  occurs : Occurrence → Step
  trims : (String → ℤ) → Step

module _ (F : Float64) (S : SliceStable StatsTactic) where
  unfoldable pub step : Step → StatsContainer → Outcome StatsContainer
  step (occurs o) c = handle o.time o.event o.of_tactic c
  step (trims now) c = stats_container_prune_entries F S now c

  unfoldable pub run : List Step → StatsContainer → Outcome StatsContainer
  run [] c = returned c
  run (s ∷ steps) c = step s c >>= λ c'. run steps c'

  PrunedEntry-EntryHolds :
      (now : ℤ) (k : String) (o : Option StatsTactic)
      → PrunedEntry now (k, o)
      → EntryHolds (KeyedRecord "") (k, o)
  PrunedEntry-EntryHolds now k none h = h
  PrunedEntry-EntryHolds now k (some r) h = h.0

  PrunedTactics-TacticsHold :
      (now : ℤ) (m : Option (Dict (Option StatsTactic)))
      → PrunedTactics now m
      → TacticsHold (KeyedRecord "") m
  PrunedTactics-TacticsHold now none h = h
  PrunedTactics-TacticsHold now (some m) h =
      All-imp (PrunedEntry now) (EntryHolds (KeyedRecord "")) m
        (λ x p. PrunedEntry-EntryHolds now x.0 x.1 p) h.2

  PrunedEndpoint-EndpointHolds :
      (now : String → ℤ) (d : String) (o : Option StatsDomainEndpoint)
      → PrunedEndpoint now (d, o)
      → EndpointHolds KeyedRecord (d, o)
  PrunedEndpoint-EndpointHolds now d none h = h
  PrunedEndpoint-EndpointHolds now d (some e) h = PrunedTactics-TacticsHold (now d) e.tactics h.1

  PrunedEndpoints-EndpointsHold :
      (now : String → ℤ) (m : Option (Dict (Option StatsDomainEndpoint)))
      → PrunedEndpoints now m
      → EndpointsHold KeyedRecord m
  PrunedEndpoints-EndpointsHold now none h = absurd h
  PrunedEndpoints-EndpointsHold now (some m) h =
      All-imp (PrunedEndpoint now) (EndpointHolds KeyedRecord) m
        (λ x p. PrunedEndpoint-EndpointHolds now x.0 x.1 p) h

  pub IsPruned-IsValid : (now : String → ℤ) (c : StatsContainer) → IsPruned now c → IsValid c
  IsPruned-IsValid now c h = record {
    endpoints = PrunedEndpoints-EndpointsHold now c.domain_endpoints h.endpoints;
  }

  pub step-IsValid : (s : Step) (c : StatsContainer) → IsValid c → Returns IsValid (step s c)
  unfolding step
  step-IsValid (occurs o) c h = event-IsValid o.time o.event o.of_tactic c h
  step-IsValid (trims now) c h =
      Returns-imp (IsPruned now) IsValid (IsPruned-IsValid now)
        (stats_container_prune_entries-IsPruned F S now c)

  -- From stats without nil pointers, each record under its tactic's summary key, any sequence of
  -- dialing events and trims returns, without a panic, and leaves such stats.
  pub run-IsValid :
      (steps : List Step) (c : StatsContainer) → IsValid c → Returns IsValid (run steps c)
  unfolding run
  run-IsValid [] c h = returns c h
  run-IsValid (s ∷ steps) c h =
      Returns-bind IsValid IsValid (λ c'. run steps c') (step-IsValid s c h)
        (λ c' valid. run-IsValid steps c' valid)
