-- ===== src/Enginenetx/Stats/Events/Slots.antt =====
-- The container as a map from the two keys of a tactic to its record.
use ooni_probe_engine.Prelude.{
  String, ◌≡◌, refl, subst, arith, ◌&&◌, Bool, true, Option, none, some, [], ◌∷◌, leb, length,
  str_eq, eq_iff, if◌then◌else◌, inl, inr, Bool-cases,
}
use ooni_probe_engine.Prelude.Dict.{Dict, lookup, insert, lookup-insert}
use ooni_probe_engine.Prelude.Outcome.{returned, >>=-returned, returned_inj}
use ooni_probe_engine.Enginenetx.Tactic.{HttpsDialerTactic, tactic_summary_key, domain_endpoint_key}
use ooni_probe_engine.Enginenetx.Stats.Data.{
  StatsTactic, StatsDomainEndpoint, StatsContainer, entries,
}
use ooni_probe_engine.Enginenetx.Stats.Events.{
  record_in, get_stats_tactic, write_tactic, write_in, initialized, set_stats_tactic,
}

-- Two tactics share a record.
abbrev pub same_slot : HttpsDialerTactic → HttpsDialerTactic → Bool
same_slot t u =
    str_eq (domain_endpoint_key t) (domain_endpoint_key u)
    && str_eq (tactic_summary_key t) (tactic_summary_key u)

write_tactic-record_in :
    (m : Option (Dict (Option StatsTactic))) (k : String) (r : StatsTactic)
    (e : StatsDomainEndpoint)
    → write_tactic m k r ≡ returned e
    → (j : String)
    → record_in (some (some e)) j ≡ (if str_eq k j then some (some r) else lookup j (entries m))
unfolding write_tactic record_in
write_tactic-record_in none k r e h j = cc
write_tactic-record_in (some m) k r e h j = ground (arith, lookup-insert k j (some r) m)

write_in-record_in :
    (o : Option (Option StatsDomainEndpoint)) (k : String) (r : StatsTactic)
    (e : StatsDomainEndpoint)
    → write_in o k r ≡ returned e
    → (j : String)
    → record_in (some (some e)) j ≡ (if str_eq k j then some (some r) else record_in o j)
unfolding write_in record_in
write_in-record_in none k r e h j = unfold lookup in write_tactic-record_in (some []) k r e h j
write_in-record_in (some none) k r e h j = cc
write_in-record_in (some (some x)) k r e h j = write_tactic-record_in x.tactics k r e h j

initialized_lem : (m : Dict (Option StatsDomainEndpoint)) → (if leb (length m) 0 then [] else m) ≡ m
initialized_lem [] = refl
initialized_lem (x ∷ m) = ground arith

initialized-eq-entries :
    (d : Option (Dict (Option StatsDomainEndpoint))) → initialized d ≡ entries d
unfolding initialized
initialized-eq-entries d = initialized_lem (entries d)

slot_after :
    (m : Dict (Option StatsDomainEndpoint)) (d k du j : String) (r : StatsTactic)
    (e : StatsDomainEndpoint)
    → write_in (lookup d m) k r ≡ returned e
    → record_in (lookup du (insert d (some e) m)) j
      ≡ (if str_eq d du && str_eq k j then some (some r) else record_in (lookup du m) j)
slot_after m d k du j r e written = elim (Bool-cases (str_eq d du)) [
  | inl same ↦
      rw (lookup-insert, same, ← (eq_iff d du).0 same)
        (write_in-record_in (lookup d m) k r e written j)
  | inr other ↦ rw (lookup-insert, other)
]

-- After a record is stored, its slot holds it, and every other slot holds what it held.
pub get-set_stats_tactic :
    (c c' : StatsContainer) (t u : HttpsDialerTactic) (r : StatsTactic)
    → set_stats_tactic c t r ≡ returned c'
    → get_stats_tactic c' u ≡ (if same_slot t u then some (some r) else get_stats_tactic c u)
unfolding set_stats_tactic get_stats_tactic
get-set_stats_tactic c c' t u r h =
    let d = domain_endpoint_key t in
    let k = tactic_summary_key t in
    let m = entries c.domain_endpoints in
    let (e, written, stored) = >>=-returned (write_in (lookup d m) k r) _ h in
    subst
      (λ x. get_stats_tactic x u ≡ (if same_slot t u then some (some r) else get_stats_tactic c u))
      (returned_inj _ c' stored)
      (rw initialized-eq-entries
        (slot_after m d k (domain_endpoint_key u) (tactic_summary_key u) r e written))

-- Tactics that share a slot find the same record.
pub get-same_slot :
    (c : StatsContainer) (t u : HttpsDialerTactic)
    → same_slot t u ≡ true
    → get_stats_tactic c u ≡ get_stats_tactic c t
unfolding get_stats_tactic
get-same_slot c t u h =
    let endpoints : domain_endpoint_key t ≡ domain_endpoint_key u =
      ground (arith, eq_iff (domain_endpoint_key t) (domain_endpoint_key u)) in
    let summaries : tactic_summary_key t ≡ tactic_summary_key u =
      ground (arith, eq_iff (tactic_summary_key t) (tactic_summary_key u)) in
    cc
