-- ===== src/Enginenetx/Stats/Prune/Result.antt =====
-- What is left after pruning, whatever a user wrote into the stats on the disk.
use ooni_probe_engine.Prelude.{
  ℕ, suc, ◌+◌, ◌≤◌, ◌<◌, String, ◌≡◌, ◌≢◌, refl, sym, ap, arith, Bool, true, false, ◌||◌, Option,
  none, some, List, [], ◌∷◌, length, keep, All, All-take, All-both, length-take-le, is_set, str_eq,
  eq_iff, ltb, inl, inr, Bool-cases, leb, subst, if◌then◌else◌,
}
use ooni_probe_engine.Prelude.Int.{ℤ, pos, ◌<ℤ◌, ◌+ℤ◌, ◌-ℤ◌}
use ooni_probe_engine.Prelude.Dict.{Dict, insert, All-insert, length-insert-le}
use ooni_probe_engine.Prelude.Perms.{All-Perm, All-keep, All-keep_test, Perm-symm}
use ooni_probe_engine.Prelude.Golang.{Float64, SliceStable, sub_time}
use ooni_probe_engine.Prelude.Outcome.{returned, Returns, returns, Returns-bind}
use ooni_probe_engine.Enginenetx.Tactic.{HttpsDialerTactic, tactic_summary_key}
use ooni_probe_engine.Enginenetx.Stats.Data.{
  StatsTactic, StatsDomainEndpoint, StatsContainer, entries, stats_container_version,
}
use ooni_probe_engine.Enginenetx.Stats.Sorting.{
  stats_nil_safe_last_updated, sort_with_accept_predicate,
}
use ooni_probe_engine.Enginenetx.Stats.Sorting.Laws.{
  HasTactic, well_formed, All-well_formed, sort_with_accept_predicate-perm,
}
use ooni_probe_engine.Enginenetx.Stats.Prune.{
  max_entries_per_domain_endpoint, collect, is_recent, cut_excess, store_by_key, store_all,
  has_no_tactics, stats_domain_endpoint_prune_entries, prune_endpoint, prune_endpoints,
  stats_container_prune_entries,
}

abbrev pub KeyedBy : String → Option HttpsDialerTactic → Type 0
KeyedBy k none = ⊥
KeyedBy k (some t) = k ≡ tactic_summary_key t

-- Less than 7 * 24 hours of nanoseconds lie between the two times.
abbrev pub IsWithinWeek : ℤ → ℤ → Type 0
IsWithinWeek now updated = now <ℤ updated +ℤ pos 604800000000000

is_recent-IsWithinWeek :
    (now : ℤ) (t : StatsTactic) → is_recent now (some t) ≡ true → IsWithinWeek now t.last_updated
unfolding is_recent stats_nil_safe_last_updated sub_time ◌-ℤ◌ ◌+ℤ◌
is_recent-IsWithinWeek now t h = ground arith

-- An entry with a record of less than a week ago, with a tactic, under the tactic's summary key.
abbrev pub PrunedEntry : ℤ → String × Option StatsTactic → Type 0
PrunedEntry now (k, none) = ⊥
PrunedEntry now (k, some r) = KeyedBy k r.tactic × IsWithinWeek now r.last_updated

abbrev pub PrunedTactics : ℤ → Option (Dict (Option StatsTactic)) → Type 0
PrunedTactics now none = ⊥
PrunedTactics now (some m) = (0 < length m) × (length m ≤ 10) × All (PrunedEntry now) m

-- An endpoint with a name and one to ten such entries.
abbrev pub PrunedEndpoint : (String → ℤ) → String × Option StatsDomainEndpoint → Type 0
PrunedEndpoint clock (k, none) = ⊥
PrunedEndpoint clock (k, some e) = (k ≢ "") × PrunedTactics (clock k) e.tactics

abbrev pub PrunedEndpoints : (String → ℤ) → Option (Dict (Option StatsDomainEndpoint)) → Type 0
PrunedEndpoints clock none = ⊥
PrunedEndpoints clock (some m) = All (PrunedEndpoint clock) m

pub record IsPruned (clock : String → ℤ) (c : StatsContainer) : Type 0 where
  pub current : c.version ≡ stats_container_version
  pub endpoints : PrunedEndpoints clock c.domain_endpoints

-- What the sorted list holds.
abbrev Selected : ℤ → StatsTactic → Type 0
Selected now t = HasTactic t × (is_recent now (some t) ≡ true)

module _ (F : Float64) (S : SliceStable StatsTactic) (now : ℤ) where
  Selected-sort :
      (input : List (Option StatsTactic))
      → All (Selected now) (sort_with_accept_predicate F S input (is_recent now))
  Selected-sort input =
      let test : StatsTactic → Bool = λ t. is_recent now (some t) in
      All-Perm (Selected now)
        (Perm-symm (sort_with_accept_predicate-perm F S input (is_recent now)))
        (All-both HasTactic (λ t. is_recent now (some t) ≡ true) (keep test (well_formed input))
          (All-keep HasTactic test (well_formed input) (All-well_formed input))
          (All-keep_test test (well_formed input)))

  cut_excess-All : (l : List StatsTactic) → All (Selected now) l → All (Selected now) (cut_excess l)
  unfolding cut_excess
  cut_excess-All l h = elim (Bool-cases (ltb 10 (length l))) [
    | inl long ↦ rw long (All-take (Selected now) 10 l h)
    | inr short ↦ rw short h
  ]

  cut_excess_bound :
      (l : List StatsTactic) → length (cut_excess l) ≤ max_entries_per_domain_endpoint
  unfolding cut_excess
  cut_excess_bound l = ground (arith, length-take-le 10 l)

  -- What is stored so far, when `n` entries at most have been stored.
  abbrev StoredSoFar : ℕ → Dict (Option StatsTactic) → Type 0
  StoredSoFar n m = (length m ≤ n) × All (PrunedEntry now) m

  store_by_key-Returns :
      (tactic : Option HttpsDialerTactic) (t : StatsTactic) (output : Dict (Option StatsTactic))
      (n : ℕ)
      → t.tactic ≡ tactic
      → Selected now t
      → StoredSoFar n output
      → Returns (StoredSoFar (suc n)) (store_by_key tactic t output)
  unfolding store_by_key
  store_by_key-Returns none t output n e s h = absurd (cc (s.0, ap is_set e))
  store_by_key-Returns (some tactic) t output n e s h =
      let key = tactic_summary_key tactic in
      returns (insert key (some t) output) (
        omega (arith, length-insert-le key (some t) output),
        All-insert (PrunedEntry now) key (some t) output
            (subst (KeyedBy key) (sym e) refl, is_recent-IsWithinWeek now t s.1) h.1,
      )

  store_all-Returns :
      (tactics : List StatsTactic) (output : Dict (Option StatsTactic)) (n k : ℕ)
      → n + length tactics ≤ k
      → All (Selected now) tactics
      → StoredSoFar n output
      → Returns (StoredSoFar k) (store_all tactics output)
  unfolding store_all
  store_all-Returns [] output n k room s h = returns output (omega arith, h.1)
  store_all-Returns (t ∷ tactics) output n k room s h =
      Returns-bind (StoredSoFar (suc n)) (StoredSoFar k) (λ m. store_all tactics m)
        (store_by_key-Returns t.tactic t output n refl s.0 h)
        (λ m stored. store_all-Returns tactics m (suc n) k (omega arith) s.1 stored)

  -- An endpoint after pruning, which may have become empty.
  abbrev PrunedOrEmpty : StatsDomainEndpoint → Type 0
  PrunedOrEmpty e =
      (is_set e.tactics ≡ true) × StoredSoFar max_entries_per_domain_endpoint (entries e.tactics)

  prune_entries-Returns :
      (input : StatsDomainEndpoint)
      → Returns PrunedOrEmpty (stats_domain_endpoint_prune_entries F S now input)
  unfolding stats_domain_endpoint_prune_entries
  prune_entries-Returns input =
      let recent =
        sort_with_accept_predicate F S (collect (entries input.tactics)) (is_recent now) in
      Returns-bind (StoredSoFar max_entries_per_domain_endpoint) PrunedOrEmpty
        (λ m. returned (record { tactics = some m }))
        (store_all-Returns (cut_excess recent) [] 0 max_entries_per_domain_endpoint
          (omega (arith, cut_excess_bound recent))
          (cut_excess-All recent (Selected-sort (collect (entries input.tactics))))
          (omega arith, tt))
        (λ m stored. returns (record { tactics = some m }) (refl, stored))

  PrunedTactics-intro :
      (m : Option (Dict (Option StatsTactic)))
      → is_set m ≡ true
      → StoredSoFar max_entries_per_domain_endpoint (entries m)
      → leb (length (entries m)) 0 ≡ false
      → PrunedTactics now m
  PrunedTactics-intro none present stored kept = cc
  PrunedTactics-intro (some m) present stored kept = (ground arith, stored.0, stored.1)

module _ (F : Float64) (S : SliceStable StatsTactic) (clock : String → ℤ) where
  named : (name : String) (b : Bool) → (str_eq name "" || b) ≡ false → name ≢ ""
  named name b h = ground (arith, eq_iff name "")

  stored_unless_empty :
      (name : String) (e : StatsDomainEndpoint) (output : Dict (Option StatsDomainEndpoint))
      → name ≢ ""
      → PrunedOrEmpty F S (clock name) e
      → All (PrunedEndpoint clock) output
      → Returns
          (All (PrunedEndpoint clock))
          (returned (if has_no_tactics (some e) then output else insert name (some e) output))
  stored_unless_empty name e output n pruned h = elim (Bool-cases (has_no_tactics (some e))) [
    | inl empty ↦ rw empty (returns output h)
    | inr kept ↦ rw kept (
        returns (insert name (some e) output) (
          All-insert (PrunedEndpoint clock) name (some e) output
            (n, PrunedTactics-intro F S (clock name) e.tactics pruned.0 pruned.1 kept) h))
  ]

  prune_endpoint-Returns :
      (name : String) (input : Option StatsDomainEndpoint)
      (output : Dict (Option StatsDomainEndpoint))
      → All (PrunedEndpoint clock) output
      → Returns (All (PrunedEndpoint clock)) (prune_endpoint F S clock name input output)
  unfolding prune_endpoint
  prune_endpoint-Returns name none output h = returns output h
  prune_endpoint-Returns name (some input) output h =
      elim (Bool-cases (str_eq name "" || has_no_tactics (some input))) [
        | inl left_out ↦ rw left_out (returns output h)
        | inr taken ↦ rw taken (
            Returns-bind (PrunedOrEmpty F S (clock name)) (All (PrunedEndpoint clock)) _
              (prune_entries-Returns F S (clock name) input)
              (λ e pruned. stored_unless_empty name e output (named name _ taken) pruned h))
      ]

  prune_endpoints-Returns :
      (input output : Dict (Option StatsDomainEndpoint))
      → All (PrunedEndpoint clock) output
      → Returns (All (PrunedEndpoint clock)) (prune_endpoints F S clock input output)
  unfolding prune_endpoints
  prune_endpoints-Returns [] output h = returns output h
  prune_endpoints-Returns ((name, e) ∷ input) output h =
      Returns-bind (All (PrunedEndpoint clock)) (All (PrunedEndpoint clock))
        (λ m. prune_endpoints F S clock input m) (prune_endpoint-Returns name e output h)
        (λ m kept. prune_endpoints-Returns input m kept)

  -- Pruning never panics, whatever nil pointers, nil maps and empty keys the stats hold, and leaves
  -- only endpoints with a name that hold one to ten entries, each with a record of less than a week
  -- before the endpoint was pruned, under its tactic's summary key.
  pub stats_container_prune_entries-IsPruned :
      (c : StatsContainer) → Returns (IsPruned clock) (stats_container_prune_entries F S clock c)
  unfolding stats_container_prune_entries
  stats_container_prune_entries-IsPruned c =
      Returns-bind (All (PrunedEndpoint clock)) (IsPruned clock)
        (λ m. returned (record { domain_endpoints = some m; version = stats_container_version }))
        (prune_endpoints-Returns (entries c.domain_endpoints) [] tt)
        (λ m kept. returns _ (record { current = refl; endpoints = kept }))
