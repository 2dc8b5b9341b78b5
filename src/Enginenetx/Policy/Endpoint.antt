-- ===== src/Enginenetx/Policy/Endpoint.antt =====
-- The host and the port of the tactics that the policies of network.go emit.
use ooni_probe_engine.Prelude.{
  ℕ, ◌+◌, String, Bool, true, false, not, ◌≡◌, refl, arith, Option, none, some, List, [], ◌∷◌, map,
  All, All-append, All-both, is_set, str_eq, inl, inr, Bool-cases,
}
use ooni_probe_engine.Prelude.Int.{pos, ltb_ℤ}
use ooni_probe_engine.Prelude.Perms.{All-Perm, All-keep, All-keep_test, Perm-symm}
use ooni_probe_engine.Prelude.Outcome.{Outcome, ◌>>=◌, Returns, returns, Returns-bind}
use ooni_probe_engine.Enginenetx.Tactic.{
  HttpsDialerTactic, join_host_port, has_colon, domain_endpoint_key,
}
use ooni_probe_engine.Enginenetx.Tactic.Keys.{join_host_port_inj}
use ooni_probe_engine.Enginenetx.Mix
use ooni_probe_engine.Enginenetx.Mix.Order.{Merge, nothing, left, right, interleave-Merge}
use ooni_probe_engine.Enginenetx.Stats.Data.{StatsTactic, StatsContainer}
use ooni_probe_engine.Enginenetx.Stats.Sorting.{sort_with_accept_predicate}
use ooni_probe_engine.Enginenetx.Stats.Sorting.Laws.{well_formed, sort_with_accept_predicate-perm}
use ooni_probe_engine.Enginenetx.Stats.Events.Holds.{Holds}
use ooni_probe_engine.Enginenetx.Stats.Manager.Lookup.{lookup_tactics-Returns}
use ooni_probe_engine.Enginenetx.Policy.{
  World, Stream, tactic_for, short_circuit_lookup_host, dns_tactics, dns_policy, bridges_loop,
  bridges_tactics_for_domain, is_working, asserted, to_tactics, stats_policy_filter, stats_policy,
  contains, collect_todo, extended, test_helpers_policy, ended, emitted, new_https_dialer_policy,
}
use ooni_probe_engine.Enginenetx.Policy.Names.{bridges_addrs, bridges_domains, test_helpers_domains}

-- The tactic of a record is for the endpoint under which the record stands.
abbrev pub OwnEndpoint : String → Option HttpsDialerTactic → Type 0
OwnEndpoint d none = ⊥
OwnEndpoint d (some t) = (domain_endpoint_key t ≡ d) × (has_colon t.port ≡ false)

abbrev pub OwnRecord : String → StatsTactic → Type 0
OwnRecord d r = OwnEndpoint d r.tactic

abbrev pub IsKeyedByEndpoint : StatsContainer → Type 0
IsKeyedByEndpoint = Holds (λ d k r. OwnRecord d r)

module _ (w : World) (domain port : String) where
  -- A tactic that is not nil, whose peer is verified for the domain, on the port.
  abbrev pub Serves : HttpsDialerTactic → Type 0
  Serves t = (t.verify_hostname ≡ domain) × (t.port ≡ port)

  abbrev pub ServesOption : Option HttpsDialerTactic → Type 0
  ServesOption none = ⊥
  ServesOption (some t) = Serves t

  All-mapped :
      {A : Type 0} (f : A → Option HttpsDialerTactic) (l : List A)
      → ((x : A) → ServesOption (f x))
      → All ServesOption (map f l)
  All-mapped f [] h = tt
  All-mapped f (x ∷ l) h = (h x, All-mapped f l h)

  dns_tactics-Serves : (o : Option (List String)) → All ServesOption (dns_tactics domain port o)
  unfolding dns_tactics tactic_for
  dns_tactics-Serves none = tt
  dns_tactics-Serves (some addrs) = All-mapped _ addrs (λ addr. (refl, refl))

  dns_policy-Serves : All ServesOption (dns_policy w domain port)
  unfolding dns_policy
  dns_policy-Serves = elim (Bool-cases w.canceled) [
    | inl done ↦ simp done tt
    | inr live ↦ simp live (dns_tactics-Serves (short_circuit_lookup_host w domain))
  ]

  bridges_loop-Serves :
      (n : ℕ) (addrs : List String) → All ServesOption (bridges_loop w domain port n addrs)
  unfolding bridges_loop tactic_for
  bridges_loop-Serves n [] = tt
  bridges_loop-Serves n (ip_addr ∷ addrs) =
      All-append ServesOption _ _
        (All-mapped _ (w.bridges_order n bridges_domains) (λ sni. (refl, refl)))
        (bridges_loop-Serves (n + 1) addrs)

  bridges-Serves : All ServesOption (bridges_tactics_for_domain w domain port)
  unfolding bridges_tactics_for_domain
  bridges-Serves = elim (Bool-cases (not (str_eq domain "api.ooni.io"))) [
    | inl other ↦ rw other tt
    | inr backend ↦ rw backend (bridges_loop-Serves 0 bridges_addrs)
  ]

  collect_todo-Serves :
      (child : Stream) → All ServesOption child → Returns (All Serves) (collect_todo child)
  unfolding collect_todo
  collect_todo-Serves [] h = returns [] tt
  collect_todo-Serves (none ∷ child) h = absurd h.0
  collect_todo-Serves (some t ∷ child) h =
      Returns-bind (All Serves) (All Serves) _ (collect_todo-Serves child h.1) λ todo ok.
        elim (Bool-cases (contains test_helpers_domains t.verify_hostname)) [
          | inl helper ↦ rw helper (returns (t ∷ todo) (h.0, ok))
          | inr other ↦ rw other (returns todo ok)
        ]

  extended-Serves :
      (n : ℕ) (todo : List HttpsDialerTactic)
      → All Serves todo
      → All ServesOption (extended w n todo)
  unfolding extended
  extended-Serves n [] h = tt
  extended-Serves n (t ∷ todo) h =
      All-append ServesOption _ _ (All-mapped _ (w.helpers_order n bridges_domains) (λ sni. h.0))
        (extended-Serves (n + 1) todo h.1)

  test_helpers-Serves :
      (child : Stream)
      → All ServesOption child
      → Returns (All ServesOption) (test_helpers_policy w child)
  unfolding test_helpers_policy
  test_helpers-Serves child h =
      Returns-bind (All Serves) (All ServesOption) _ (collect_todo-Serves child h)
        (λ todo ok. returns _ (All-append ServesOption child _ h (extended-Serves 0 todo ok)))

  Merge-Serves :
      {xs ys zs : Stream}
      → Merge xs ys zs
      → All ServesOption xs
      → All ServesOption ys
      → All ServesOption zs
  Merge-Serves nothing h k = tt
  Merge-Serves (left x m) h k = (h.0, Merge-Serves m h.1 k)
  Merge-Serves (right y m) h k = (k.0, Merge-Serves m h k.1)

  well_formed-All :
      (P : StatsTactic → Type 0) (l : List StatsTactic) → All P l → All P (well_formed (map some l))
  unfolding well_formed
  well_formed-All P [] h = tt
  well_formed-All P (t ∷ l) h = elim (Bool-cases (is_set t.tactic)) [
    | inl present ↦ rw present (h.0, well_formed-All P l h.1)
    | inr absent ↦ rw absent (well_formed-All P l h.1)
  ]

  module _ (plain_port : has_colon port ≡ false) where
    abbrev here : String
    here = join_host_port domain port

    abbrev Working : StatsTactic → Type 0
    Working t = OwnRecord here t × (is_working (some t) ≡ true)

    asserted-Serves :
        (o : Option HttpsDialerTactic) → OwnEndpoint here o → Returns ServesOption (asserted o)
    unfolding asserted domain_endpoint_key
    asserted-Serves none h = absurd h
    asserted-Serves (some t) h =
        returns (some t)
          (join_host_port_inj t.verify_hostname domain t.port port h.1 plain_port h.0)

    positive : (t : StatsTactic) → is_working (some t) ≡ true → ltb_ℤ (pos 0) t.count_success ≡ true
    unfolding is_working
    positive t h = ground arith

    to_tactics-Serves :
        (l : List StatsTactic) → All Working l → Returns (All ServesOption) (to_tactics l)
    unfolding to_tactics
    to_tactics-Serves [] h = returns [] tt
    to_tactics-Serves (t ∷ l) h = rw (positive t h.0.1) (
        Returns-bind ServesOption (All ServesOption) _ (asserted-Serves t.tactic h.0.0) λ tx ok.
          Returns-bind (All ServesOption) (All ServesOption) _ (to_tactics-Serves l h.1)
            (λ out rest. returns (tx ∷ out) (ok, rest)))

    Working-sorted :
        (l : List StatsTactic)
        → All (OwnRecord here) l
        → All Working (sort_with_accept_predicate w.floats w.sorter (map some l) is_working)
    Working-sorted l h =
        All-Perm Working
          (Perm-symm (sort_with_accept_predicate-perm w.floats w.sorter (map some l) is_working))
          (All-both (OwnRecord here) (λ t. is_working (some t) ≡ true) _
            (All-keep (OwnRecord here) _ _ (well_formed-All (OwnRecord here) l h))
            (All-keep_test (λ t. is_working (some t)) (well_formed (map some l))))

    filter-Serves :
        (p : List StatsTactic × Bool)
        → All (OwnRecord here) p.0
        → Returns (All ServesOption) (stats_policy_filter w p)
    unfolding stats_policy_filter
    filter-Serves (l, true) h =
        to_tactics-Serves (sort_with_accept_predicate w.floats w.sorter (map some l) is_working)
          (Working-sorted l h)
    filter-Serves (l, false) h = returns [] tt

    stats_policy-Serves :
        IsKeyedByEndpoint w.stats → Returns (All ServesOption) (stats_policy w domain port)
    unfolding stats_policy
    stats_policy-Serves h =
        Returns-bind (λ p. All (OwnRecord here) p.0) (All ServesOption)
          (λ p. stats_policy_filter w p) (lookup_tactics-Returns OwnRecord w.stats domain port h)
          (λ p ok. filter-Serves p ok)

    interleave-Serves :
        (factor : ℕ) (primary fallback : Outcome Stream)
        → Returns (All ServesOption) primary
        → Returns (All ServesOption) fallback
        → Returns
            (All ServesOption)
            (do first ← primary; second ← fallback; ended (Mix.interleave factor first second))
    unfolding ended
    interleave-Serves factor primary fallback h k =
        Returns-bind (All ServesOption) (All ServesOption) _ h λ first first_ok.
          Returns-bind (All ServesOption) (All ServesOption) _ k λ second second_ok.
            let (output, eq, merge) = interleave-Merge factor first second in
            rw eq (returns output (Merge-Serves merge first_ok second_ok))

    -- Without a user policy, with or without a proxy URL, the HTTPS dialer policy returns its stream of
    -- tactics, whatever the resolver answers and however the names are shuffled: no assertion fails,
    -- none of the tactics is nil, and all of them have the asked port and verify the peer for the asked
    -- domain. The port has no colon, and every record of the stats stands under the endpoint of its
    -- tactic.
    pub new_https_dialer_policy-Serves :
        (proxy : Bool)
        → IsKeyedByEndpoint w.stats
        → Returns (All ServesOption) (emitted w domain port (new_https_dialer_policy proxy none))
    unfolding new_https_dialer_policy emitted
    new_https_dialer_policy-Serves true h = returns _ dns_policy-Serves
    new_https_dialer_policy-Serves false h =
        interleave-Serves 3 _ _ (test_helpers-Serves (dns_policy w domain port) dns_policy-Serves)
          (interleave-Serves 3 _ _ (stats_policy-Serves h) (returns _ bridges-Serves))
