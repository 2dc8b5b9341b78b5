-- ===== src/Minipipeline/WellFormed/Answers.antt =====
-- pkg/minipipeline/observation.go: which lookups the loops over the queries register.
pub mod Measured
use ooni_probe_engine.Prelude.{
  String, Bool, true, false, ◌&&◌, ◌||◌, ◌≡◌, refl, ap, ap₂, ◌∙◌, sym, not, inl, inr, Option, none,
  some, List, [], ◌∷◌, ◌++◌, map, str_eq, eq_iff, is_set, subst, if◌then◌else◌, Bool-cases, arith,
}
use ooni_probe_engine.Prelude.Int.{ℤ}
use ooni_probe_engine.Prelude.Keys.{int_eq, string_key, int_key}
use ooni_probe_engine.Prelude.Table.{find}
use ooni_probe_engine.Prelude.Outcome.{Outcome, returned, panicked, ◌>>=◌}
use ooni_probe_engine.Optional.{unwrap}
use ooni_probe_engine.Minipipeline.Marks.{is_key}
use ooni_probe_engine.Minipipeline.Set.{
  Set, contains, keys, new_set, contains-keys, contains-new_set,
}
use ooni_probe_engine.Minipipeline.Archival.{
  ArchivalDnsAnswer, ArchivalDnsLookupResult, ArchivalTcpConnectResult,
  ArchivalTlsOrQuicHandshakeResult, ArchivalHttpRequestResult, ThResponse, ThRequest,
  WebMeasurement, WebMeasurementTestKeys,
}
use ooni_probe_engine.Minipipeline.Environment.{Environment}
use ooni_probe_engine.Minipipeline.Loops.{each, each_event, update_list, update_table}
use ooni_probe_engine.Minipipeline.Observation.{
  WebObservation, WebObservationsContainer, new_web_observations_container,
}
use ooni_probe_engine.Minipipeline.Utils.{resolved_addresses}
use ooni_probe_engine.Minipipeline.Ingest
use ooni_probe_engine.Minipipeline.Control
use ooni_probe_engine.Minipipeline.Control.{
  Ingested, ingested, ingest_failed, ingest_web_measurement,
}
use ooni_probe_engine.Minipipeline.Partial.{
  Partial, fails, gives, Partial-bind, Partial-after, Partial-at, Partial-imp, if-both,
}

-- Some answer is of type A with the address as its IPv4 address, or of type AAAA with it as its IPv6
-- address.
unfoldable pub answers_with : List ArchivalDnsAnswer → String → Bool
answers_with [] ip_addr = false
answers_with (ans ∷ answers) ip_addr =
    (str_eq ans.answer_type "A" && str_eq ans.ipv4 ip_addr)
    || (str_eq ans.answer_type "AAAA" && str_eq ans.ipv6 ip_addr)
    || answers_with answers ip_addr

abbrev pub resolves : ArchivalDnsLookupResult → ℤ → String → Bool
resolves ev txid ip_addr =
    int_eq ev.transaction_id txid && (not (is_set ev.failure) && answers_with ev.answers ip_addr)

-- Some query of the transaction did not fail and has such an answer.
unfoldable pub any_resolves : List (Option ArchivalDnsLookupResult) → ℤ → String → Bool
any_resolves [] txid ip_addr = false
any_resolves (none ∷ evs) txid ip_addr = any_resolves evs txid ip_addr
any_resolves (some ev ∷ evs) txid ip_addr =
    resolves ev txid ip_addr || any_resolves evs txid ip_addr

-- Some observation of the transaction has the address.
unfoldable pub any_lookup : List WebObservation → ℤ → String → Bool
any_lookup [] txid ip_addr = false
any_lookup (obs ∷ l) txid ip_addr =
    (int_eq obs.transaction_id txid && is_key obs.ip_address ip_addr) || any_lookup l txid ip_addr

one_type : (name : String) → (str_eq name "A" && str_eq name "AAAA") ≡ false
one_type name = elim (Bool-cases (str_eq name "A")) [
  | inl e ↦ let same : name ≡ "A" = (eq_iff name "A").0 e in rw same refl
  | inr e ↦ rw e refl
]

contains-resolved_addresses :
    (answers : List ArchivalDnsAnswer) (ip_addr : String)
    → contains (resolved_addresses answers) ip_addr ≡ answers_with answers ip_addr
unfolding resolved_addresses answers_with contains
contains-resolved_addresses [] ip_addr = refl
contains-resolved_addresses (ans ∷ answers) ip_addr =
    ground (arith, contains-resolved_addresses answers ip_addr, one_type ans.answer_type)

any_lookup-append :
    (l : List WebObservation) (obs : WebObservation) (txid : ℤ) (ip_addr : String)
    → any_lookup (l ++ (obs ∷ [])) txid ip_addr ≡ (
        (int_eq obs.transaction_id txid && is_key obs.ip_address ip_addr)
        || any_lookup l txid ip_addr)
unfolding any_lookup
any_lookup-append [] obs txid ip_addr = refl
any_lookup-append (first ∷ l) obs txid ip_addr =
    ground (arith, any_lookup-append l obs txid ip_addr)

-- A step on each item adds to what the state has, or keeps it.
module _ {E S : Type 0} (get : S → Bool) (step : E → S → S) where
  each_event-keeps :
      ((ev : E) (s : S) → get (step ev s) ≡ get s)
      → (evs : List (Option E)) (s : S) → Partial (λ new. get new ≡ get s) (each_event step evs s)
  unfolding each_event
  each_event-keeps keeps [] s = gives s refl
  each_event-keeps keeps (none ∷ evs) s = fails
  each_event-keeps keeps (some ev ∷ evs) s =
      Partial-imp (λ new. get new ≡ get (step ev s)) (λ new. get new ≡ get s)
        (λ new e. e ∙ keeps ev s) (each_event-keeps keeps evs (step ev s))

-- The address among the lookups of the transaction, after the loops.
module _ (env : Environment) (txid : ℤ) (ip_addr : String) where
  abbrev has : WebObservationsContainer → Bool
  has c = any_lookup c.dns_lookup_successes txid ip_addr

  failure-keeps :
      (ev : ArchivalDnsLookupResult) (o : Option String) (c : WebObservationsContainer)
      → has (Ingest.add_failed_lookup env ev o c) ≡ has c
  unfolding Ingest.add_failed_lookup
  failure-keeps ev none c = refl
  failure-keeps ev (some failure) c = refl

  addresses-add :
      (ev : ArchivalDnsLookupResult) (addrs : Set String) (l : List String)
      (c : WebObservationsContainer)
      → has (each (Ingest.ingest_address env ev addrs) l c)
        ≡ ((int_eq ev.transaction_id txid && contains l ip_addr) || has c)
  unfolding each contains Ingest.ingest_address Ingest.successful_lookup
  addresses-add ev addrs [] c = ground (arith, Bool-cases (int_eq ev.transaction_id txid))
  addresses-add ev addrs (address ∷ l) c = ground (
    arith,
    addresses-add ev addrs l (Ingest.ingest_address env ev addrs address c),
    any_lookup-append c.dns_lookup_successes (Ingest.successful_lookup env ev addrs address) txid
        ip_addr,
    Bool-cases (int_eq ev.transaction_id txid),
  )

  success-adds :
      (ev : ArchivalDnsLookupResult) (o : Option String) (c : WebObservationsContainer)
      → has (Ingest.add_successful_lookups env ev o c) ≡ (
          (int_eq ev.transaction_id txid && (not (is_set o) && answers_with ev.answers ip_addr))
          || has c)
  unfolding Ingest.add_successful_lookups
  success-adds ev (some failure) c = ground (arith, Bool-cases (int_eq ev.transaction_id txid))
  success-adds ev none c =
      let addrs = resolved_addresses ev.answers in
      let same =
        contains-keys (new_set addrs) ip_addr
        ∙ contains-new_set addrs ip_addr
        ∙ contains-resolved_addresses ev.answers ip_addr in
      addresses-add ev (new_set addrs) (keys (new_set addrs)) c
      ∙ ap (λ b. (int_eq ev.transaction_id txid && b) || has c) same

  successes-add :
      (evs : List (Option ArchivalDnsLookupResult)) (c : WebObservationsContainer)
      → Partial
          (λ new. has new ≡ (any_resolves evs txid ip_addr || has c))
          (each_event (Ingest.ingest_dns_lookup_success env) evs c)
  unfolding each_event any_resolves Ingest.ingest_dns_lookup_success
  successes-add [] c = gives c refl
  successes-add (none ∷ evs) c = fails
  successes-add (some ev ∷ evs) c =
      let once = Ingest.ingest_dns_lookup_success env ev c in
      Partial-imp (λ new. has new ≡ (any_resolves evs txid ip_addr || has once)) _
        (λ new e. ground (arith, e, success-adds ev ev.failure c)) (successes-add evs once)

  change_found-keeps :
      (id : ℤ) (body : WebObservation → WebObservation) (o : Option WebObservation)
      (c : WebObservationsContainer)
      → has (Ingest.change_found id body o c) ≡ has c
  unfolding Ingest.change_found
  change_found-keeps id body none c = refl
  change_found-keeps id body (some obs) c = refl

  pub ingest_events-has :
      (tk : WebMeasurementTestKeys)
      → Partial (λ c. has c ≡ any_resolves tk.queries txid ip_addr) (Control.ingest_events env tk)
  unfolding Control.ingest_events Ingest.ingest_dns_lookup_events Ingest.ingest_dns_lookup_failure
      Ingest.ingest_tcp_connect_events Ingest.ingest_tcp_connect_event
      Ingest.ingest_tls_handshake_events Ingest.change Ingest.ingest_http_round_trip_events
      any_lookup
  ingest_events-has tk =
      let Good : WebObservationsContainer → Type 0 =
        λ c. has c ≡ any_resolves tk.queries txid ip_addr in
      Partial-bind Good Good _
        (Partial-bind (λ c. has c ≡ false) Good _
          (each_event-keeps has (Ingest.ingest_dns_lookup_failure env)
            (λ ev c. failure-keeps ev ev.failure c) tk.queries new_web_observations_container)
          λ c e.
            Partial-imp (λ new. has new ≡ (any_resolves tk.queries txid ip_addr || has c)) Good
              (λ new p. ground (arith, p, e)) (successes-add tk.queries c))
        λ lookups p.
          Partial-bind Good Good _
            (Partial-imp (λ new. has new ≡ has lookups) Good (λ new e. e ∙ p)
              (each_event-keeps has (Ingest.ingest_tcp_connect_event env) (λ ev c. refl)
                tk.tcp_connect lookups))
            λ connects q.
              Partial-bind Good Good _
                (Partial-imp (λ new. has new ≡ has connects) Good (λ new e. e ∙ q)
                  (each_event-keeps has _ (λ ev c. change_found-keeps _ _ _ c) tk.tls_handshakes
                    connects))
                λ handshakes r.
                  Partial-imp (λ new. has new ≡ has handshakes) Good (λ new e. e ∙ r)
                    (each_event-keeps has _ (λ ev c. change_found-keeps _ _ _ c) tk.requests
                      handshakes)
