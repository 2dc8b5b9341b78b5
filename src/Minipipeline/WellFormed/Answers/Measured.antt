-- ===== src/Minipipeline/WellFormed/Answers/Measured.antt =====
-- pkg/minipipeline/observation.go: which lookups a measurement that was ingested has.
use ooni_probe_engine.Prelude.{
  String, Bool, false, ◌&&◌, ◌||◌, ◌≡◌, refl, ap₂, ◌∙◌, sym, Option, none, some, List, [], ◌∷◌, map,
  str_eq, is_set, subst,
}
use ooni_probe_engine.Prelude.Int.{ℤ}
use ooni_probe_engine.Prelude.Keys.{int_eq, string_key, int_key}
use ooni_probe_engine.Prelude.Outcome.{Outcome, returned, ◌>>=◌}
use ooni_probe_engine.Optional.{unwrap}
use ooni_probe_engine.Minipipeline.Marks.{is_key}
use ooni_probe_engine.Minipipeline.Archival.{
  ArchivalDnsLookupResult, ThResponse, ThRequest, WebMeasurement, WebMeasurementTestKeys,
}
use ooni_probe_engine.Minipipeline.Environment.{Environment}
use ooni_probe_engine.Minipipeline.Loops.{update_list, update_table}
use ooni_probe_engine.Minipipeline.Observation.{WebObservation, WebObservationsContainer}
use ooni_probe_engine.Minipipeline.Control
use ooni_probe_engine.Minipipeline.Control.{
  Ingested, ingested, ingest_failed, ingest_web_measurement,
}
use ooni_probe_engine.Minipipeline.Partial.{
  Partial, gives, Partial-bind, Partial-after, Partial-at, if-both,
}
use ooni_probe_engine.Minipipeline.WellFormed.Answers.{any_lookup, any_resolves, ingest_events-has}

module _ {A : Type 0} (test : A → Bool) where
  update_list-keeps :
      (find_in : List A → Bool) (body : A → Outcome A)
      → find_in [] ≡ false
      → ((x : A) (l : List A) → find_in (x ∷ l) ≡ (test x || find_in l))
      → ((x : A) → Partial (λ y. test y ≡ test x) (body x))
      → (l : List A) → Partial (λ new. find_in new ≡ find_in l) (update_list body l)
  unfolding update_list
  update_list-keeps find_in body empty further keeps [] = gives [] refl
  update_list-keeps find_in body empty further keeps (x ∷ l) =
      Partial-bind (λ y. test y ≡ test x) _ _ (keeps x)
        λ y e.
          Partial-bind (λ new. find_in new ≡ find_in l) _ _
            (update_list-keeps find_in body empty further keeps l)
            λ new e'. gives (y ∷ new) (further y new ∙ ap₂ (λ a b. a || b) e e' ∙ sym (further x l))

-- The queries of a measurement.
abbrev pub queries_of : Option WebMeasurementTestKeys → List (Option ArchivalDnsLookupResult)
queries_of none = []
queries_of (some tk) = tk.queries

module _ (env : Environment) (txid : ℤ) (ip_addr : String) where
  abbrev has : WebObservationsContainer → Bool
  has c = any_lookup c.dns_lookup_successes txid ip_addr

  abbrev is_here : WebObservation → Bool
  is_here obs = int_eq obs.transaction_id txid && is_key obs.ip_address ip_addr

  module _ (resp : ThResponse) where
    dns_query-keeps :
        (input_domain : String) (obs : WebObservation)
        → Partial (λ y. is_here y ≡ is_here obs) (Control.xref_dns_query resp input_domain obs)
    unfolding Control.xref_dns_query Control.with_control_dns
    dns_query-keeps input_domain obs =
        let Same : WebObservation → Type 0 = λ y. is_here y ≡ is_here obs in
        Partial-after Same (unwrap obs.dns_domain) _ λ domain. gives _ (
          if-both Same (str_eq domain input_domain) _ obs
            (if-both Same (is_set resp.dns.failure) _ _ refl refl) refl)

    expectation-keeps :
        (l : List WebObservation)
        → any_lookup (map (Control.with_control_http resp) l) txid ip_addr
          ≡ any_lookup l txid ip_addr
    unfolding any_lookup Control.with_control_http
    expectation-keeps [] = refl
    expectation-keeps (obs ∷ l) =
        ap₂ (λ a b. a || b)
          (if-both (λ y. is_here y ≡ is_here obs) (is_set resp.http_request.failure) _ _ refl refl)
          (expectation-keeps l)

  -- What an ingested container has.
  abbrev pub HasLookup : Bool → Ingested → Type 0
  HasLookup b (ingest_failed e) = Unit
  HasLookup b (ingested c) = has c ≡ b

  endpoints-keep :
      (b : Bool) (body : WebObservation → Outcome WebObservation) (c : WebObservationsContainer)
      → has c ≡ b
      → Partial
          (λ new. has new ≡ b)
          (update_table body c.known_tcp_endpoints >>= λ endpoints.
            returned (record c { known_tcp_endpoints = endpoints }))
  endpoints-keep b body c h =
      Partial-after (λ new. has new ≡ b) (update_table body c.known_tcp_endpoints) _
        λ endpoints. gives _ h

  control-keeps :
      (o : Option String) (resp : ThResponse) (c : WebObservationsContainer)
      → Partial (HasLookup (has c)) (Control.control_messages_for env o resp c)
  unfolding Control.control_messages_for Control.control_xref_dns_queries
      Control.control_match_dns_lookup_results Control.control_xref_tcpip_failures
      Control.control_xref_tls_failures Control.control_set_http_final_response_expectation
      any_lookup
  control-keeps none resp c = gives _ tt
  control-keeps (some input_domain) resp c =
      let Same : WebObservationsContainer → Type 0 = λ new. has new ≡ has c in
      let Good = HasLookup (has c) in
      Partial-bind Same Good _
        (Partial-after Same (update_list _ c.dns_lookup_failures) _ λ failures.
          Partial-bind (λ new. any_lookup new txid ip_addr ≡ has c) Same _
            (update_list-keeps is_here (λ l. any_lookup l txid ip_addr) _ refl (λ x l. refl)
              (dns_query-keeps resp input_domain) c.dns_lookup_successes)
            λ successes e. gives _ e)
        λ queries p.
          Partial-bind Same Good _
            (endpoints-keep (has c) (Control.match_dns_lookup_result resp input_domain) queries p)
            λ results q.
              Partial-bind Same Good _
                (endpoints-keep (has c) (Control.xref_tcpip_failure resp) results q)
                λ tcpip r.
                  Partial-bind Same Good _
                    (endpoints-keep (has c) (Control.xref_tls_failure resp) tcpip r)
                    λ tls s. gives _ (expectation-keeps resp tls.dns_lookup_successes ∙ s)

  maybe_control-keeps :
      (req : Option ThRequest) (resp : Option ThResponse) (c : WebObservationsContainer)
      → Partial (HasLookup (has c)) (Control.maybe_control env req resp c)
  unfolding Control.maybe_control Control.ingest_control_messages
  maybe_control-keeps none resp c = gives _ refl
  maybe_control-keeps (some req) none c = gives _ refl
  maybe_control-keeps (some req) (some resp) c =
      control-keeps (env.hostname req.http_request) resp c

  with_test_keys-has :
      (o : Option WebMeasurementTestKeys)
      → Partial
          (HasLookup (any_resolves (queries_of o) txid ip_addr))
          (Control.with_test_keys env o)
  unfolding Control.with_test_keys
  with_test_keys-has none = gives _ tt
  with_test_keys-has (some tk) =
      Partial-bind (λ c. has c ≡ any_resolves tk.queries txid ip_addr)
        (HasLookup (any_resolves tk.queries txid ip_addr)) _ (ingest_events-has env txid ip_addr tk)
        λ c e.
          subst
            (λ b.
              Partial (HasLookup b) (Control.maybe_control env tk.x_control_request tk.control c))
            e (maybe_control-keeps tk.x_control_request tk.control c)

  -- A container that was ingested from a measurement has a successful lookup of a transaction with an
  -- address exactly when some query of that transaction did not fail and has the address in an A answer
  -- as its IPv4 address, or in an AAAA answer as its IPv6 address.
  pub any_lookup-ingest_web_measurement :
      (meas : WebMeasurement) (c : WebObservationsContainer)
      → ingest_web_measurement env meas ≡ returned (ingested c)
      → any_lookup c.dns_lookup_successes txid ip_addr
        ≡ any_resolves (queries_of meas.test_keys) txid ip_addr
  unfolding ingest_web_measurement
  any_lookup-ingest_web_measurement meas c e =
      Partial-at (HasLookup (any_resolves (queries_of meas.test_keys) txid ip_addr)) (ingested c)
        (with_test_keys-has meas.test_keys) e
