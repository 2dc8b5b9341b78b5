-- ===== src/Minipipeline/Analysis/DnsValidity.antt =====
-- pkg/minipipeline/analysis.go: dnsComputeSuccessMetrics as a whole, with what the handshakes undo.
use ooni_probe_engine.Prelude.{
  Bool, false, not, ◌&&◌, ◌||◌, ◌≡◌, refl, ap, ◌∙◌, Option, none, some, List, [], ◌∷◌, arith,
}
use ooni_probe_engine.Prelude.Int.{ℤ}
use ooni_probe_engine.Prelude.Keys.{int_key}
use ooni_probe_engine.Prelude.Outcome.{returned, Returns, returns}
use ooni_probe_engine.Minipipeline.Set.{contains, contains-add_one, contains-remove}
use ooni_probe_engine.Minipipeline.Marks.{is_key}
use ooni_probe_engine.Minipipeline.Environment.{Environment}
use ooni_probe_engine.Minipipeline.Loops.{each}
use ooni_probe_engine.Minipipeline.Observation.{WebObservation, WebObservationsContainer}
use ooni_probe_engine.Minipipeline.WellFormed.{IsDnsObservation, IsSuccess, IsWellFormed}
use ooni_probe_engine.Minipipeline.Analysis.{WebAnalysis}
use ooni_probe_engine.Minipipeline.Analysis.Dns
use ooni_probe_engine.Minipipeline.Analysis.Shared.{validates, validated-validates}
use ooni_probe_engine.Minipipeline.Analysis.First.{
  first_passes, each_first, for_first-eq-each_first, contains-each_first,
}
use ooni_probe_engine.Minipipeline.Analysis.DnsSuccesses.{
  is_first_lookup, is_bogon_lookup, is_valid_lookup, is_invalid_lookup, change, Changes,
  body-eq-change, change-Changes,
}

-- Some endpoint shows the addresses of the transaction to be valid.
unfoldable pub any_validated : List (ℤ × WebObservation) → ℤ → Bool
any_validated [] asked = false
any_validated ((txid, obs) ∷ entries) asked = validates obs asked || any_validated entries asked

module _ {Float : Type 0} where
  unfoldable pub undone : List (ℤ × WebObservation) → WebAnalysis Float → WebAnalysis Float
  undone entries wa = each (λ (e : ℤ × WebObservation). Dns.undo (Dns.validated e.1)) entries wa

  unfoldable pub Undone : Bool → ℤ → WebAnalysis Float → WebAnalysis Float → Type 0
  Undone shown asked wa new =
      (contains new.dns_lookup_success_with_valid_address asked
        ≡ (shown || contains wa.dns_lookup_success_with_valid_address asked))
      × (contains new.dns_lookup_success_with_invalid_addresses asked
          ≡ (contains wa.dns_lookup_success_with_invalid_addresses asked && not shown))
      × (new.dns_lookup_success ≡ wa.dns_lookup_success)
      × (new.dns_lookup_success_with_bogon_addresses ≡ wa.dns_lookup_success_with_bogon_addresses)

  undo-Undone :
      (o : Option ℤ) (asked : ℤ) (wa : WebAnalysis Float)
      → Undone (is_key o asked) asked wa (Dns.undo o wa)
  unfolding Undone Dns.undo
  undo-Undone none asked wa = (refl, ground arith, refl, refl)
  undo-Undone (some txid) asked wa = (
    contains-add_one txid asked wa.dns_lookup_success_with_valid_address,
    contains-remove txid asked wa.dns_lookup_success_with_invalid_addresses,
    refl,
    refl,
  )

  pub undone-Undone :
      (entries : List (ℤ × WebObservation)) (asked : ℤ) (wa : WebAnalysis Float)
      → Undone (any_validated entries asked) asked wa (undone entries wa)
  unfolding Undone undone each any_validated
  undone-Undone [] asked wa = (refl, ground arith, refl, refl)
  undone-Undone ((txid, obs) ∷ entries) asked wa =
      let once = undo-Undone (Dns.validated obs) asked wa in
      let shown = validated-validates obs asked in
      let rest = undone-Undone entries asked (Dns.undo (Dns.validated obs) wa) in
      (
        ground (arith, once.0, rest.0, shown),
        ground (arith, once.1, rest.1, shown),
        rest.2 ∙ once.2,
        rest.3 ∙ once.3,
      )

module _ {Float : Type 0} (env : Environment) where
  filled-Returns :
      (c : WebObservationsContainer) (wa : WebAnalysis Float)
      → IsWellFormed c
      → Dns.dns_compute_success_metrics env c wa
        ≡ returned
            (undone c.known_tcp_endpoints (each_first (change env) c.dns_lookup_successes wa))
  unfolding Dns.dns_compute_success_metrics IsWellFormed IsSuccess IsDnsObservation undone
  filled-Returns c wa h =
      rw
        (for_first-eq-each_first IsSuccess (Dns.dns_success_body env) (change env)
          (body-eq-change env) (λ obs p. p.0.0) c.dns_lookup_successes wa h.1)
        refl

  -- Of each set, when it has the transaction, by the first successful lookup of the transaction and by
  -- the handshakes.
  unfoldable pub SuccessesDecided :
      WebObservationsContainer → WebAnalysis Float → ℤ → WebAnalysis Float → Type 0
  SuccessesDecided c wa asked new =
      (contains new.dns_lookup_success asked ≡ (
        first_passes is_first_lookup c.dns_lookup_successes asked
        || contains wa.dns_lookup_success asked))
      × (contains new.dns_lookup_success_with_bogon_addresses asked ≡ (
          first_passes is_bogon_lookup c.dns_lookup_successes asked
          || contains wa.dns_lookup_success_with_bogon_addresses asked))
      × (contains new.dns_lookup_success_with_valid_address asked ≡ (
          any_validated c.known_tcp_endpoints asked
          || (first_passes (is_valid_lookup env) c.dns_lookup_successes asked
              || contains wa.dns_lookup_success_with_valid_address asked)))
      × (contains new.dns_lookup_success_with_invalid_addresses asked ≡ (
          (first_passes (is_invalid_lookup env) c.dns_lookup_successes asked
            || contains wa.dns_lookup_success_with_invalid_addresses asked)
          && not (any_validated c.known_tcp_endpoints asked)))

  -- On a well-formed container, dnsComputeSuccessMetrics returns, and the first successful lookup of a
  -- transaction decides, at depth zero, whether it has a bogon and whether its addresses are valid:
  -- they are when an address or an autonomous system of theirs is one of the control's, and are
  -- invalid when none is. A transaction with a positive identifier and an address that then completed a
  -- TLS handshake is valid and not invalid.
  pub contains-dns_compute_success_metrics :
      (c : WebObservationsContainer) (wa : WebAnalysis Float) (asked : ℤ)
      → IsWellFormed c
      → Returns (SuccessesDecided c wa asked) (Dns.dns_compute_success_metrics env c wa)
  unfolding Undone Changes SuccessesDecided
  contains-dns_compute_success_metrics c wa asked h =
      let l = c.dns_lookup_successes in
      let after = undone-Undone c.known_tcp_endpoints asked (each_first (change env) l wa) in
      rw (filled-Returns c wa h) (
        returns _ (
          ap (λ sx. contains sx asked) after.2
              ∙ contains-each_first (λ s. s.dns_lookup_success) is_first_lookup (change env)
                  (λ obs txid s. (change-Changes env obs txid s).2) l wa asked,
          ap (λ sx. contains sx asked) after.3
              ∙ contains-each_first (λ s. s.dns_lookup_success_with_bogon_addresses) is_bogon_lookup
                  (change env) (λ obs txid s. (change-Changes env obs txid s).3) l wa asked,
          after.0
              ∙ ap (λ b. any_validated c.known_tcp_endpoints asked || b)
                  (contains-each_first (λ s. s.dns_lookup_success_with_valid_address)
                    (is_valid_lookup env) (change env)
                    (λ obs txid s. (change-Changes env obs txid s).0) l wa asked),
          after.1
              ∙ ap (λ b. b && not (any_validated c.known_tcp_endpoints asked))
                  (contains-each_first (λ s. s.dns_lookup_success_with_invalid_addresses)
                    (is_invalid_lookup env) (change env)
                    (λ obs txid s. (change-Changes env obs txid s).1) l wa asked),
        ))
