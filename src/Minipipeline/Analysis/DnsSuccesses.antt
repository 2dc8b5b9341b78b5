-- ===== src/Minipipeline/Analysis/DnsSuccesses.antt =====
-- pkg/minipipeline/analysis.go: which successful lookups dnsComputeSuccessMetrics puts in which set.
use ooni_probe_engine.Prelude.{
  String, Bool, true, false, not, ◌&&◌, ◌≡◌, refl, inl, inr, Option, none, some, is_set,
  if◌then◌else◌, Bool-cases,
}
use ooni_probe_engine.Prelude.Int.{ℤ}
use ooni_probe_engine.Prelude.Keys.{int_key}
use ooni_probe_engine.Prelude.Outcome.{returned}
use ooni_probe_engine.Minipipeline.Set.{Set, add_one}
use ooni_probe_engine.Minipipeline.Environment.{Environment}
use ooni_probe_engine.Minipipeline.Observation.{WebObservation}
use ooni_probe_engine.Minipipeline.WellFormed.{IsSuccess}
use ooni_probe_engine.Minipipeline.Analysis.{WebAnalysis, at_depth_zero, is_true}
use ooni_probe_engine.Minipipeline.Analysis.Adding.{add_if}
use ooni_probe_engine.Minipipeline.Analysis.Dns
use ooni_probe_engine.Minipipeline.Analysis.Shared.{shares, has_common-shares}

abbrev pub is_bogon_lookup : WebObservation → Bool
is_bogon_lookup obs = at_depth_zero obs.tag_depth && is_true obs.ip_address_bogon

abbrev pub is_first_lookup : WebObservation → Bool
is_first_lookup obs = at_depth_zero obs.tag_depth

-- Both sets are there and the test of what they have in common gives the Boolean.
abbrev pub compares : Environment → Option (Set String) → Option (Set String) → (Bool → Bool) → Bool
compares env none control test = false
compares env (some addrs) none test = false
compares env (some addrs) (some control) test = test (shares env addrs control)

abbrev pub is_valid_lookup : Environment → WebObservation → Bool
is_valid_lookup env obs =
    at_depth_zero obs.tag_depth
    && compares env obs.dns_resolved_addrs obs.control_dns_resolved_addrs (λ b. b)

abbrev pub is_invalid_lookup : Environment → WebObservation → Bool
is_invalid_lookup env obs =
    at_depth_zero obs.tag_depth
    && compares env obs.dns_resolved_addrs obs.control_dns_resolved_addrs not

module _ {Float : Type 0} (env : Environment) where
  Adds : Bool → Bool → ℤ → WebAnalysis Float → WebAnalysis Float → Type 0
  Adds valid invalid txid wa new =
      (new.dns_lookup_success_with_valid_address
        ≡ add_if valid txid wa.dns_lookup_success_with_valid_address)
      × (new.dns_lookup_success_with_invalid_addresses
          ≡ add_if invalid txid wa.dns_lookup_success_with_invalid_addresses)
      × (new.dns_lookup_success ≡ wa.dns_lookup_success)
      × (new.dns_lookup_success_with_bogon_addresses ≡ wa.dns_lookup_success_with_bogon_addresses)

  -- The comparison with the control, on lookups that have addresses.
  unfoldable pub compared :
      Option (Set String) → Option (Set String) → ℤ → WebAnalysis Float → WebAnalysis Float
  compared none control txid wa = wa
  compared (some addrs) none txid wa = wa
  compared (some addrs) (some control) txid wa =
      if shares env addrs control
      then record wa {
        dns_lookup_success_with_valid_address =
            add_one txid wa.dns_lookup_success_with_valid_address;
      }
      else record wa {
        dns_lookup_success_with_invalid_addresses =
            add_one txid wa.dns_lookup_success_with_invalid_addresses;
      }

  compared-Adds :
      (resolved control : Option (Set String)) (txid : ℤ) (wa : WebAnalysis Float)
      → Adds
          (compares env resolved control (λ b. b))
          (compares env resolved control not)
          txid
          wa
          (compared resolved control txid wa)
  unfolding Adds compared
  compared-Adds none control txid wa = (refl, refl, refl, refl)
  compared-Adds (some addrs) none txid wa = (refl, refl, refl, refl)
  compared-Adds (some addrs) (some control) txid wa = elim (Bool-cases (shares env addrs control)) [
    | inl common ↦ rw common (refl, refl, refl, refl)
    | inr different ↦ rw different (refl, refl, refl, refl)
  ]

  compared-eq :
      (resolved control : Option (Set String)) (txid : ℤ) (wa : WebAnalysis Float)
      → is_set resolved ≡ true
      → Dns.dns_success_with_control env resolved control txid wa
        ≡ returned (compared resolved control txid wa)
  unfolding Dns.dns_success_with_control compared
  compared-eq none control txid wa h = cc
  compared-eq (some addrs) none txid wa h = refl
  compared-eq (some addrs) (some control) txid wa h = rw (has_common-shares env addrs control) refl

  unfoldable pub change : WebObservation → ℤ → WebAnalysis Float → WebAnalysis Float
  unfolding compared
  change obs txid wa =
      if at_depth_zero obs.tag_depth
      then compared obs.dns_resolved_addrs obs.control_dns_resolved_addrs txid
          (Dns.add_success obs.ip_address_bogon txid wa)
      else wa

  pub body-eq-change :
      (obs : WebObservation) (txid : ℤ) (wa : WebAnalysis Float)
      → IsSuccess obs
      → Dns.dns_success_body env obs txid wa ≡ returned (change obs txid wa)
  unfolding Dns.dns_success_body change IsSuccess
  body-eq-change obs txid wa h = elim (Bool-cases (at_depth_zero obs.tag_depth)) [
    | inl zero ↦
        rw zero (compared-eq obs.dns_resolved_addrs obs.control_dns_resolved_addrs txid _ h.2)
    | inr later ↦ rw later refl
  ]

  -- What becomes of the four sets.
  unfoldable pub Changes : WebObservation → ℤ → WebAnalysis Float → WebAnalysis Float → Type 0
  Changes obs txid wa new =
      (new.dns_lookup_success_with_valid_address
        ≡ add_if (is_valid_lookup env obs) txid wa.dns_lookup_success_with_valid_address)
      × (new.dns_lookup_success_with_invalid_addresses
          ≡ add_if (is_invalid_lookup env obs) txid wa.dns_lookup_success_with_invalid_addresses)
      × (new.dns_lookup_success ≡ add_if (is_first_lookup obs) txid wa.dns_lookup_success)
      × (new.dns_lookup_success_with_bogon_addresses
          ≡ add_if (is_bogon_lookup obs) txid wa.dns_lookup_success_with_bogon_addresses)

  pub change-Changes :
      (obs : WebObservation) (txid : ℤ) (wa : WebAnalysis Float)
      → Changes obs txid wa (change obs txid wa)
  unfolding Changes change Adds Dns.add_success
  change-Changes obs txid wa =
      let bogon = Bool-cases (is_true obs.ip_address_bogon) in
      let adds = λ (s : WebAnalysis Float).
        compared-Adds obs.dns_resolved_addrs obs.control_dns_resolved_addrs txid s in
      elim (Bool-cases (at_depth_zero obs.tag_depth)) [
        | inl zero ↦ elim bogon [ inl b ↦ rw (zero, b) (adds _) | inr b ↦ rw (zero, b) (adds _) ]
        | inr later ↦ rw later (refl, refl, refl, refl)
      ]
