-- ===== src/Enginenetx/HttpsDialer/Safety.antt =====
-- dialTLS of httpsdialer.go on valid stats: connections, verification, counters.
use ooni_probe_engine.Prelude.{String, ◌≡◌, ◌≢◌, Option, none, some, List, ◌∷◌, false}
use ooni_probe_engine.Prelude.Outcome.{returned, Returns, returns, Returns-bind, Returns-value}
use ooni_probe_engine.Enginenetx.Tactic.{HttpsDialerTactic}
use ooni_probe_engine.Enginenetx.Stats.Data.{StatsContainer}
use ooni_probe_engine.Enginenetx.Stats.Events.{
  starting, tcp_connect_error, tls_handshake_error, tls_verify_error, success,
}
use ooni_probe_engine.Enginenetx.Stats.Events.Validity.{IsValid, event-IsValid}
use ooni_probe_engine.Enginenetx.Stats.Events.Accounting.{Accounted-IsBalanced, IsBalanced}
use ooni_probe_engine.Enginenetx.HttpsDialer.{
  dialed, Attempted, VerifyError, verify_error_text, verify_certificate_chain, Handshake,
  handshake_error, peer_certificates, Answers, after_verify, after_handshake, after_connect,
  after_wait, dial_tls, tactic_wait_ready,
}
use ooni_probe_engine.Enginenetx.HttpsDialer.Attempt.{open_after, is_dialed, dial_tls-Finished}

abbrev StatsValid : Attempted → Type 0
StatsValid r = IsValid r.stats

module _ {Cert : Type 0} (x509_verify : Cert → List Cert → String → Option String)
    (a : Answers x509_verify) (t : HttpsDialerTactic) where
  after_verify-IsValid :
      (c : StatsContainer) (o : Option VerifyError)
      → IsValid c
      → Returns StatsValid (after_verify x509_verify a t c o)
  unfolding after_verify
  after_verify-IsValid c (some err) h =
      Returns-bind IsValid StatsValid _
        (event-IsValid a.verified_at (tls_verify_error (verify_error_text err)) t c h)
        (λ c' v. returns _ v)
  after_verify-IsValid c none h =
      Returns-bind IsValid StatsValid _ (event-IsValid a.verified_at success t c h)
        (λ c' v. returns _ v)

  after_handshake-IsValid :
      (c : StatsContainer) (s : Handshake x509_verify)
      → IsValid c
      → Returns StatsValid (after_handshake x509_verify a t c s)
  unfolding after_handshake
  after_handshake-IsValid c (handshake_error err) h =
      Returns-bind IsValid StatsValid _
        (event-IsValid a.handshaked_at (tls_handshake_error a.handshake_ctx err) t c h)
        (λ c' v. returns _ v)
  after_handshake-IsValid c (peer_certificates certs) h =
      after_verify-IsValid c (verify_certificate_chain x509_verify t.verify_hostname certs) h

  after_connect-IsValid :
      (c : StatsContainer) (o : Option String)
      → IsValid c
      → Returns StatsValid (after_connect x509_verify a t c o)
  unfolding after_connect
  after_connect-IsValid c (some err) h =
      Returns-bind IsValid StatsValid _
        (event-IsValid a.connected_at (tcp_connect_error a.connect_ctx err) t c h)
        (λ c' v. returns _ v)
  after_connect-IsValid c none h = after_handshake-IsValid c a.handshake h

  after_wait-IsValid :
      (c : StatsContainer) (o : Option String)
      → IsValid c
      → Returns StatsValid (after_wait x509_verify a t c o)
  unfolding after_wait
  after_wait-IsValid c (some err) h = returns _ h
  after_wait-IsValid c none h =
      Returns-bind IsValid StatsValid _ (event-IsValid a.started_at starting t c h)
        (λ c' v. after_connect-IsValid c' a.connect_error v)

  dial_tls-IsValid :
      (c : StatsContainer) → IsValid c → Returns StatsValid (dial_tls x509_verify a t c)
  unfolding dial_tls
  dial_tls-IsValid c h =
      after_wait-IsValid c (tactic_wait_ready a.zero_time a.asked_at t a.select) h

  -- On valid stats an attempt returns, whatever the network and the context answer; it keeps the
  -- stats valid, and leaves a connection open exactly when it returns one.
  pub dial_tls_safe :
      (c : StatsContainer)
      → IsValid c
      → Returns
          (λ r. IsValid r.stats × (open_after false r.actions ≡ is_dialed r.result))
          (dial_tls x509_verify a t c)
  dial_tls_safe c h =
      let (r, made, valid) = Returns-value StatsValid (dial_tls-IsValid c h) in
      rw made (returns r (valid, (dial_tls-Finished x509_verify a t c r made).no_leak))

  -- An attempt that returns a connection has verified the peer's certificate for the tactic's host
  -- name to verify, which is not empty, whatever name it sent on the wire.
  pub dial_tls-Verified :
      (c : StatsContainer) (r : Attempted)
      → dial_tls x509_verify a t c ≡ returned r
      → r.result ≡ dialed
      → (leaf : Cert) × (rest : List Cert) × (a.handshake ≡ peer_certificates (leaf ∷ rest))
        × (x509_verify leaf rest t.verify_hostname ≡ none)
        × (t.verify_hostname ≢ "")
  dial_tls-Verified c r made e = (dial_tls-Finished x509_verify a t c r made).verified e

  -- If in every record the starts equal the outcomes (modulo 2 ^ 64), that is so after an attempt:
  -- what it started is counted as one outcome, be it a success, a failure or an interruption.
  pub dial_tls-IsBalanced :
      (c : StatsContainer) (r : Attempted)
      → dial_tls x509_verify a t c ≡ returned r
      → IsBalanced c
      → IsBalanced r.stats
  dial_tls-IsBalanced c r made h =
      Accounted-IsBalanced (dial_tls-Finished x509_verify a t c r made).accounted h
