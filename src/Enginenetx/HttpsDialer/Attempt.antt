-- ===== src/Enginenetx/HttpsDialer/Attempt.antt =====
-- What one dialing attempt does to the stats and to its connections.
use ooni_probe_engine.Prelude.{
  String, ◌≡◌, ◌≢◌, refl, subst, arith, Option, none, some, List, [], ◌∷◌, Bool, true, false,
  eq_iff,
}
use ooni_probe_engine.Prelude.Outcome.{returned, >>=-returned, returned_inj}
use ooni_probe_engine.Enginenetx.Tactic.{HttpsDialerTactic}
use ooni_probe_engine.Enginenetx.Stats.Data.{StatsContainer}
use ooni_probe_engine.Enginenetx.Stats.Events.{
  starting, tcp_connect_error, tls_handshake_error, tls_verify_error, success, handle,
}
use ooni_probe_engine.Enginenetx.Stats.Events.Accounting.{Accounted, not_started, started_once}
use ooni_probe_engine.Enginenetx.HttpsDialer.{
  Action, tcp_opened, tcp_closed, tls_opened, tls_closed, DialResult, dialed, failed, Attempted,
  VerifyError, verify_error_text, verify_peer, verify_certificate_chain, Handshake, handshake_error,
  peer_certificates, Answers, after_verify, after_handshake, after_connect, after_wait, dial_tls,
  tactic_wait_ready,
}

-- Whether a connection is open after some actions: closing the TLS connection closes the TCP one.
abbrev pub open_after : Bool → List Action → Bool
open_after b [] = b
open_after b (tcp_opened ∷ actions) = open_after true actions
open_after b (tcp_closed ∷ actions) = open_after false actions
open_after b (tls_opened ∷ actions) = open_after b actions
open_after b (tls_closed ∷ actions) = open_after false actions

abbrev pub is_dialed : DialResult → Bool
is_dialed dialed = true
is_dialed (failed err) = false

module _ {Cert : Type 0} (x509_verify : Cert → List Cert → String → Option String) where
  -- The leaf certificate verifies for the host name that the tactic names, which is not empty.
  abbrev pub Verified : Answers x509_verify → HttpsDialerTactic → Type 0
  Verified a t =
      (leaf : Cert) × (rest : List Cert) × (a.handshake ≡ peer_certificates (leaf ∷ rest))
      × (x509_verify leaf rest t.verify_hostname ≡ none)
      × (t.verify_hostname ≢ "")

  -- What holds of an attempt that began with the stats `c`.
  pub record Finished (a : Answers x509_verify) (t : HttpsDialerTactic) (c : StatsContainer)
      (r : Attempted) : Type 0 where
    pub accounted : Accounted t c r.stats
    pub no_leak : open_after false r.actions ≡ is_dialed r.result
    pub verified : r.result ≡ dialed → Verified a t

  verified_chain :
      (hostname : String) (certs : List Cert)
      → verify_certificate_chain x509_verify hostname certs ≡ none
      → (leaf : Cert) × (rest : List Cert) × (certs ≡ leaf ∷ rest)
        × (x509_verify leaf rest hostname ≡ none)
        × (hostname ≢ "")
  unfolding verify_certificate_chain verify_peer
  verified_chain hostname [] h = absurd (ground (arith, eq_iff hostname ""))
  verified_chain hostname (leaf ∷ rest) h =
      (leaf, rest, refl, ground (arith, eq_iff hostname ""), ground (arith, eq_iff hostname ""))

  module _ (a : Answers x509_verify) (t : HttpsDialerTactic) (c c₁ : StatsContainer)
      (start : handle a.started_at starting t c ≡ returned c₁) where
    after_verify-Finished :
        (certs : List Cert) (o : Option VerifyError) (r : Attempted)
        → a.handshake ≡ peer_certificates certs
        → verify_certificate_chain x509_verify t.verify_hostname certs ≡ o
        → after_verify x509_verify a t c₁ o ≡ returned r
        → Finished a t c r
    unfolding after_verify
    after_verify-Finished certs (some err) r shaken chain h =
        let (c₂, end, rest) =
          >>=-returned (handle a.verified_at (tls_verify_error (verify_error_text err)) t c₁) _ h in
        subst (Finished a t c) (returned_inj _ r rest) (record {
          accounted =
              started_once a.started_at a.verified_at (tls_verify_error (verify_error_text err))
                start tt end;
          no_leak = refl;
          verified = λ e. cc;
        })
    after_verify-Finished certs none r shaken chain h =
        let (c₂, end, rest) = >>=-returned (handle a.verified_at success t c₁) _ h in
        let (leaf, more, split, good, named) = verified_chain t.verify_hostname certs chain in
        subst (Finished a t c) (returned_inj _ r rest) (record {
          accounted = started_once a.started_at a.verified_at success start tt end;
          no_leak = refl;
          verified = λ e. (leaf, more, cc, good, named);
        })

    after_handshake-Finished :
        (s : Handshake x509_verify) (r : Attempted)
        → a.handshake ≡ s
        → after_handshake x509_verify a t c₁ s ≡ returned r
        → Finished a t c r
    unfolding after_handshake
    after_handshake-Finished (handshake_error err) r shaken h =
        let (c₂, end, rest) =
          >>=-returned (handle a.handshaked_at (tls_handshake_error a.handshake_ctx err) t c₁) _
            h in
        subst (Finished a t c) (returned_inj _ r rest) (record {
          accounted =
              started_once a.started_at a.handshaked_at (tls_handshake_error a.handshake_ctx err)
                start tt end;
          no_leak = refl;
          verified = λ e. cc;
        })
    after_handshake-Finished (peer_certificates certs) r shaken h =
        after_verify-Finished certs _ r shaken refl h

    after_connect-Finished :
        (o : Option String) (r : Attempted)
        → after_connect x509_verify a t c₁ o ≡ returned r
        → Finished a t c r
    unfolding after_connect
    after_connect-Finished (some err) r h =
        let (c₂, end, rest) =
          >>=-returned (handle a.connected_at (tcp_connect_error a.connect_ctx err) t c₁) _ h in
        subst (Finished a t c) (returned_inj _ r rest) (record {
          accounted =
              started_once a.started_at a.connected_at (tcp_connect_error a.connect_ctx err) start
                tt end;
          no_leak = refl;
          verified = λ e. cc;
        })
    after_connect-Finished none r h = after_handshake-Finished a.handshake r refl h

  after_wait-Finished :
      (a : Answers x509_verify) (t : HttpsDialerTactic) (c : StatsContainer) (o : Option String)
      (r : Attempted)
      → after_wait x509_verify a t c o ≡ returned r
      → Finished a t c r
  unfolding after_wait
  after_wait-Finished a t c (some err) r h =
      subst (Finished a t c) (returned_inj _ r h)
        (record { accounted = not_started; no_leak = refl; verified = λ e. cc })
  after_wait-Finished a t c none r h =
      let (c₁, start, rest) = >>=-returned (handle a.started_at starting t c) _ h in
      after_connect-Finished a t c c₁ start a.connect_error r rest

  pub dial_tls-Finished :
      (a : Answers x509_verify) (t : HttpsDialerTactic) (c : StatsContainer) (r : Attempted)
      → dial_tls x509_verify a t c ≡ returned r
      → Finished a t c r
  unfolding dial_tls
  dial_tls-Finished a t c r h =
      after_wait-Finished a t c (tactic_wait_ready a.zero_time a.asked_at t a.select) r h
