-- ===== src/Enginenetx/HttpsDialer.antt =====
-- pkg/enginenetx/httpsdialer.go: one dialing attempt (httpsDialerTacticWaitReady, dialTLS,
-- httpsDialerVerifyCertificateChain) and the gathering of the attempts' results (DialTLSContext,
-- httpsDialerReduceResult). What the network and the context do is an argument.
pub mod Attempt
pub mod Safety
pub mod Gather
mod Tests
use mathlib.Core.Option
use ooni_probe_engine.Prelude.{
  String, Bool, true, false, Option, none, some, List, [], ◌∷◌, ◌++◌, str_eq, if◌then◌else◌, ℕ,
  zero, suc,
}
use ooni_probe_engine.Prelude.Int.{ℤ, pos, ltb_ℤ, ◌+ℤ◌}
use ooni_probe_engine.Prelude.Golang.{sub_time}
use ooni_probe_engine.Prelude.Outcome.{Outcome, returned, panicked, ◌>>=◌}
use ooni_probe_engine.Enginenetx.Tactic.{HttpsDialerTactic}
use ooni_probe_engine.Enginenetx.Stats.Data.{StatsContainer, zero_time}
use ooni_probe_engine.Enginenetx.Stats.Events.{
  starting, tcp_connect_error, tls_handshake_error, tls_verify_error, success, handle,
}

-- httpsDialerWorkerZeroTime.Get: the time that is returned, which is also the new state.
unfoldable pub get_zero_time : ℤ → ℤ → ℤ
get_zero_time t now = if ltb_ℤ t zero_time then t else if ltb_ℤ zero_time t then t else now

-- What comes first while an attempt waits: its timer, or the end of the context.
pub data Select : Type 0 where
  timer : Select
  context_done : String → Select

selected : Select → Option String
selected timer = none
selected (context_done err) = some err

-- The error of httpsDialerTacticWaitReady, if any.
unfoldable pub tactic_wait_ready : ℤ → ℤ → HttpsDialerTactic → Select → Option String
unfolding selected
tactic_wait_ready t0 now tactic select =
    let deadline = t0 +ℤ tactic.initial_delay in
    let delta = sub_time deadline now in if ltb_ℤ (pos 0) delta then selected select else none

pub data VerifyError : Type 0 where
  empty_verify_hostname no_peer_certificate : VerifyError
  bad_chain : String → VerifyError

unfoldable pub verify_error_text : VerifyError → String
verify_error_text empty_verify_hostname = "empty VerifyHostname"
verify_error_text no_peer_certificate = "no peer certificate"
verify_error_text (bad_chain err) = err

-- What happened to the connections of an attempt, in order.
pub data Action : Type 0 where
  tcp_opened tcp_closed tls_opened tls_closed : Action

pub data DialResult : Type 0 where
  dialed : DialResult
  failed : String → DialResult

pub record Attempted : Type 0 where
  pub result : DialResult
  pub actions : List Action
  pub stats : StatsContainer

-- `x509_verify leaf intermediates hostname` is the error, if any, of verifying a certificate for a
-- host name against the roots.
module _ {Cert : Type 0} (x509_verify : Cert → List Cert → String → Option String) where
  verify_peer : String → List Cert → Option VerifyError
  verify_peer hostname [] = some no_peer_certificate
  verify_peer hostname (leaf ∷ intermediates) =
      Option.map bad_chain (x509_verify leaf intermediates hostname)

  unfoldable pub verify_certificate_chain : String → List Cert → Option VerifyError
  unfolding verify_peer
  verify_certificate_chain hostname peer_certificates =
      if str_eq hostname ""
      then some empty_verify_hostname
      else verify_peer hostname peer_certificates

  -- The answers that the network and the context give to one attempt, and the times of the events.
  pub data Handshake : Type 0 where
    handshake_error : String → Handshake
    peer_certificates : List Cert → Handshake

  pub record Answers : Type 0 where
    pub zero_time : ℤ
    pub asked_at : ℤ
    pub select : Select
    pub started_at : ℤ
    pub connect_error : Option String
    pub connect_ctx : Option String
    pub connected_at : ℤ
    pub handshake : Handshake
    pub handshake_ctx : Option String
    pub handshaked_at : ℤ
    pub verified_at : ℤ

  after_verify :
      Answers → HttpsDialerTactic → StatsContainer → Option VerifyError → Outcome Attempted
  after_verify a tactic c (some err) = do
    c' ← handle a.verified_at (tls_verify_error (verify_error_text err)) tactic c
    returned (record {
      result = failed (verify_error_text err);
      actions = tcp_opened ∷ tls_opened ∷ tls_closed ∷ [];
      stats = c';
    })
  after_verify a tactic c none = do
    c' ← handle a.verified_at success tactic c
    returned (record { result = dialed; actions = tcp_opened ∷ tls_opened ∷ []; stats = c' })

  after_handshake : Answers → HttpsDialerTactic → StatsContainer → Handshake → Outcome Attempted
  after_handshake a tactic c (handshake_error err) = do
    c' ← handle a.handshaked_at (tls_handshake_error a.handshake_ctx err) tactic c
    returned (record { result = failed err; actions = tcp_opened ∷ tcp_closed ∷ []; stats = c' })
  after_handshake a tactic c (peer_certificates certs) =
      after_verify a tactic c (verify_certificate_chain tactic.verify_hostname certs)

  after_connect : Answers → HttpsDialerTactic → StatsContainer → Option String → Outcome Attempted
  after_connect a tactic c (some err) = do
    c' ← handle a.connected_at (tcp_connect_error a.connect_ctx err) tactic c
    returned (record { result = failed err; actions = []; stats = c' })
  after_connect a tactic c none = after_handshake a tactic c a.handshake

  after_wait : Answers → HttpsDialerTactic → StatsContainer → Option String → Outcome Attempted
  after_wait a tactic c (some err) =
      returned (record { result = failed err; actions = []; stats = c })
  after_wait a tactic c none = do
    c' ← handle a.started_at starting tactic c
    after_connect a tactic c' a.connect_error

  unfoldable pub dial_tls : Answers → HttpsDialerTactic → StatsContainer → Outcome Attempted
  unfolding after_wait after_connect after_handshake after_verify
  dial_tls a tactic c =
      after_wait a tactic c (tactic_wait_ready a.zero_time a.asked_at tactic a.select)

-- What the collecting loop receives: a worker's result, or the news that a worker is done.
pub data Message (Conn : Type 0) : Type 0 where
  joined : Message Conn
  got_error : String → Message Conn
  got_conn : Conn → Message Conn

pub record Collected (Conn : Type 0) : Type 0 where
  pub connv : List Conn
  pub errorv : List String
  pub canceled : Bool

-- What the caller gets, and the connections that are closed.
pub data Reduced (Conn : Type 0) : Type 0 where
  connection : Conn → List Conn → Reduced Conn
  joined_errors : List String → Reduced Conn
  dns_no_answer : Reduced Conn

abbrev pub parallelism : ℕ
parallelism = 16

module _ {Conn : Type 0} where
  -- The loop, while `missing` workers have not joined; it blocks (none) if no message comes.
  unfoldable pub collect : ℕ → Collected Conn → List (Message Conn) → Option (Collected Conn)
  collect zero s messages = some s
  collect (suc missing) s [] = none
  collect (suc missing) s (joined ∷ messages) = collect missing s messages
  collect (suc missing) s (got_error err ∷ messages) =
      collect (suc missing) (record s { errorv = s.errorv ++ (err ∷ []) }) messages
  collect (suc missing) s (got_conn conn ∷ messages) =
      collect (suc missing) (record s { connv = s.connv ++ (conn ∷ []); canceled = true }) messages

  unfoldable pub reduce_result : List Conn → List String → Reduced Conn
  reduce_result (conn ∷ connv) errorv = connection conn connv
  reduce_result [] (err ∷ errorv) = joined_errors (err ∷ errorv)
  reduce_result [] [] = dns_no_answer

  unfoldable pub dial_tls_context : List (Message Conn) → Option (Reduced Conn)
  dial_tls_context messages =
      Option.map (λ s. reduce_result s.connv s.errorv)
        (collect parallelism (record { connv = []; errorv = []; canceled = false }) messages)
