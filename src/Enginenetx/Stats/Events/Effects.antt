-- ===== src/Enginenetx/Stats/Events/Effects.antt =====
-- What an event does to the records that can be looked up.
use mathlib.Core.Option
use ooni_probe_engine.Prelude.{
  ◌≡◌, refl, ◌∙◌, Option, none, some, if◌then◌else◌, Bool-cases, inl, inr, String,
}
use ooni_probe_engine.Prelude.Int.{ℤ, inc64}
use ooni_probe_engine.Prelude.Outcome.{Outcome, returned, >>=-returned, returned_inj}
use ooni_probe_engine.Enginenetx.Tactic.{HttpsDialerTactic}
use ooni_probe_engine.Enginenetx.Stats.Data.{StatsTactic, StatsContainer}
use ooni_probe_engine.Enginenetx.Stats.Events.{
  Event, starting, tcp_connect_error, tls_handshake_error, tls_verify_error, success, handle,
  get_stats_tactic, set_stats_tactic, new_stats_tactic, stats_safe_increment, started,
  tcp_connect_failed, tls_handshake_failed, tls_verify_failed, succeeded, update_found, start_found,
  on_starting, on_tcp_connect_error, on_tls_handshake_error, on_tls_verify_error, on_success,
}
use ooni_probe_engine.Enginenetx.Stats.Events.Slots.{same_slot, get-same_slot, get-set_stats_tactic}

-- The counters and histogram that an event increments, and the time that it notes.
unfoldable pub counted : ℤ → Event → StatsTactic → StatsTactic
unfolding started
counted now starting r = started now r
counted now (tcp_connect_error (some ctx_err) err) r = record r {
  count_tcp_connect_interrupt = inc64 r.count_tcp_connect_interrupt;
  last_updated = now;
}
counted now (tcp_connect_error none err) r = record r {
  count_tcp_connect_error = inc64 r.count_tcp_connect_error;
  histo_tcp_connect_error = stats_safe_increment r.histo_tcp_connect_error err;
  last_updated = now;
}
counted now (tls_handshake_error (some ctx_err) err) r = record r {
  count_tls_handshake_interrupt = inc64 r.count_tls_handshake_interrupt;
  last_updated = now;
}
counted now (tls_handshake_error none err) r = record r {
  count_tls_handshake_error = inc64 r.count_tls_handshake_error;
  histo_tls_handshake_error = stats_safe_increment r.histo_tls_handshake_error err;
  last_updated = now;
}
counted now (tls_verify_error err) r = record r {
  count_tls_verification_error = inc64 r.count_tls_verification_error;
  histo_tls_verification_error = stats_safe_increment r.histo_tls_verification_error err;
  last_updated = now;
}
counted now success r = record r { count_success = inc64 r.count_success; last_updated = now }

-- What a slot holds after an event in it: only a start makes a record.
unfoldable pub slot_after :
    ℤ → Event → HttpsDialerTactic → Option (Option StatsTactic) → Option (Option StatsTactic)
slot_after now e t (some o) = some (Option.map (counted now e) o)
slot_after now starting t none = some (some (counted now starting (new_stats_tactic t)))
slot_after now e t none = none

module _ (c c' : StatsContainer) (t u : HttpsDialerTactic) where
  -- A record that is found is replaced by what the handler makes of it.
  update_found-slot :
      (o : Option (Option StatsTactic)) (f : StatsTactic → Outcome StatsTactic)
      (g : StatsTactic → StatsTactic)
      → ((r : StatsTactic) → f r ≡ returned (g r))
      → get_stats_tactic c t ≡ o
      → update_found o f c t ≡ returned c'
      → get_stats_tactic c' u
        ≡ (if same_slot t u then Option.map (Option.map g) o else get_stats_tactic c u)
  unfolding update_found
  update_found-slot none f g fg at h = elim (Bool-cases (same_slot t u)) [
    | inl same ↦ rw same (cc (get-same_slot c t u same, returned_inj c c' h))
    | inr other ↦ rw other (cc (returned_inj c c' h))
  ]
  update_found-slot (some none) f g fg at h = cc
  update_found-slot (some (some r)) f g fg at h =
      let (r', made, stored) = >>=-returned (f r) (λ x. set_stats_tactic c t x) h in
      cc (get-set_stats_tactic c c' t u r' stored, returned_inj r' (g r) (cc (made, fg r)))

  start_found-slot :
      (now : ℤ) (o : Option (Option StatsTactic))
      → get_stats_tactic c t ≡ o
      → start_found o now c t ≡ returned c'
      → get_stats_tactic c' u
        ≡ (if same_slot t u then slot_after now starting t o else get_stats_tactic c u)
  unfolding start_found slot_after counted
  start_found-slot now none at h =
      let new = new_stats_tactic t in
      let (c₁, made, stored) =
        >>=-returned (set_stats_tactic c t new) (λ x. set_stats_tactic x t (started now new)) h in
      let first : get_stats_tactic c₁ u
          ≡ (if same_slot t u then some (some new) else get_stats_tactic c u) =
        get-set_stats_tactic c c₁ t u new made in
      let second : get_stats_tactic c' u
          ≡ (if same_slot t u then some (some (started now new)) else get_stats_tactic c₁ u) =
        get-set_stats_tactic c₁ c' t u (started now new) stored in
      elim (Bool-cases (same_slot t u)) [
        | inl same ↦ rw same (rw same at second)
        | inr other ↦ rw other ((rw other at second) ∙ (rw other at first))
      ]
  start_found-slot now (some none) at h = cc
  start_found-slot now (some (some r)) at h = get-set_stats_tactic c c' t u (started now r) h

-- The handlers of an outcome return, and count it.
pub tcp_connect_failed-eq :
    (now : ℤ) (ctx_err : Option String) (err : String) (r : StatsTactic)
    → tcp_connect_failed now ctx_err (some err) r
      ≡ returned (counted now (tcp_connect_error ctx_err err) r)
unfolding tcp_connect_failed counted
tcp_connect_failed-eq now none err r = refl
tcp_connect_failed-eq now (some ctx_err) err r = refl

pub tls_handshake_failed-eq :
    (now : ℤ) (ctx_err : Option String) (err : String) (r : StatsTactic)
    → tls_handshake_failed now ctx_err (some err) r
      ≡ returned (counted now (tls_handshake_error ctx_err err) r)
unfolding tls_handshake_failed counted
tls_handshake_failed-eq now none err r = refl
tls_handshake_failed-eq now (some ctx_err) err r = refl

pub tls_verify_failed-eq :
    (now : ℤ) (err : String) (r : StatsTactic)
    → tls_verify_failed now (some err) r ≡ returned (counted now (tls_verify_error err) r)
unfolding tls_verify_failed counted
tls_verify_failed-eq now err r = refl

pub succeeded-eq : (now : ℤ) (r : StatsTactic) → succeeded now r ≡ returned (counted now success r)
unfolding succeeded counted
succeeded-eq now r = refl

abbrev pub IsOutcome : Event → Type 0
IsOutcome starting = ⊥
IsOutcome e = Unit

slot_after_outcome :
    (now : ℤ) (e : Event) (t : HttpsDialerTactic) (o : Option (Option StatsTactic))
    → IsOutcome e
    → slot_after now e t o ≡ Option.map (Option.map (counted now e)) o
unfolding slot_after
slot_after_outcome now e t (some o) out = refl
slot_after_outcome now starting t none out = absurd out
slot_after_outcome now e t none out = refl

-- After an event of one tactic, its slot holds what the event makes of it and every other slot is as
-- it was.
pub get-handle :
    (now : ℤ) (e : Event) (c c' : StatsContainer) (t u : HttpsDialerTactic)
    → handle now e t c ≡ returned c'
    → get_stats_tactic c' u
      ≡ (if same_slot t u then slot_after now e t (get_stats_tactic c t) else get_stats_tactic c u)
unfolding handle on_starting on_tcp_connect_error on_tls_handshake_error on_tls_verify_error
    on_success
get-handle now starting c c' t u h = start_found-slot c c' t u now (get_stats_tactic c t) refl h
get-handle now (tcp_connect_error ctx_err err) c c' t u h =
    rw (slot_after_outcome now (tcp_connect_error ctx_err err) t (get_stats_tactic c t) tt) (
      update_found-slot c c' t u (get_stats_tactic c t) (tcp_connect_failed now ctx_err (some err))
        (counted now (tcp_connect_error ctx_err err)) (tcp_connect_failed-eq now ctx_err err) refl
        h)
get-handle now (tls_handshake_error ctx_err err) c c' t u h =
    rw (slot_after_outcome now (tls_handshake_error ctx_err err) t (get_stats_tactic c t) tt) (
      update_found-slot c c' t u (get_stats_tactic c t)
        (tls_handshake_failed now ctx_err (some err))
        (counted now (tls_handshake_error ctx_err err)) (tls_handshake_failed-eq now ctx_err err)
        refl h)
get-handle now (tls_verify_error err) c c' t u h =
    rw (slot_after_outcome now (tls_verify_error err) t (get_stats_tactic c t) tt) (
      update_found-slot c c' t u (get_stats_tactic c t) (tls_verify_failed now (some err))
        (counted now (tls_verify_error err)) (tls_verify_failed-eq now err) refl h)
get-handle now success c c' t u h =
    rw (slot_after_outcome now success t (get_stats_tactic c t) tt) (
      update_found-slot c c' t u (get_stats_tactic c t) (succeeded now) (counted now success)
        (succeeded-eq now) refl h)
