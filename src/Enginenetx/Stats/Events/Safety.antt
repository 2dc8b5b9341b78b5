-- ===== src/Enginenetx/Stats/Events/Safety.antt =====
-- The handlers of statsmanager.go on stats without nil pointers.
use ooni_probe_engine.Prelude.{String, ◌≡◌, refl, Option, none, some}
use ooni_probe_engine.Prelude.Int.{ℤ}
use ooni_probe_engine.Prelude.Outcome.{Outcome, returned, Returns, returns, Returns-bind}
use ooni_probe_engine.Enginenetx.Tactic.{HttpsDialerTactic, tactic_summary_key, domain_endpoint_key}
use ooni_probe_engine.Enginenetx.Stats.Data.{StatsTactic, StatsContainer}
use ooni_probe_engine.Enginenetx.Stats.Events.{
  Event, starting, tcp_connect_error, tls_handshake_error, tls_verify_error, success, handle,
  get_stats_tactic, set_stats_tactic, new_stats_tactic, started, tcp_connect_failed,
  tls_handshake_failed, tls_verify_failed, succeeded, update_found, start_found, on_starting,
  on_tcp_connect_error, on_tls_handshake_error, on_tls_verify_error, on_success,
}
use ooni_probe_engine.Enginenetx.Stats.Events.Effects.{
  counted, tcp_connect_failed-eq, tls_handshake_failed-eq, tls_verify_failed-eq, succeeded-eq,
}
use ooni_probe_engine.Enginenetx.Stats.Events.Holds.{
  Holds, get_stats_tactic-Q, set_stats_tactic-Holds,
}

module _ (Q : String → String → StatsTactic → Type 0) (t : HttpsDialerTactic)
    (c : StatsContainer) where
  abbrev QAt : StatsTactic → Type 0
  QAt r = Q (domain_endpoint_key t) (tactic_summary_key t) r

  update_found-Holds :
      (o : Option (Option StatsTactic)) (f : StatsTactic → Outcome StatsTactic)
      (g : StatsTactic → StatsTactic)
      → ((r : StatsTactic) → f r ≡ returned (g r))
      → ((r : StatsTactic) → QAt r → QAt (g r))
      → get_stats_tactic c t ≡ o
      → Holds Q c
      → Returns (Holds Q) (update_found o f c t)
  unfolding update_found
  update_found-Holds none f g fg step at h = returns c h
  update_found-Holds (some x) f g fg step at h =
      let (r, found, q) = get_stats_tactic-Q Q c t x h at in
      rw (found, update_found, fg) (set_stats_tactic-Holds Q c t (g r) (step r q) h)

  start_found-Holds :
      (now : ℤ) (o : Option (Option StatsTactic))
      → QAt (new_stats_tactic t)
      → ((r : StatsTactic) → QAt r → QAt (started now r))
      → get_stats_tactic c t ≡ o
      → Holds Q c
      → Returns (Holds Q) (start_found o now c t)
  unfolding start_found
  start_found-Holds now none fresh step at h =
      let new = new_stats_tactic t in
      Returns-bind (Holds Q) (Holds Q) (λ x. set_stats_tactic x t (started now new))
        (set_stats_tactic-Holds Q c t new fresh h)
        (λ c₁ kept. set_stats_tactic-Holds Q c₁ t (started now new) (step new fresh) kept)
  start_found-Holds now (some x) fresh step at h =
      let (r, found, q) = get_stats_tactic-Q Q c t x h at in
      rw (found, start_found) (set_stats_tactic-Holds Q c t (started now r) (step r q) h)

  -- Events keep a property of all records that a new record has and that counting keeps.
  pub handle-Holds :
      (now : ℤ) (e : Event)
      → QAt (new_stats_tactic t)
      → ((r : StatsTactic) → QAt r → QAt (counted now e r))
      → Holds Q c
      → Returns (Holds Q) (handle now e t c)
  unfolding handle on_starting on_tcp_connect_error on_tls_handshake_error on_tls_verify_error
      on_success counted
  handle-Holds now starting fresh step h =
      start_found-Holds now (get_stats_tactic c t) fresh step refl h
  handle-Holds now (tcp_connect_error ctx_err err) fresh step h =
      update_found-Holds (get_stats_tactic c t) (tcp_connect_failed now ctx_err (some err)) _
        (tcp_connect_failed-eq now ctx_err err) step refl h
  handle-Holds now (tls_handshake_error ctx_err err) fresh step h =
      update_found-Holds (get_stats_tactic c t) (tls_handshake_failed now ctx_err (some err)) _
        (tls_handshake_failed-eq now ctx_err err) step refl h
  handle-Holds now (tls_verify_error err) fresh step h =
      update_found-Holds (get_stats_tactic c t) (tls_verify_failed now (some err)) _
        (tls_verify_failed-eq now err) step refl h
  handle-Holds now success fresh step h =
      update_found-Holds (get_stats_tactic c t) (succeeded now) _ (succeeded-eq now) step refl h
