-- ===== src/Enginenetx/Stats/Events/Accounting.antt =====
-- The counters of starts and outcomes in the records of statsmanager.go.
use ooni_probe_engine.Prelude.{
  ℕ, ◌+◌, ◌%◌, ◌≡◌, arith, Option, none, some, true, inl, inr, Bool-cases, eq_refl,
}
use ooni_probe_engine.Prelude.Int.{ℤ, int64_mod, residue, residue-inc64}
use ooni_probe_engine.Prelude.Outcome.{returned}
use ooni_probe_engine.Enginenetx.Tactic.{HttpsDialerTactic}
use ooni_probe_engine.Enginenetx.Stats.Data.{StatsTactic, StatsContainer}
use ooni_probe_engine.Enginenetx.Stats.Events.{
  Event, starting, tcp_connect_error, tls_handshake_error, tls_verify_error, success, handle,
  get_stats_tactic, new_stats_tactic, started,
}
use ooni_probe_engine.Enginenetx.Stats.Events.Slots.{same_slot}
use ooni_probe_engine.Enginenetx.Stats.Events.Effects.{counted, slot_after, get-handle, IsOutcome}

-- The counters of the outcomes, added up; an int64 counts modulo 2 ^ 64.
abbrev pub outcomes : StatsTactic → ℕ
outcomes r =
    residue r.count_tcp_connect_error
    + residue r.count_tcp_connect_interrupt
    + residue r.count_tls_handshake_error
    + residue r.count_tls_handshake_interrupt
    + residue r.count_tls_verification_error
    + residue r.count_success

-- `n` more starts than outcomes have been counted.
abbrev pub InFlight : ℕ → StatsTactic → Type 0
InFlight n r = residue r.count_started ≡ (outcomes r + n) % int64_mod

InFlight-started : (now : ℤ) (r : StatsTactic) → InFlight 0 r → InFlight 1 (counted now starting r)
unfolding counted started
InFlight-started now r h = omega (arith, residue-inc64 r.count_started)

InFlight-outcome :
    (now : ℤ) (e : Event) (r : StatsTactic)
    → IsOutcome e
    → InFlight 1 r
    → InFlight 0 (counted now e r)
unfolding counted
InFlight-outcome now (tcp_connect_error none err) r out h =
    omega (arith, residue-inc64 r.count_tcp_connect_error)
InFlight-outcome now (tcp_connect_error (some ctx_err) err) r out h =
    omega (arith, residue-inc64 r.count_tcp_connect_interrupt)
InFlight-outcome now (tls_handshake_error none err) r out h =
    omega (arith, residue-inc64 r.count_tls_handshake_error)
InFlight-outcome now (tls_handshake_error (some ctx_err) err) r out h =
    omega (arith, residue-inc64 r.count_tls_handshake_interrupt)
InFlight-outcome now (tls_verify_error err) r out h =
    omega (arith, residue-inc64 r.count_tls_verification_error)
InFlight-outcome now success r out h = omega (arith, residue-inc64 r.count_success)
InFlight-outcome now starting r out h = absurd out

InFlight-new : (t : HttpsDialerTactic) → InFlight 0 (new_stats_tactic t)
unfolding new_stats_tactic residue
InFlight-new t = omega arith

-- What a slot that was found to hold `o` holds, if it holds a record, has `n` in flight.
abbrev pub SlotInFlight : ℕ → Option (Option StatsTactic) → Type 0
SlotInFlight n (some (some r)) = InFlight n r
SlotInFlight n o = Unit

abbrev pub IsBalanced : StatsContainer → Type 0
IsBalanced c = (u : HttpsDialerTactic) → SlotInFlight 0 (get_stats_tactic c u)

started_slot :
    (now : ℤ) (t : HttpsDialerTactic) (o : Option (Option StatsTactic))
    → SlotInFlight 0 o
    → SlotInFlight 1 (slot_after now starting t o)
unfolding slot_after
started_slot now t none h = InFlight-started now (new_stats_tactic t) (InFlight-new t)
started_slot now t (some none) h = tt
started_slot now t (some (some r)) h = InFlight-started now r h

outcome_slot :
    (now : ℤ) (e : Event) (t : HttpsDialerTactic) (o : Option (Option StatsTactic))
    → IsOutcome e
    → SlotInFlight 1 o
    → SlotInFlight 0 (slot_after now e t o)
unfolding slot_after
outcome_slot now e t (some none) out h = tt
outcome_slot now e t (some (some r)) out h = InFlight-outcome now e r out h
outcome_slot now starting t none out h = absurd out
outcome_slot now e t none out h = tt

same_slot_refl : (t : HttpsDialerTactic) → same_slot t t ≡ true
same_slot_refl t = rw (eq_refl, eq_refl)

-- A dial's events: none, or a start and one outcome.
pub data Accounted (t : HttpsDialerTactic) (c : StatsContainer) : StatsContainer → Type 0 where
  not_started : Accounted t c c
  started_once :
      {c₁ c₂ : StatsContainer} (now later : ℤ) (e : Event)
      → handle now starting t c ≡ returned c₁
      → IsOutcome e
      → handle later e t c₁ ≡ returned c₂
      → Accounted t c c₂

-- Where every start that was counted has a counted outcome, that is so after a start and an outcome.
pub Accounted-IsBalanced :
    {t : HttpsDialerTactic} {c c' : StatsContainer}
    → Accounted t c c'
    → IsBalanced c
    → IsBalanced c'
Accounted-IsBalanced not_started h u = h u
Accounted-IsBalanced {t} {c} {c'} (started_once {c₁ = c₁} now later e start out end) h u =
    let first : get_stats_tactic c₁ t ≡ slot_after now starting t (get_stats_tactic c t) =
      rw same_slot_refl at (get-handle now starting c c₁ t t start) in
    elim (Bool-cases (same_slot t u)) [
      | inl same ↦
          rw (get-handle later e c₁ c' t u end, same, first)
            (outcome_slot later e t _ out (started_slot now t _ (h t)))
      | inr other ↦
          rw
            (get-handle later e c₁ c' t u end, other, get-handle now starting c c₁ t u start, other)
            (h u)
    ]
