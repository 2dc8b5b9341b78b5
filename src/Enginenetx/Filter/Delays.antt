-- ===== src/Enginenetx/Filter/Delays.antt =====
-- The delays of the tactics that the dialer sees, and what else may differ from the policy's.
use ooni_probe_engine.Prelude.{
  ℕ, zero, suc, ◌+◌, ◌≡◌, refl, inl, inr, Option, none, some, List, [], ◌∷◌, map, ltb, Bool-cases,
  length,
}
use ooni_probe_engine.Prelude.Int.{ℤ, pos}
use ooni_probe_engine.Prelude.Dict.{Dict, insert}
use ooni_probe_engine.Enginenetx.HappyEyeballs.{happy_eyeballs_delay}
use ooni_probe_engine.Enginenetx.Tactic.{HttpsDialerTactic, tactic_summary_key}
use ooni_probe_engine.Enginenetx.Filter.{
  times_seen, keep_unique, assign_delays, filter_out_nil_tactics, filter_only_keep_unique_tactics,
  filter_assign_initial_delays, https_dialer_filter_tactics,
}

-- The delays of attempts number `index`, `index + 1` and so on, `n` of them.
abbrev pub delays_from : ℕ → ℕ → List ℤ
delays_from index zero = []
delays_from index (suc n) = happy_eyeballs_delay (pos index) ∷ delays_from (index + 1) n

delays-assign_delays :
    (index : ℕ) (input : List HttpsDialerTactic)
    → map (λ tx. tx.initial_delay) (assign_delays index input)
      ≡ delays_from index (length (assign_delays index input))
unfolding assign_delays
delays-assign_delays index [] = refl
delays-assign_delays index (tx ∷ input) = cc (delays-assign_delays (index + 1) input)

-- Attempt number i of a dial waits for the happy eyeballs delay of i, whatever delay the policy gave.
pub delays-https_dialer_filter_tactics :
    (input : List (Option HttpsDialerTactic))
    → map (λ tx. tx.initial_delay) (https_dialer_filter_tactics input)
      ≡ delays_from 0 (length (https_dialer_filter_tactics input))
unfolding https_dialer_filter_tactics filter_assign_initial_delays
delays-https_dialer_filter_tactics input =
    delays-assign_delays 0 (filter_only_keep_unique_tactics (filter_out_nil_tactics input))

-- One list is a part of another, in the same order, up to the tactics' delays.
abbrev pub no_delay : HttpsDialerTactic → HttpsDialerTactic
no_delay tx = record tx { initial_delay = pos 0 }

pub data EmittedFrom : List HttpsDialerTactic → List (Option HttpsDialerTactic) → Type 0 where
  done : EmittedFrom [] []
  skip :
      {out : List HttpsDialerTactic} {input : List (Option HttpsDialerTactic)}
      (o : Option HttpsDialerTactic)
      → EmittedFrom out input
      → EmittedFrom out (o ∷ input)
  emit :
      {out : List HttpsDialerTactic} {input : List (Option HttpsDialerTactic)}
      (tx sent : HttpsDialerTactic)
      → no_delay sent ≡ no_delay tx
      → EmittedFrom out input
      → EmittedFrom (sent ∷ out) (some tx ∷ input)

emitted :
    (uniq : Dict ℕ) (index : ℕ) (input : List (Option HttpsDialerTactic))
    → EmittedFrom (assign_delays index (keep_unique uniq (filter_out_nil_tactics input))) input
unfolding assign_delays keep_unique filter_out_nil_tactics
emitted uniq index [] = done
emitted uniq index (none ∷ input) = skip none (emitted uniq index input)
emitted uniq index (some tx ∷ input) =
    let key = tactic_summary_key tx in
    let n = times_seen uniq tx in
    elim (Bool-cases (ltb 0 n)) [
      | inl old ↦ rw old (skip (some tx) (emitted uniq index input))
      | inr new ↦ rw new (
          emit tx (record tx { initial_delay = happy_eyeballs_delay (pos index) }) refl
            (emitted (insert key (n + 1) uniq) (index + 1) input))
    ]

-- What the dialer tries are tactics of the policy, in its order, changed in their delay at most.
pub https_dialer_filter_tactics-EmittedFrom :
    (input : List (Option HttpsDialerTactic))
    → EmittedFrom (https_dialer_filter_tactics input) input
unfolding https_dialer_filter_tactics filter_assign_initial_delays filter_only_keep_unique_tactics
https_dialer_filter_tactics-EmittedFrom input = emitted [] 0 input
