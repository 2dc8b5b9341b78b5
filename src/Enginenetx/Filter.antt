-- ===== src/Enginenetx/Filter.antt =====
-- pkg/enginenetx/filter.go, and httpsDialerFilterTactics of httpsdialer.go. A channel that is read
-- until it is closed is the list of what it carries; a nil tactic is `none`.
pub mod Uniqueness
pub mod Delays
mod Tests
use ooni_probe_engine.Prelude.{
  ℕ, suc, ◌+◌, Bool, Option, none, some, List, [], ◌∷◌, ltb, if◌then◌else◌,
}
use ooni_probe_engine.Prelude.Int.{pos}
use ooni_probe_engine.Prelude.Dict.{Dict, lookup, insert}
use ooni_probe_engine.Enginenetx.HappyEyeballs.{happy_eyeballs_delay}
use ooni_probe_engine.Enginenetx.Tactic.{HttpsDialerTactic, tactic_summary_key}

unfoldable pub filter_out_nil_tactics : List (Option HttpsDialerTactic) → List HttpsDialerTactic
filter_out_nil_tactics [] = []
filter_out_nil_tactics (none ∷ input) = filter_out_nil_tactics input
filter_out_nil_tactics (some tx ∷ input) = tx ∷ filter_out_nil_tactics input

abbrev pub or_zero : Option ℕ → ℕ
or_zero none = 0
or_zero (some n) = n

-- uniq[key]
unfoldable pub times_seen : Dict ℕ → HttpsDialerTactic → ℕ
times_seen uniq tx = or_zero (lookup (tactic_summary_key tx) uniq)

-- The loop, from a given content of `uniq`.
unfoldable pub keep_unique : Dict ℕ → List HttpsDialerTactic → List HttpsDialerTactic
keep_unique uniq [] = []
keep_unique uniq (tx ∷ input) =
    let skip = keep_unique uniq input in
    let emit =
      tx ∷ keep_unique (insert (tactic_summary_key tx) (times_seen uniq tx + 1) uniq) input in
    if ltb 0 (times_seen uniq tx) then skip else emit

unfoldable pub filter_only_keep_unique_tactics : List HttpsDialerTactic → List HttpsDialerTactic
filter_only_keep_unique_tactics input = keep_unique [] input

-- The loop, from a given `index`.
unfoldable pub assign_delays : ℕ → List HttpsDialerTactic → List HttpsDialerTactic
assign_delays index [] = []
assign_delays index (tx ∷ input) =
    record tx { initial_delay = happy_eyeballs_delay (pos index) } ∷ assign_delays (index + 1) input

unfoldable pub filter_assign_initial_delays : List HttpsDialerTactic → List HttpsDialerTactic
filter_assign_initial_delays input = assign_delays 0 input

unfoldable pub https_dialer_filter_tactics :
    List (Option HttpsDialerTactic) → List HttpsDialerTactic
https_dialer_filter_tactics input =
    filter_assign_initial_delays (filter_only_keep_unique_tactics (filter_out_nil_tactics input))
