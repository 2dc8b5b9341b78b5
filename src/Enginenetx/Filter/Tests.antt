-- ===== src/Enginenetx/Filter/Tests.antt =====
-- What the dialer sees of a concrete stream, and the theorems on filtering at it.
use ooni_probe_engine.Prelude.{◌≡◌, Option, none, some, List, [], ◌∷◌, map, length}
use ooni_probe_engine.Prelude.Int.{pos}
use ooni_probe_engine.Enginenetx.Tactic.{HttpsDialerTactic, tactic_summary_key}
use ooni_probe_engine.Enginenetx.Filter.{https_dialer_filter_tactics}
use ooni_probe_engine.Enginenetx.Filter.Uniqueness.{
  first_occurrences, keys, keys-https_dialer_filter_tactics,
}
use ooni_probe_engine.Enginenetx.Filter.Delays.{
  delays_from, EmittedFrom, delays-https_dialer_filter_tactics,
  https_dialer_filter_tactics-EmittedFrom,
}
use ooni_probe_engine.Enginenetx.Samples.{backend, backend_v6}

-- A tactic that comes twice, with another one and a nil between.
abbrev stream : List (Option HttpsDialerTactic)
stream =
    some backend ∷ none ∷ some backend_v6 ∷ some (record backend { initial_delay = pos 7 }) ∷ []

keys-https_dialer_filter_tactics_example :
    map tactic_summary_key (https_dialer_filter_tactics stream) ≡ first_occurrences [] (keys stream)
keys-https_dialer_filter_tactics_example = keys-https_dialer_filter_tactics stream

delays-https_dialer_filter_tactics_example :
    map (λ tx. tx.initial_delay) (https_dialer_filter_tactics stream)
    ≡ delays_from 0 (length (https_dialer_filter_tactics stream))
delays-https_dialer_filter_tactics_example = delays-https_dialer_filter_tactics stream

https_dialer_filter_tactics-EmittedFrom_example :
    EmittedFrom (https_dialer_filter_tactics stream) stream
https_dialer_filter_tactics-EmittedFrom_example = https_dialer_filter_tactics-EmittedFrom stream
