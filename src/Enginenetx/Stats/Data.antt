-- ===== src/Enginenetx/Stats/Data.antt =====
-- The data types of statsmanager.go. The stats are read from the disk, where a user may edit them:
-- a pointer or a map that may be nil is an `Option`. A time is a number of nanoseconds.
use ooni_probe_engine.Prelude.{Option, none, some, [], ◌∷◌, ◌≡◌, refl, ap}
use ooni_probe_engine.Prelude.Int.{ℤ, pos}
use ooni_probe_engine.Prelude.Dict.{Dict}
use ooni_probe_engine.Enginenetx.Tactic.{HttpsDialerTactic}
use ooni_probe_engine.Enginenetx.Tactic

pub record StatsTactic : Type 0 where
  pub count_started : ℤ
  pub count_tcp_connect_error : ℤ
  pub count_tcp_connect_interrupt : ℤ
  pub count_tls_handshake_error : ℤ
  pub count_tls_handshake_interrupt : ℤ
  pub count_tls_verification_error : ℤ
  pub count_success : ℤ
  pub histo_tcp_connect_error : Option (Dict ℤ)
  pub histo_tls_handshake_error : Option (Dict ℤ)
  pub histo_tls_verification_error : Option (Dict ℤ)
  pub last_updated : ℤ
  pub tactic : Option HttpsDialerTactic

pub record StatsDomainEndpoint : Type 0 where
  pub tactics : Option (Dict (Option StatsTactic))

pub record StatsContainer : Type 0 where
  pub domain_endpoints : Option (Dict (Option StatsDomainEndpoint))
  pub version : ℤ

abbrev pub stats_container_version : ℤ
stats_container_version = pos 5

-- The zero time.Time.
abbrev pub zero_time : ℤ
zero_time = pos 0

-- What a `range` loop meets in a map that may be nil.
abbrev pub entries {ℓ} : {V : Type ℓ} → Option (Dict V) → Dict V
entries none = []
entries (some m) = m

unfoldable pub new_stats_container : StatsContainer
new_stats_container = record { domain_endpoints = some []; version = stats_container_version }

-- statsMaybeCloneMapStringInt64
copy_map : Dict ℤ → Dict ℤ
copy_map [] = []
copy_map ((key, value) ∷ input) = (key, value) ∷ copy_map input

unfoldable pub stats_maybe_clone_map : Option (Dict ℤ) → Option (Dict ℤ)
unfolding copy_map
stats_maybe_clone_map none = none
stats_maybe_clone_map (some input) = some (copy_map input)

unfoldable pub stats_maybe_clone_tactic : Option HttpsDialerTactic → Option HttpsDialerTactic
stats_maybe_clone_tactic none = none
stats_maybe_clone_tactic (some input) = some (Tactic.clone input)

unfoldable pub clone : StatsTactic → StatsTactic
clone st = record {
  count_started = st.count_started;
  count_tcp_connect_error = st.count_tcp_connect_error;
  count_tcp_connect_interrupt = st.count_tcp_connect_interrupt;
  count_tls_handshake_error = st.count_tls_handshake_error;
  count_tls_handshake_interrupt = st.count_tls_handshake_interrupt;
  count_tls_verification_error = st.count_tls_verification_error;
  count_success = st.count_success;
  histo_tcp_connect_error = stats_maybe_clone_map st.histo_tcp_connect_error;
  histo_tls_handshake_error = stats_maybe_clone_map st.histo_tls_handshake_error;
  histo_tls_verification_error = stats_maybe_clone_map st.histo_tls_verification_error;
  last_updated = st.last_updated;
  tactic = stats_maybe_clone_tactic st.tactic;
}

copy_map_lem : (m : Dict ℤ) → copy_map m ≡ m
unfolding copy_map
copy_map_lem [] = refl
copy_map_lem ((key, value) ∷ m) = ap (λ (l : Dict ℤ). (key, value) ∷ l) (copy_map_lem m)

clone_map_lem : (m : Option (Dict ℤ)) → stats_maybe_clone_map m ≡ m
unfolding stats_maybe_clone_map
clone_map_lem none = refl
clone_map_lem (some m) = ap some (copy_map_lem m)

clone_tactic_lem : (t : Option HttpsDialerTactic) → stats_maybe_clone_tactic t ≡ t
unfolding stats_maybe_clone_tactic
clone_tactic_lem none = refl
clone_tactic_lem (some t) = ap some (Tactic.Keys.clone_lem t)

-- A clone has the contents of the original.
pub clone_lem : (st : StatsTactic) → clone st ≡ st
unfolding clone
clone_lem st = simp (clone_map_lem, clone_tactic_lem)
