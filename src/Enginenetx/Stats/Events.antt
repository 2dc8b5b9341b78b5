-- ===== src/Enginenetx/Stats/Events.antt =====
-- The events of statsmanager.go: GetStatsTacticLocked, SetStatsTacticLocked and the handlers that
-- the dialer calls. A handler runs while it holds the mutex, so it is one step from a container to
-- the next; what it writes through the record's pointer is stored in the record's place.
pub mod Slots
pub mod Holds
pub mod Effects
pub mod Safety
pub mod Validity
pub mod Accounting
mod Tests
use ooni_probe_engine.Prelude.{
  ℕ, String, Bool, Option, none, some, List, [], ◌∷◌, leb, length, if◌then◌else◌,
}
use ooni_probe_engine.Prelude.Int.{ℤ, pos, inc64}
use ooni_probe_engine.Prelude.Dict.{Dict, lookup, insert}
use ooni_probe_engine.Prelude.Outcome.{Outcome, returned, panicked, ◌>>=◌}
use ooni_probe_engine.Enginenetx.Tactic
use ooni_probe_engine.Enginenetx.Tactic.{HttpsDialerTactic, tactic_summary_key, domain_endpoint_key}
use ooni_probe_engine.Enginenetx.Stats.Data.{
  StatsTactic, StatsDomainEndpoint, StatsContainer, entries, zero_time,
}

-- The record of a domain endpoint, which may be missing or nil.
unfoldable pub record_in :
    Option (Option StatsDomainEndpoint) → String → Option (Option StatsTactic)
record_in none summary = none
record_in (some none) summary = none
record_in (some (some e)) summary = lookup summary (entries e.tactics)

unfoldable pub get_stats_tactic : StatsContainer → HttpsDialerTactic → Option (Option StatsTactic)
get_stats_tactic c tactic =
    record_in (lookup (domain_endpoint_key tactic) (entries c.domain_endpoints))
      (tactic_summary_key tactic)

-- domainEpntRecord.Tactics[summary] = record, on a map that may be nil.
unfoldable pub write_tactic :
    Option (Dict (Option StatsTactic)) → String → StatsTactic → Outcome StatsDomainEndpoint
write_tactic none summary st = panicked
write_tactic (some m) summary st = returned (record { tactics = some (insert summary (some st) m) })

unfoldable pub write_in :
    Option (Option StatsDomainEndpoint) → String → StatsTactic → Outcome StatsDomainEndpoint
write_in none summary st = write_tactic (some []) summary st
write_in (some none) summary st = panicked
write_in (some (some e)) summary st = write_tactic e.tactics summary st

-- The map of the endpoints, made if there is nothing in it.
unfoldable pub initialized :
    Option (Dict (Option StatsDomainEndpoint)) → Dict (Option StatsDomainEndpoint)
initialized d = if leb (length (entries d)) 0 then [] else entries d

unfoldable pub set_stats_tactic :
    StatsContainer → HttpsDialerTactic → StatsTactic → Outcome StatsContainer
set_stats_tactic c tactic st = do
  let domain_epnt = domain_endpoint_key tactic
  e ← write_in (lookup domain_epnt (entries c.domain_endpoints)) (tactic_summary_key tactic) st
  returned (record c {
    domain_endpoints = some (insert domain_epnt (some e) (initialized c.domain_endpoints));
  })

-- The record that OnStarting makes.
unfoldable pub new_stats_tactic : HttpsDialerTactic → StatsTactic
new_stats_tactic t = record {
  count_started = pos 0;
  count_tcp_connect_error = pos 0;
  count_tcp_connect_interrupt = pos 0;
  count_tls_handshake_error = pos 0;
  count_tls_handshake_interrupt = pos 0;
  count_tls_verification_error = pos 0;
  count_success = pos 0;
  histo_tcp_connect_error = some [];
  histo_tls_handshake_error = some [];
  histo_tls_verification_error = some [];
  last_updated = zero_time;
  tactic = some (Tactic.clone t);
}

abbrev or_zero : Option ℤ → ℤ
or_zero none = pos 0
or_zero (some n) = n

-- statsSafeIncrementMapStringInt64, on a map that may be nil.
unfoldable pub stats_safe_increment : Option (Dict ℤ) → String → Option (Dict ℤ)
stats_safe_increment input value =
    some (insert value (inc64 (or_zero (lookup value (entries input)))) (entries input))

-- What each handler does to the record. An error that is nil fails an assertion.
unfoldable pub started : ℤ → StatsTactic → StatsTactic
started now r = record r { count_started = inc64 r.count_started; last_updated = now }

unfoldable pub tcp_connect_failed :
    ℤ → Option String → Option String → StatsTactic → Outcome StatsTactic
tcp_connect_failed now (some ctx_err) err r = returned (record r {
  count_tcp_connect_interrupt = inc64 r.count_tcp_connect_interrupt;
  last_updated = now;
})
tcp_connect_failed now none none r = panicked
tcp_connect_failed now none (some err) r = returned (record r {
  count_tcp_connect_error = inc64 r.count_tcp_connect_error;
  histo_tcp_connect_error = stats_safe_increment r.histo_tcp_connect_error err;
  last_updated = now;
})

unfoldable pub tls_handshake_failed :
    ℤ → Option String → Option String → StatsTactic → Outcome StatsTactic
tls_handshake_failed now (some ctx_err) err r = returned (record r {
  count_tls_handshake_interrupt = inc64 r.count_tls_handshake_interrupt;
  last_updated = now;
})
tls_handshake_failed now none none r = panicked
tls_handshake_failed now none (some err) r = returned (record r {
  count_tls_handshake_error = inc64 r.count_tls_handshake_error;
  histo_tls_handshake_error = stats_safe_increment r.histo_tls_handshake_error err;
  last_updated = now;
})

unfoldable pub tls_verify_failed : ℤ → Option String → StatsTactic → Outcome StatsTactic
tls_verify_failed now none r = panicked
tls_verify_failed now (some err) r = returned (record r {
  count_tls_verification_error = inc64 r.count_tls_verification_error;
  histo_tls_verification_error = stats_safe_increment r.histo_tls_verification_error err;
  last_updated = now;
})

unfoldable pub succeeded : ℤ → StatsTactic → Outcome StatsTactic
succeeded now r = returned (record r { count_success = inc64 r.count_success; last_updated = now })

-- The part that the handlers share: a record that is not found is only warned about.
unfoldable pub update_found :
    Option (Option StatsTactic)
    → (StatsTactic → Outcome StatsTactic)
    → StatsContainer
    → HttpsDialerTactic
    → Outcome StatsContainer
update_found none f c tactic = returned c
update_found (some none) f c tactic = panicked
update_found (some (some r)) f c tactic = do r' ← f r; set_stats_tactic c tactic r'

unfoldable pub start_found :
    Option (Option StatsTactic) → ℤ → StatsContainer → HttpsDialerTactic → Outcome StatsContainer
start_found none now c tactic = do
  c' ← set_stats_tactic c tactic (new_stats_tactic tactic)
  set_stats_tactic c' tactic (started now (new_stats_tactic tactic))
start_found (some none) now c tactic = panicked
start_found (some (some r)) now c tactic = set_stats_tactic c tactic (started now r)

unfoldable pub on_starting : ℤ → HttpsDialerTactic → StatsContainer → Outcome StatsContainer
on_starting now tactic c = start_found (get_stats_tactic c tactic) now c tactic

unfoldable pub on_tcp_connect_error :
    ℤ → Option String → HttpsDialerTactic → Option String → StatsContainer → Outcome StatsContainer
on_tcp_connect_error now ctx_err tactic err c =
    update_found (get_stats_tactic c tactic) (tcp_connect_failed now ctx_err err) c tactic

unfoldable pub on_tls_handshake_error :
    ℤ → Option String → HttpsDialerTactic → Option String → StatsContainer → Outcome StatsContainer
on_tls_handshake_error now ctx_err tactic err c =
    update_found (get_stats_tactic c tactic) (tls_handshake_failed now ctx_err err) c tactic

unfoldable pub on_tls_verify_error :
    ℤ → HttpsDialerTactic → Option String → StatsContainer → Outcome StatsContainer
on_tls_verify_error now tactic err c =
    update_found (get_stats_tactic c tactic) (tls_verify_failed now err) c tactic

unfoldable pub on_success : ℤ → HttpsDialerTactic → StatsContainer → Outcome StatsContainer
on_success now tactic c = update_found (get_stats_tactic c tactic) (succeeded now) c tactic

-- The calls that the dialer makes: an error that it reports is never nil.
pub data Event : Type 0 where
  starting : Event
  tcp_connect_error : Option String → String → Event
  tls_handshake_error : Option String → String → Event
  tls_verify_error : String → Event
  success : Event

-- The handler of an event, called at a time.
unfoldable pub handle : ℤ → Event → HttpsDialerTactic → StatsContainer → Outcome StatsContainer
handle now starting tactic c = on_starting now tactic c
handle now (tcp_connect_error ctx_err err) tactic c =
    on_tcp_connect_error now ctx_err tactic (some err) c
handle now (tls_handshake_error ctx_err err) tactic c =
    on_tls_handshake_error now ctx_err tactic (some err) c
handle now (tls_verify_error err) tactic c = on_tls_verify_error now tactic (some err) c
handle now success tactic c = on_success now tactic c
