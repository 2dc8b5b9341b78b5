-- ===== src/Lib.antt =====
-- Verification of ooni-probe-engine: the parts of the measurement engine that decide how it reaches
-- its own backends, and the pipeline that turns its measurements into verdicts.
--
-- The engine talks to its backends through pkg/enginenetx. A policy (dnspolicy.go, bridgespolicy.go,
-- statspolicy.go, testhelperspolicy.go, userpolicy.go, composed in network.go by mixpolicy.go) emits a
-- stream of tactics; the HTTPS dialer (httpsdialer.go) filters it (filter.go), gives each tactic a
-- happy-eyeballs delay (happyeyeballs.go) and tries the tactics in parallel; each attempt reports its
-- events to the stats manager (statsmanager.go), which keeps counters by endpoint and tactic, prunes
-- them, saves them in a key-value store (pkg/kvstore) and offers them to the stats policy of later
-- dials.
--
-- The engine resolves names with pkg/engineresolver, which orders a list of resolvers by scores that it
-- keeps in the same key-value store, tries them one after the other, and updates their scores.
--
-- Apart from these, pkg/minipipeline reads the events of a finished measurement, gathers them into
-- observations of lookups and endpoints (observation.go), adds what the test helper saw, and computes
-- the sets of transactions that failed as expected, unexpectedly or without explanation (analysis.go),
-- for all the observations or for those that the classic experiment would have made (classic.go).
--
-- Files:
--   Prelude: shared names, 64-bit integers, dictionaries, Go's panics (Outcome), what is taken from
--     Go's standard library (Golang: floats, stable sorting, time differences), rearrangements.
--   Kvstore: pkg/kvstore/memory.go and the interface model.KeyValueStore.
--   Enginenetx/Tactic: httpsDialerTactic, Clone, tacticSummaryKey, domainEndpointKey.
--   Enginenetx/HappyEyeballs: happyEyeballsDelay.
--   Enginenetx/Filter: filterOutNilTactics, filterOnlyKeepUniqueTactics, filterAssignInitialDelays and
--     httpsDialerFilterTactics.
--   Enginenetx/Mix: mixPolicyEitherOr and mixPolicyInterleave with maybeTakeN.
--   Enginenetx/Stats: statsmanager.go. Data has the types and the clones, Sorting the sort with an
--     accept predicate, Prune the pruning, Events the handlers OnStarting to OnSuccess with
--     GetStatsTacticLocked and SetStatsTacticLocked, Manager newStatsManager, Close, trim,
--     LookupTactics.
--   Enginenetx/HttpsDialer: httpsDialerTacticWaitReady, dialTLS, httpsDialerVerifyCertificateChain,
--     the gathering loop of DialTLSContext and httpsDialerReduceResult.
--   Enginenetx/Policy: the policies, and newHTTPSDialerPolicy of network.go.
--   Engineresolver/State: state.go, and the list of makers of resolvermaker.go.
--   Engineresolver/Lookup: resolver.go (LookupHost, lookupHost, shouldSkipWithProxy, maybeConfusion), and
--     getresolver of resolvermaker.go.
--   Optional: pkg/optional/optional.go (Unwrap, UnwrapOr).
--   Minipipeline/Set, Marks, DnsDiff, HttpDiff: set.go, dnsdiff.go and httpdiff.go of pkg/minipipeline;
--     Marks has the maps to two bits that both differences use.
--   Minipipeline/Archival, Environment, Observation, Utils: the events, the test helper's messages, what
--     the package calls, the observations and utils.go.
--   Minipipeline/Loops, Ingest, Control, WellFormed: the loops of observation.go and what they establish,
--     also (Answers) which lookups they register.
--   Minipipeline/Analysis, Final, Partial, Verdicts, Totality, Linear, Classic: analysis.go and
--     classic.go. Dns, Failures and Endpoints below Analysis have the metrics, Shared an
--     independent description of what a lookup shares with the control, and the other files there
--     say which transaction is in which set.
--   Enginenetx/Samples, Minipipeline/Samples and the files called Tests: concrete instances, runs and
--     witnesses.
--
-- Conventions. A channel is the list of what is sent on it. A Go map is an association list without a
-- second entry for a key that is inserted; the order in which a loop ranges over it is that list's. A
-- pointer or a map that may be nil is an Option, also within the slices of events, and so is an
-- optional.Value. A panic (nil dereference, failed assertion) is the outcome `panicked`. An int64 wraps around modulo 2 ^ 64. The mutex of the stats manager makes each
-- handler one step of a sequence. A clock is an argument of each operation that reads it; pruning the
-- stats reads it once for each endpoint, and takes the reading as a function of the endpoint's name.
--
-- Fuel. Only the interleaving of two policies needs fuel: it is given one round for each tactic, one
-- for each channel that is found drained, and one for the last look. That is enough, since each round
-- before the last one reads a tactic or finds a channel drained.
--
-- Parameters: the resolver, net.ParseIP, the shuffles of the bridge names, x509 verification, the
-- network's answers to an attempt, float64 division and comparison, sort.SliceStable (some
-- rearrangement of its input), encoding/json on the stats (writing may fail; a document that was
-- written is read back with the records it was written with), the child resolvers and their answers, the scores' arithmetic,
-- url.Parse and the functions of strings; for the pipeline (Minipipeline/Environment) the lookupper of
-- autonomous systems that its callers pass, the predicates on addresses of pkg/netxlite, the title of a
-- page, strconv and net/url.
--
-- Not modelled: logging, the pool of goroutines as such, idle connections, the round trips of HTTP,
-- and the other packages: the sorting and the normal forms of
-- pkg/minipipeline, the experiments (pkg/webconnectivityalgo), the loading of targets (pkg/targetloading,
-- pkg/inputparser), OONI Run (pkg/oonirun), the wrappers of the network (pkg/netxlite,
-- pkg/measurexlite), sessions and backends (pkg/engine, pkg/probeservices), mostly since they are
-- input and output, files, processes or conversions of data.
pub mod Prelude
pub mod Kvstore
pub mod Enginenetx
pub mod Engineresolver
pub mod Optional
pub mod Minipipeline
