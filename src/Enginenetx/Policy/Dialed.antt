-- ===== src/Enginenetx/Policy/Dialed.antt =====
-- The tactics that the dialer tries: the policy of network.go after the filters of filter.go.
use ooni_probe_engine.Prelude.{String, Bool, false, ◌≡◌, ap, ◌∙◌, Option, none, List, All}
use ooni_probe_engine.Prelude.Outcome.{returned, ◌>>=◌, Returns, returns, Returns-bind}
use ooni_probe_engine.Enginenetx.Tactic.{HttpsDialerTactic, has_colon}
use ooni_probe_engine.Enginenetx.Filter.{https_dialer_filter_tactics}
use ooni_probe_engine.Enginenetx.Filter.Delays.{
  EmittedFrom, done, skip, emit, https_dialer_filter_tactics-EmittedFrom,
}
use ooni_probe_engine.Enginenetx.Policy.{World, emitted, new_https_dialer_policy}
use ooni_probe_engine.Enginenetx.Policy.Endpoint.{
  IsKeyedByEndpoint, Serves, ServesOption, new_https_dialer_policy-Serves,
}

module _ (w : World) (domain port : String) where
  EmittedFrom-Serves :
      {out : List HttpsDialerTactic} {input : List (Option HttpsDialerTactic)}
      → EmittedFrom out input
      → All (ServesOption w domain port) input
      → All (Serves w domain port) out
  EmittedFrom-Serves done h = tt
  EmittedFrom-Serves (skip o rest) h = EmittedFrom-Serves rest h.1
  EmittedFrom-Serves (emit tx sent same rest) h = (
    (ap (λ t. t.verify_hostname) same ∙ h.0.0, ap (λ t. t.port) same ∙ h.0.1),
    EmittedFrom-Serves rest h.1,
  )

  -- Without a user policy, every tactic that the dialer tries for an endpoint has the endpoint's port
  -- and verifies the peer for the endpoint's host, whatever name it sends on the wire: the policy
  -- returns its stream, and so it is for what the filters leave of the stream. The port has no colon,
  -- and every record of the stats stands under the endpoint of its tactic.
  pub dialed-Serves :
      (proxy : Bool)
      → has_colon port ≡ false
      → IsKeyedByEndpoint w.stats
      → Returns (All (Serves w domain port)) (do
        tactics ← emitted w domain port (new_https_dialer_policy proxy none)
        returned (https_dialer_filter_tactics tactics))
  dialed-Serves proxy plain h =
      Returns-bind (All (ServesOption w domain port)) (All (Serves w domain port)) _
        (new_https_dialer_policy-Serves w domain port plain proxy h)
        (λ tactics ok.
          returns _ (EmittedFrom-Serves (https_dialer_filter_tactics-EmittedFrom tactics) ok))
