-- ===== src/Enginenetx/Policy/User.antt =====
-- The user policy of userpolicy.go, and its place in newHTTPSDialerPolicy of network.go.
use mathlib.Core.List.{append-nil}
use ooni_probe_engine.Prelude.{
  String, suc, ltb, length, arith, true, false, ◌≡◌, refl, ap, Option, none, some, [], ◌∷◌, is_set,
  keep, ◌∙◌,
}
use ooni_probe_engine.Prelude.Dict.{lookup}
use ooni_probe_engine.Prelude.Outcome.{Outcome, returned, panicked}
use ooni_probe_engine.Enginenetx.Tactic.{join_host_port}
use ooni_probe_engine.Enginenetx.Mix
use ooni_probe_engine.Enginenetx.Stats.Data.{entries}
use ooni_probe_engine.Enginenetx.Policy.{
  UserPolicyRoot, World, Stream, either_or_asked, user_policy_remove_nil_entries, found_tactics,
  user_policy, emitted, new_https_dialer_policy,
}

-- The first stream, or the second one where the first is empty.
unfoldable pub first_or : Stream → Outcome Stream → Outcome Stream
first_or [] fallback = fallback
first_or (tactic ∷ tactics) fallback = returned (tactic ∷ tactics)

either_or_asked-eq :
    (tactics : Stream) (fallback : Outcome Stream)
    → either_or_asked tactics fallback ≡ first_or tactics fallback
unfolding either_or_asked first_or Mix.either_or
either_or_asked-eq [] (returned out) = refl
either_or_asked-eq [] panicked = refl
either_or_asked-eq (tactic ∷ tactics) fallback =
    let given : ltb 0 (suc (length tactics)) ≡ true = ground arith in
    rw given (ap (λ (l : Stream). returned (tactic ∷ l)) (append-nil tactics))

remove_nil-keep : (input : Stream) → user_policy_remove_nil_entries input ≡ keep is_set input
unfolding user_policy_remove_nil_entries
remove_nil-keep [] = refl
remove_nil-keep (none ∷ input) = remove_nil-keep input
remove_nil-keep (some entry ∷ input) = ap (λ l. some entry ∷ l) (remove_nil-keep input)

-- The tactics of a list that are not nil, when there is a list.
abbrev pub given_tactics : Option Stream → Stream
given_tactics none = []
given_tactics (some tactics) = keep is_set tactics

found-given : (o : Option Stream) → found_tactics o ≡ given_tactics o
unfolding found_tactics
found-given none = refl
found-given (some tactics) = remove_nil-keep tactics

-- With a user policy and no proxy URL, the dialer policy emits, in their order, the tactics that the
-- user's document lists for the domain and port and that are not nil; and where it lists none, what
-- the dialer policy emits without a user policy.
pub user_policy_first :
    (w : World) (root : UserPolicyRoot) (domain port : String)
    → emitted w domain port (new_https_dialer_policy false (some root))
      ≡ first_or
          (given_tactics (lookup (join_host_port domain port) (entries root.domain_endpoints)))
          (emitted w domain port (new_https_dialer_policy false none))
unfolding emitted new_https_dialer_policy user_policy
user_policy_first w root domain port =
    let fallback = emitted w domain port (new_https_dialer_policy false none) in
    either_or_asked-eq (user_policy root domain port) fallback
    ∙ ap (λ l. first_or l fallback)
        (found-given (lookup (join_host_port domain port) (entries root.domain_endpoints)))
