-- ===== src/Enginenetx/Stats/Sorting.antt =====
-- statsDefensivelySortTacticsByDescendingSuccessRateWithAcceptPredicate of statsmanager.go.
pub mod Laws
use ooni_probe_engine.Prelude.{
  ◌≡◌, refl, ap, ap₂, arith, Bool, true, false, Option, none, some, List, [], ◌∷◌, map, keep,
  is_set, All, if◌then◌else◌, inl, inr, Bool-cases,
}
use ooni_probe_engine.Prelude.Int.{ℤ, pos, ltb_ℤ, ◌-ℤ◌}
use ooni_probe_engine.Prelude.Dict.{Dict}
use ooni_probe_engine.Prelude.Perms.{Perm-refl, All-Perm, keep-Perm, All-keep, All-keep_test}
use ooni_probe_engine.Prelude.Golang.{Float64, SliceStable, sub_time}
use ooni_probe_engine.Enginenetx.Tactic.{HttpsDialerTactic}
use ooni_probe_engine.Enginenetx.Tactic.Keys.{clone_lem}
use ooni_probe_engine.Enginenetx.Stats.Data.{
  StatsTactic, clone, stats_maybe_clone_map, stats_maybe_clone_tactic, zero_time,
}

module _ (F : Float64) where
  open F use {Float, divide, zero_float, gtb}

  unfoldable pub stats_nil_safe_success_rate : Option StatsTactic → Float
  stats_nil_safe_success_rate none = zero_float
  stats_nil_safe_success_rate (some t) =
      if ltb_ℤ (pos 0) t.count_started then divide t.count_success t.count_started else zero_float

unfoldable pub stats_nil_safe_last_updated : Option StatsTactic → ℤ
stats_nil_safe_last_updated none = zero_time
stats_nil_safe_last_updated (some t) = t.last_updated

unfoldable pub stats_nil_safe_count_success : Option StatsTactic → ℤ
stats_nil_safe_count_success none = pos 0
stats_nil_safe_count_success (some t) = t.count_success

-- The comparison given to sort.SliceStable.
unfoldable pub goes_first : Float64 → StatsTactic → StatsTactic → Bool
goes_first F a b =
    if F.gtb (stats_nil_safe_success_rate F (some a)) (stats_nil_safe_success_rate F (some b))
    then true
    else if ltb_ℤ (stats_nil_safe_count_success (some b)) (stats_nil_safe_count_success (some a))
    then true
    else if ltb_ℤ (pos 0)
        (sub_time (stats_nil_safe_last_updated (some a)) (stats_nil_safe_last_updated (some b)))
    then true
    else false

-- The working list: copies of the entries that are not malformed.
unfoldable pub well_formed_copies : List (Option StatsTactic) → List StatsTactic
well_formed_copies [] = []
well_formed_copies (none ∷ input) = well_formed_copies input
well_formed_copies (some t ∷ input) =
    if is_set t.tactic then clone t ∷ well_formed_copies input else well_formed_copies input

unfoldable pub sort_with_accept_predicate :
    Float64
    → SliceStable StatsTactic
    → List (Option StatsTactic)
    → (Option StatsTactic → Bool)
    → List StatsTactic
sort_with_accept_predicate F S input accept =
    keep (λ t. accept (some t)) (S.sort (goes_first F) (well_formed_copies input))
