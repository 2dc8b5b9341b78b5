-- ===== src/Enginenetx/Stats/Sorting/Laws.antt =====
-- What sorting and selecting the stats yields.
use ooni_probe_engine.Prelude.{
  ◌≡◌, refl, arith, Bool, true, Option, none, some, List, [], ◌∷◌, keep, is_set, All, Permᴰ,
  if◌then◌else◌, inl, inr, Bool-cases,
}
use ooni_probe_engine.Prelude.Int.{◌<ℤ◌}
use ooni_probe_engine.Prelude.Perms.{keep-Perm}
use ooni_probe_engine.Prelude.Golang.{Float64, SliceStable}
use ooni_probe_engine.Enginenetx.Stats.Data.{StatsTactic, clone_lem}
use ooni_probe_engine.Enginenetx.Stats.Sorting.{
  stats_nil_safe_success_rate, stats_nil_safe_count_success, goes_first, well_formed_copies,
  sort_with_accept_predicate,
}

abbrev pub HasTactic : StatsTactic → Type 0
HasTactic t = is_set t.tactic ≡ true

-- The entries that are neither nil nor without a tactic.
unfoldable pub well_formed : List (Option StatsTactic) → List StatsTactic
well_formed [] = []
well_formed (none ∷ input) = well_formed input
well_formed (some t ∷ input) = if is_set t.tactic then t ∷ well_formed input else well_formed input

copies-eq : (input : List (Option StatsTactic)) → well_formed_copies input ≡ well_formed input
unfolding well_formed_copies well_formed
copies-eq [] = refl
copies-eq (none ∷ input) = copies-eq input
copies-eq (some t ∷ input) = elim (Bool-cases (is_set t.tactic)) [
  | inl present ↦ rw present (cc (clone_lem t, copies-eq input))
  | inr absent ↦ rw absent (copies-eq input)
]

pub All-well_formed : (input : List (Option StatsTactic)) → All HasTactic (well_formed input)
unfolding well_formed
All-well_formed [] = tt
All-well_formed (none ∷ input) = All-well_formed input
All-well_formed (some t ∷ input) = elim (Bool-cases (is_set t.tactic)) [
  | inl present ↦ rw present (present, All-well_formed input)
  | inr absent ↦ rw absent (All-well_formed input)
]

module _ (F : Float64) (S : SliceStable StatsTactic) where
  -- Sorting with a predicate returns exactly the well-formed entries that the predicate accepts, each
  -- as often as it stands in the input.
  pub sort_with_accept_predicate-perm :
      (input : List (Option StatsTactic)) (accept : Option StatsTactic → Bool)
      → Permᴰ
          (sort_with_accept_predicate F S input accept)
          (keep (λ t. accept (some t)) (well_formed input))
  unfolding sort_with_accept_predicate
  sort_with_accept_predicate-perm input accept =
      rw (copies-eq input)
        (keep-Perm (λ t. accept (some t)) (S.sort_perm (goes_first F) (well_formed input)))

module _ (F : Float64) where
  -- Two entries each go before the other when one has the better success rate and the other has
  -- succeeded more often: the comparison is then no order.
  pub goes_first_both_ways :
      (a b : StatsTactic)
      → F.gtb (stats_nil_safe_success_rate F (some a)) (stats_nil_safe_success_rate F (some b))
        ≡ true
      → a.count_success <ℤ b.count_success
      → (goes_first F a b ≡ true) × (goes_first F b a ≡ true)
  unfolding goes_first stats_nil_safe_count_success
  goes_first_both_ways a b rate count = (rw rate, ground arith)
