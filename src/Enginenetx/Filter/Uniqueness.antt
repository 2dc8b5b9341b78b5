-- ===== src/Enginenetx/Filter/Uniqueness.antt =====
-- What the dialer sees of the tactics that a policy emits.
use ooni_probe_engine.Prelude.{
  ℕ, ◌+◌, String, ◌≡◌, refl, ap, arith, inl, inr, Bool, true, false, Option, none, some, List, [],
  ◌∷◌, map, ltb, if◌then◌else◌, Bool-cases, str_eq,
}
use ooni_probe_engine.Prelude.Int.{pos}
use ooni_probe_engine.Prelude.Dict.{Dict, lookup, insert, lookup-insert}
use ooni_probe_engine.Enginenetx.HappyEyeballs.{happy_eyeballs_delay}
use ooni_probe_engine.Enginenetx.Tactic.{HttpsDialerTactic, tactic_summary_key}
use ooni_probe_engine.Enginenetx.Filter.{
  or_zero, times_seen, keep_unique, assign_delays, filter_out_nil_tactics,
  filter_only_keep_unique_tactics, filter_assign_initial_delays, https_dialer_filter_tactics,
}

-- The texts of a list without those in `seen`, each where it comes first.
unfoldable pub member : String → List String → Bool
member k [] = false
member k (j ∷ ks) = if str_eq j k then true else member k ks

unfoldable pub first_occurrences : List String → List String → List String
unfolding member
first_occurrences seen [] = []
first_occurrences seen (k ∷ ks) =
    let skip = first_occurrences seen ks in
    let emit = k ∷ first_occurrences (k ∷ seen) ks in if member k seen then skip else emit

-- The keys of the tactics that are not nil.
abbrev pub keys : List (Option HttpsDialerTactic) → List String
keys [] = []
keys (none ∷ l) = keys l
keys (some tx ∷ l) = tactic_summary_key tx ∷ keys l

-- `uniq` counts exactly the texts of `seen`.
abbrev Counts : Dict ℕ → List String → Type 0
Counts uniq seen = (k : String) → ltb 0 (or_zero (lookup k uniq)) ≡ member k seen

Counts-insert :
    (uniq : Dict ℕ) (seen : List String) (k : String) (n : ℕ)
    → Counts uniq seen
    → Counts (insert k (n + 1) uniq) (k ∷ seen)
unfolding member
Counts-insert uniq seen k n c j = rw lookup-insert (ground (arith, c j))

key-record :
    (tx : HttpsDialerTactic) (index : ℕ)
    → tactic_summary_key (record tx { initial_delay = happy_eyeballs_delay (pos index) })
      ≡ tactic_summary_key tx
unfolding tactic_summary_key
key-record tx index = refl

keys-assign_delays :
    (index : ℕ) (input : List HttpsDialerTactic)
    → map tactic_summary_key (assign_delays index input) ≡ map tactic_summary_key input
unfolding assign_delays
keys-assign_delays index [] = refl
keys-assign_delays index (tx ∷ input) =
    cc (key-record tx index, keys-assign_delays (index + 1) input)

keys-keep_unique :
    (uniq : Dict ℕ) (seen : List String) (input : List HttpsDialerTactic)
    → Counts uniq seen
    → map tactic_summary_key (keep_unique uniq input)
      ≡ first_occurrences seen (map tactic_summary_key input)
unfolding keep_unique first_occurrences times_seen
keys-keep_unique uniq seen [] c = refl
keys-keep_unique uniq seen (tx ∷ input) c =
    let key = tactic_summary_key tx in
    let n = times_seen uniq tx in
    elim (Bool-cases (ltb 0 n)) [
      | inl old ↦ rw (← c key, old) (keys-keep_unique uniq seen input c)
      | inr new ↦
          rw (← c key, new)
            (ap (λ (ks : List String). key ∷ ks)
              (keys-keep_unique (insert key (n + 1) uniq) (key ∷ seen) input
                (Counts-insert uniq seen key n c)))
    ]

keys-filter_out_nil_tactics :
    (input : List (Option HttpsDialerTactic))
    → map tactic_summary_key (filter_out_nil_tactics input) ≡ keys input
unfolding filter_out_nil_tactics
keys-filter_out_nil_tactics [] = refl
keys-filter_out_nil_tactics (none ∷ input) = keys-filter_out_nil_tactics input
keys-filter_out_nil_tactics (some tx ∷ input) =
    ap (λ (ks : List String). tactic_summary_key tx ∷ ks) (keys-filter_out_nil_tactics input)

-- The dialer tries the tactics whose summary key is new, in the order of the policy, and no others:
-- the keys of what it is given are the first occurrences of the keys of the tactics that are not
-- nil.
pub keys-https_dialer_filter_tactics :
    (input : List (Option HttpsDialerTactic))
    → map tactic_summary_key (https_dialer_filter_tactics input) ≡ first_occurrences [] (keys input)
unfolding https_dialer_filter_tactics filter_assign_initial_delays filter_only_keep_unique_tactics
keys-https_dialer_filter_tactics input =
    let wanted = filter_out_nil_tactics input in
    cc (
      keys-assign_delays 0 (keep_unique [] wanted),
      keys-keep_unique [] [] wanted (unfold lookup member in λ k. refl),
      keys-filter_out_nil_tactics input,
    )
