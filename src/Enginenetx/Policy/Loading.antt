-- ===== src/Enginenetx/Policy/Loading.antt =====
-- newUserPolicyV2 of userpolicy.go, and the choice that newHTTPSDialerPolicy of network.go makes by it.
use mathlib.Core.Option.{some-injective}
use ooni_probe_engine.Prelude.{
  sym, ◌∙◌, String, Bool, true, false, not, ◌&&◌, ◌≡◌, ◌↔◌, refl, ap, arith, Option, none, some,
  if◌then◌else◌, Bool-cases, ◌⊎◌, inl, inr,
}
use ooni_probe_engine.Prelude.Int.{ℤ, pos, negsuc, ltb_ℤ}
use ooni_probe_engine.Kvstore.{KeyValueStore}
use ooni_probe_engine.Enginenetx.Policy.{UserPolicyRoot, Policy, new_https_dialer_policy}

abbrev pub user_policy_key : String
user_policy_key = "bridges.conf"

abbrev pub user_policy_version : ℤ
user_policy_version = pos 3

pub data UserPolicyError : Type 0 where
  get_failed unmarshal_failed wrong_version : UserPolicyError

-- hujsonx.Unmarshal is the parameter `unmarshal`.
module _ {Bytes : Type 0} (unmarshal : Bytes → Option UserPolicyRoot)
    (K : KeyValueStore Bytes) where
  check_version : UserPolicyRoot → UserPolicyError ⊎ UserPolicyRoot
  check_version root =
      if not (ltb_ℤ root.version user_policy_version)
        && not (ltb_ℤ user_policy_version root.version)
      then inr root
      else inl wrong_version

  unmarshalled : Option UserPolicyRoot → UserPolicyError ⊎ UserPolicyRoot
  unmarshalled none = inl unmarshal_failed
  unmarshalled (some root) = check_version root

  parse_bytes : Option Bytes → UserPolicyError ⊎ UserPolicyRoot
  parse_bytes none = inl get_failed
  parse_bytes (some bytes) = unmarshalled (unmarshal bytes)

  unfoldable pub new_user_policy_v2 : K.Store → UserPolicyError ⊎ UserPolicyRoot
  unfolding parse_bytes unmarshalled check_version
  new_user_policy_v2 kv_store = parse_bytes (K.get kv_store user_policy_key)

  loaded_or_none : UserPolicyError ⊎ UserPolicyRoot → Option UserPolicyRoot
  loaded_or_none (inl err) = none
  loaded_or_none (inr root) = some root

  unfoldable pub load_https_dialer_policy : Bool → K.Store → Policy
  unfolding loaded_or_none
  load_https_dialer_policy proxy kv_store =
      new_https_dialer_policy proxy (loaded_or_none (new_user_policy_v2 kv_store))

  same_version :
      (v : ℤ)
      → (not (ltb_ℤ v user_policy_version) && not (ltb_ℤ user_policy_version v)) ≡ true
      → v ≡ user_policy_version
  same_version (pos n) h = let three : n ≡ 3 = ground arith in ap pos three
  same_version (negsuc n) h = absurd (ground arith)

  not_both : true ≡ false → ⊥
  not_both e = cc

  check_version_lem :
      (r root : UserPolicyRoot)
      → (check_version r ≡ inr root) ↔ ((r ≡ root) × (root.version ≡ user_policy_version))
  unfolding check_version
  check_version_lem r root =
      elim (Bool-cases
        (not (ltb_ℤ r.version user_policy_version) && not (ltb_ℤ user_policy_version r.version))) [
          | inl good ↦ rw good (
            (λ e.
                let same : r ≡ root = cc in
                (same, ap (λ x. x.version) (sym same) ∙ same_version r.version good)),
            (λ p. cc p.0),
          )
          | inr bad ↦ rw bad (
            (λ e. cc),
            (λ p.
                let v : r.version ≡ user_policy_version = ap (λ x. x.version) p.0 ∙ p.1 in
                absurd (not_both (rw v at bad))),
          )
        ]

  unmarshalled_lem :
      (o : Option UserPolicyRoot) (root : UserPolicyRoot)
      → (unmarshalled o ≡ inr root) ↔ ((o ≡ some root) × (root.version ≡ user_policy_version))
  unfolding unmarshalled
  unmarshalled_lem none root = ((λ e. cc), (λ p. cc p.0))
  unmarshalled_lem (some r) root = (
    (λ e. let p = (check_version_lem r root).0 e in (ap some p.0, p.1)),
    (λ p. (check_version_lem r root).1 (some-injective r root p.0, p.1)),
  )

  parse_bytes_lem :
      (o : Option Bytes) (root : UserPolicyRoot)
      → (parse_bytes o ≡ inr root) ↔ (
          (bytes : Bytes) × (o ≡ some bytes)
          × (unmarshal bytes ≡ some root)
          × (root.version ≡ user_policy_version))
  unfolding parse_bytes
  parse_bytes_lem none root = ((λ e. cc), (λ p. cc p.1))
  parse_bytes_lem (some b) root = (
    (λ e. let q = (unmarshalled_lem (unmarshal b) root).0 e in (b, refl, q.0, q.1)),
    (λ p.
        (unmarshalled_lem (unmarshal b) root).1
          (ap unmarshal (some-injective b p.0 p.1) ∙ p.2, p.3)),
  )

  -- A user policy is loaded exactly when the store has bytes under its key that are parsed as it and
  -- it has the current version.
  pub new_user_policy_v2_lem :
      (kv_store : K.Store) (root : UserPolicyRoot)
      → (new_user_policy_v2 kv_store ≡ inr root) ↔ (
          (bytes : Bytes) × (K.get kv_store user_policy_key ≡ some bytes)
          × (unmarshal bytes ≡ some root)
          × (root.version ≡ user_policy_version))
  unfolding new_user_policy_v2
  new_user_policy_v2_lem kv_store root = parse_bytes_lem (K.get kv_store user_policy_key) root
