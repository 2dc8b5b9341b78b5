-- ===== src/Minipipeline/DnsDiff.antt =====
-- pkg/minipipeline/dnsdiff.go: the addresses and the networks that a lookup has in common with the
-- control's.
use Prim.Native.Nat.{ℕ}
use ooni_probe_engine.Prelude.{
  String, Bool, not, ◌||◌, ◌&&◌, ◌≡◌, refl, ap, ap₂, ◌∙◌, Option, none, some, List, [], ◌∷◌, str_eq,
  ltb, if◌then◌else◌, arith,
}
use ooni_probe_engine.Prelude.Int.{ℤ, pos, wrap64}
use ooni_probe_engine.Prelude.Keys.{int_eq, str_less, string_key, int_key}
use ooni_probe_engine.Prelude.Sorting.{insertion_sort-perm}
use ooni_probe_engine.Minipipeline.Set.{Set, contains, keys, contains-keys}
use ooni_probe_engine.Minipipeline.Marks.{compared, in_both, collect, any_has}
use ooni_probe_engine.Minipipeline.Marks.Laws.{any_has-Perm, contains-collect_both}

unfoldable pub dns_diff_find_common_ip_address_intersection : Set String → Set String → Set String
unfolding compared
dns_diff_find_common_ip_address_intersection measurement control =
    let ipmap = compared some some (keys measurement) (keys control) in
    collect (λ key marks. not (str_eq key "") && in_both marks) ipmap []

-- if asn, _, err := lookupper.LookupASN(ipAddr); err == nil && asn > 0 { int64(asn) }
unfoldable pub asn_key : Option ℕ → Option ℤ
asn_key none = none
asn_key (some asn) = if ltb 0 asn then some (wrap64 asn) else none

unfoldable pub dns_diff_find_common_asns_intersection :
    (String → Option ℕ) → Set String → Set String → Set ℤ
unfolding asn_key
dns_diff_find_common_asns_intersection lookup_asn measurement control =
    let asn_of : String → Option ℤ = λ ip_addr. asn_key (lookup_asn ip_addr) in
    let asnmap = compared asn_of asn_of (keys measurement) (keys control) in
    collect (λ key marks. not (int_eq key (pos 0)) && in_both marks) asnmap []

pub any_has-some : (l : List String) (asked : String) → any_has some l asked ≡ contains l asked
unfolding any_has contains
any_has-some [] asked = refl
any_has-some (key ∷ l) asked = ap (λ b. str_eq key asked || b) (any_has-some l asked)

-- An address is in the intersection when it is not empty and both the measurement and the control
-- have it.
pub contains-dns_diff_find_common_ip_address_intersection :
    (measurement control : Set String) (ip_addr : String)
    → contains (dns_diff_find_common_ip_address_intersection measurement control) ip_addr
      ≡ (not (str_eq ip_addr "") && (contains measurement ip_addr && contains control ip_addr))
unfolding dns_diff_find_common_ip_address_intersection
contains-dns_diff_find_common_ip_address_intersection measurement control ip_addr = ground (
  arith,
  contains-collect_both some some (λ key. not (str_eq key "")) (keys measurement) (keys control)
      ip_addr,
  any_has-some (keys measurement) ip_addr,
  any_has-some (keys control) ip_addr,
  contains-keys measurement ip_addr,
  contains-keys control ip_addr,
)

module _ (lookup_asn : String → Option ℕ) where
  -- The set has an address that the lookupper puts in the autonomous system.
  unfoldable pub has_asn : Set String → ℤ → Bool
  unfolding asn_key any_has
  has_asn addrs asn = any_has (λ (ip_addr : String). asn_key (lookup_asn ip_addr)) addrs asn

  -- A number is in the intersection when it is not zero and both the measurement and the control
  -- have an address of that autonomous system.
  pub contains-dns_diff_find_common_asns_intersection :
      (measurement control : Set String) (asn : ℤ)
      → contains (dns_diff_find_common_asns_intersection lookup_asn measurement control) asn
        ≡ (not (int_eq asn (pos 0)) && (has_asn measurement asn && has_asn control asn))
  unfolding dns_diff_find_common_asns_intersection has_asn keys
  contains-dns_diff_find_common_asns_intersection measurement control asn =
      let asn_of : String → Option ℤ = λ ip_addr. asn_key (lookup_asn ip_addr) in
      let sorted = insertion_sort-perm str_less in
      contains-collect_both asn_of asn_of (λ key. not (int_eq key (pos 0))) (keys measurement)
        (keys control) asn
      ∙ ap₂ (λ p q. not (int_eq asn (pos 0)) && (p && q))
          (any_has-Perm asn_of asn (sorted measurement)) (any_has-Perm asn_of asn (sorted control))
