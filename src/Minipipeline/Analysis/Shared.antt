-- ===== src/Minipipeline/Analysis/Shared.antt =====
-- pkg/minipipeline/analysis.go: what a lookup shares with the control, and what a handshake shows,
-- each described without the sets that the code builds.
use ooni_probe_engine.Prelude.{
  ℕ, zero, suc, String, Bool, true, false, not, ◌&&◌, ◌||◌, ◌≡◌, refl, ap, ap₂, ◌∙◌, inl, inr,
  Option, none, some, List, [], ◌∷◌, length, ltb, str_eq, Bool-cases, arith, sym, if◌then◌else◌,
}
use ooni_probe_engine.Prelude.Int.{ℤ, pos, ltb_ℤ, wrap64}
use ooni_probe_engine.Prelude.Keys.{Key, int_eq, int_key, string_key}
use ooni_probe_engine.Optional.{unwrap_or}
use ooni_probe_engine.Minipipeline.Set.{Set, contains}
use ooni_probe_engine.Minipipeline.Marks.{is_key, any_has}
use ooni_probe_engine.Minipipeline.DnsDiff.{
  asn_key, has_asn, dns_diff_find_common_ip_address_intersection, any_has-some,
  dns_diff_find_common_asns_intersection, contains-dns_diff_find_common_asns_intersection,
  contains-dns_diff_find_common_ip_address_intersection,
}
use ooni_probe_engine.Minipipeline.Environment.{Environment}
use ooni_probe_engine.Minipipeline.Observation.{WebObservation}
use ooni_probe_engine.Minipipeline.Analysis.{is_success}
use ooni_probe_engine.Minipipeline.Analysis.Dns

module _ {K : Type 0} where
  abbrev key_passes : (K → Bool) → Option K → Bool
  key_passes test none = false
  key_passes test (some key) = test key

  -- Some element has a key that passes the test.
  abbrev pub any_key : {X : Type 0} → (K → Bool) → (X → Option K) → List X → Bool
  any_key test key_of [] = false
  any_key test key_of (x ∷ xs) = key_passes test (key_of x) || any_key test key_of xs

module _ {K X : Type 0} ⦃k : Key K⦄ (test : K → Bool) (key_of : X → Option K) where
  key_passes-intro :
      (o : Option K) (asked : K)
      → is_key o asked ≡ true
      → test asked ≡ true
      → key_passes test o ≡ true
  key_passes-intro none asked h t = cc
  key_passes-intro (some key) asked h t =
      let same : key ≡ asked = (k.same_iff key asked).0 h in rw same t

  any_key-intro :
      (xs : List X) (asked : K)
      → any_has key_of xs asked ≡ true
      → test asked ≡ true
      → any_key test key_of xs ≡ true
  unfolding any_has
  any_key-intro [] asked h t = cc
  any_key-intro (x ∷ xs) asked h t = elim (Bool-cases (is_key (key_of x) asked)) [
    | inl here ↦ let first = key_passes-intro (key_of x) asked here t in ground (arith, first)
    | inr there ↦
        let rest = any_key-intro xs asked (ground (arith, h, there)) t in
        ground (arith, rest, Bool-cases (key_passes test (key_of x)))
  ]

  key_passes-has :
      (o : Option K)
      → key_passes test o ≡ true
      → (asked : K) × (is_key o asked ≡ true) × (test asked ≡ true)
  key_passes-has none h = cc
  key_passes-has (some key) h = (key, (k.same_iff key key).1 refl, h)

  any_key-has :
      (xs : List X)
      → any_key test key_of xs ≡ true
      → (asked : K) × (any_has key_of xs asked ≡ true) × (test asked ≡ true)
  unfolding any_has
  any_key-has [] h = cc
  any_key-has (x ∷ xs) h = elim (Bool-cases (key_passes test (key_of x))) [
    | inl here ↦
        let (asked, has, passed) = key_passes-has (key_of x) here in
        (asked, ground (arith, has), passed)
    | inr there ↦
        let (asked, has, passed) = any_key-has xs (ground (arith, h, there)) in
        (asked, ground (arith, has, Bool-cases (is_key (key_of x) asked)), passed)
  ]

  has_element : (sx : Set K) (asked : K) → contains sx asked ≡ true → ltb 0 (length sx) ≡ true
  unfolding contains
  has_element [] asked h = cc
  has_element (key ∷ sx) asked h = ground arith

  -- The set of the keys that the elements have and that pass a test has an element when some key
  -- passes.
  some_element :
      (xs : List X) (sx : Set K)
      → ((asked : K) → contains sx asked ≡ (test asked && any_has key_of xs asked))
      → ltb 0 (length sx) ≡ any_key test key_of xs
  unfolding contains
  some_element xs [] says = elim (Bool-cases (any_key test key_of xs)) [
    | inl passed ↦ let (asked, has, good) = any_key-has xs passed in cc (says asked, has, good)
    | inr missing ↦ rw missing refl
  ]
  some_element xs (key ∷ sx) says =
      let here : contains (key ∷ sx) key ≡ true = ground (arith, (k.same_iff key key).1 refl) in
      let both : (test key && any_has key_of xs key) ≡ true = ground (arith, says key, here) in
      let passed : any_key test key_of xs ≡ true =
        any_key-intro xs key (ground (arith, both)) (ground (arith, both)) in
      rw passed (ground arith)

-- The autonomous system of a lookup of its number, which must not be zero.
abbrev pub network : Option ℕ → Option ℤ
network none = none
network (some zero) = none
network (some (suc n)) = some (wrap64 (suc n))

-- Some address of the first set that is not empty is in the second.
abbrev pub shares_address : Set String → Set String → Bool
shares_address measurement control =
    any_key (λ (ip_addr : String). not (str_eq ip_addr "") && contains control ip_addr) some
      measurement

-- Some address of the first set is in an autonomous system of an address of the second.
abbrev pub shares_network : (String → Option ℕ) → Set String → Set String → Bool
shares_network lookup_asn measurement control =
    any_key
      (λ (asn : ℤ).
        not (int_eq asn (pos 0))
        && any_has (λ (ip_addr : String). network (lookup_asn ip_addr)) control asn)
      (λ (ip_addr : String). network (lookup_asn ip_addr)) measurement

asn_key-network : (o : Option ℕ) → asn_key o ≡ network o
unfolding asn_key
asn_key-network none = refl
asn_key-network (some zero) = refl
asn_key-network (some (suc n)) = let given : ltb 0 (suc n) ≡ true = ground arith in rw given refl

has_asn-network :
    (lookup_asn : String → Option ℕ) (addrs : Set String) (asn : ℤ)
    → has_asn lookup_asn addrs asn
      ≡ any_has (λ (ip_addr : String). network (lookup_asn ip_addr)) addrs asn
unfolding has_asn any_has
has_asn-network lookup_asn [] asn = refl
has_asn-network lookup_asn (ip_addr ∷ addrs) asn =
    ap₂ (λ o b. is_key o asn || b) (asn_key-network (lookup_asn ip_addr))
      (has_asn-network lookup_asn addrs asn)

-- An address in common, or a network.
abbrev pub shares : Environment → Set String → Set String → Bool
shares env measurement control =
    shares_address measurement control || shares_network env.lookup_asn measurement control

swap_ends : (a b c : Bool) → (a && (b && c)) ≡ ((a && c) && b)
swap_ends a b c = ground (arith, Bool-cases a, Bool-cases b, Bool-cases c)

pub has_common-shares :
    (env : Environment) (measurement control : Set String)
    → Dns.has_common env measurement control ≡ shares env measurement control
unfolding Dns.has_common
has_common-shares env measurement control =
    let asn_of = λ (ip_addr : String). network (env.lookup_asn ip_addr) in
    ap₂ (λ a b. a || b)
      (some_element _ some measurement
        (dns_diff_find_common_ip_address_intersection measurement control)
        (λ ip_addr.
          contains-dns_diff_find_common_ip_address_intersection measurement control ip_addr
          ∙ ap (λ b. not (str_eq ip_addr "") && (b && contains control ip_addr))
              (sym (any_has-some measurement ip_addr))
          ∙ swap_ends (not (str_eq ip_addr "")) (any_has some measurement ip_addr)
              (contains control ip_addr)))
      (some_element _ asn_of measurement
        (dns_diff_find_common_asns_intersection env.lookup_asn measurement control)
        (λ asn.
          contains-dns_diff_find_common_asns_intersection env.lookup_asn measurement control asn
          ∙ ap₂ (λ a b. not (int_eq asn (pos 0)) && (a && b))
              (has_asn-network env.lookup_asn measurement asn)
              (has_asn-network env.lookup_asn control asn)
          ∙ swap_ends (not (int_eq asn (pos 0))) (any_has asn_of measurement asn)
              (any_has asn_of control asn)))

-- A handshake that completed, of an address that the DNS transaction resolved, where the identifier
-- is positive.
abbrev pub validates : WebObservation → ℤ → Bool
validates obs asked =
    is_key obs.tls_handshake_failure ""
    && (is_key obs.dns_transaction_id asked && ltb_ℤ (pos 0) asked)

validated_by :
    (failure : Option String) (txid : Option ℤ) (asked : ℤ)
    → is_key
        (if is_success failure && ltb_ℤ (pos 0) (unwrap_or txid (pos 0))
          then some (unwrap_or txid (pos 0))
          else none)
        asked
      ≡ (is_key failure "" && (is_key txid asked && ltb_ℤ (pos 0) asked))
validated_by none txid asked = refl
validated_by (some failure) none asked = ground arith
validated_by (some failure) (some txid) asked =
    ground (arith, Bool-cases (str_eq failure ""), Bool-cases (int_eq txid asked))

pub validated-validates :
    (obs : WebObservation) (asked : ℤ) → is_key (Dns.validated obs) asked ≡ validates obs asked
unfolding Dns.validated
validated-validates obs asked = validated_by obs.tls_handshake_failure obs.dns_transaction_id asked
