-- ===== src/Minipipeline/Classic/Kept.antt =====
-- pkg/minipipeline/classic.go: what ClassicFilter keeps.
use ooni_probe_engine.Prelude.{
  ℕ, suc, String, Bool, true, false, not, ◌&&◌, ◌||◌, ◌≡◌, ◌∙◌, ap, ap₂, refl, inl, inr, Option,
  none, some, List, [], ◌∷◌, All, keep, str_eq, is_set, if◌then◌else◌, Bool-cases, arith,
}
use ooni_probe_engine.Prelude.Int.{ℤ}
use ooni_probe_engine.Prelude.Dict.{Dict, lookup, insert, lookup-insert}
use ooni_probe_engine.Prelude.Perms.{All-keep}
use ooni_probe_engine.Prelude.Keys.{int_eq, int_key, string_key}
use ooni_probe_engine.Prelude.Table.{Table, find, store, find-store, All-store}
use ooni_probe_engine.Prelude.Outcome.{returned, ◌>>=◌, Returns, returns, Returns-bind, Returns-imp}
use ooni_probe_engine.Optional.{unwrap, unwrap_or}
use ooni_probe_engine.Minipipeline.Marks.{is_key}
use ooni_probe_engine.Minipipeline.Loops.{each, each_or_panic-eq-each}
use ooni_probe_engine.Minipipeline.Observation.{
  WebObservation, WebObservationsContainer, ip_address_origin_dns, ip_address_origin_th,
}
use ooni_probe_engine.Minipipeline.Utils.{engine_is_getaddrinfo}
use ooni_probe_engine.Minipipeline.WellFormed.{
  IsDnsObservation, IsSuccess, IsEndpoint, IsWellFormed,
}
use ooni_probe_engine.Minipipeline.Analysis.Adding.{in_any}
use ooni_probe_engine.Minipipeline.Classic.{
  uses_getaddrinfo, classic_addresses, keeps_endpoint, classic_endpoint, classic_filter,
}

-- The engine of a lookup is one of the two that call getaddrinfo.
abbrev pub by_getaddrinfo : WebObservation → Bool
by_getaddrinfo obs =
    is_key obs.dns_engine "getaddrinfo" || is_key obs.dns_engine "golang_net_resolver"

getaddrinfo_engine :
    (engine : Option String)
    → engine_is_getaddrinfo engine
      ≡ (is_key engine "getaddrinfo" || is_key engine "golang_net_resolver")
unfolding engine_is_getaddrinfo
getaddrinfo_engine none = refl
getaddrinfo_engine (some name) = refl

keep-by_getaddrinfo : (l : List WebObservation) → keep uses_getaddrinfo l ≡ keep by_getaddrinfo l
keep-by_getaddrinfo [] = refl
keep-by_getaddrinfo (obs ∷ l) =
    ap₂ (λ (b : Bool) kept. if b then obs ∷ kept else kept) (getaddrinfo_engine obs.dns_engine)
      (keep-by_getaddrinfo l)

abbrev pub is_some_true : Option Bool → Bool
is_some_true none = false
is_some_true (some b) = b

-- The endpoint fetches the body, its address is not one of the test helper, and it is a known one if
-- it comes from a lookup.
abbrev pub fits : Dict ℕ → WebObservation → Bool
fits known obs =
    is_some_true obs.tag_fetch_body
    && (not (is_key obs.ip_address_origin "th")
        && (not (is_key obs.ip_address_origin "dns")
            || is_set (lookup (unwrap_or obs.ip_address "") known)))

origin_and_body :
    (origin : Option String) (body : Option Bool) (found : Bool)
    → (if str_eq (unwrap_or origin "") ip_address_origin_th
        then false
        else if str_eq (unwrap_or origin "") ip_address_origin_dns && not found
        then false
        else unwrap_or body false)
      ≡ (is_some_true body && (not (is_key origin "th") && (not (is_key origin "dns") || found)))
origin_and_body none none found = refl
origin_and_body none (some b) found = ground arith
origin_and_body (some name) none found = ground arith
origin_and_body (some name) (some b) found = ground arith

keeps_endpoint-fits :
    (known : Dict ℕ) (obs : WebObservation)
    → keeps_endpoint known (unwrap_or obs.ip_address "") obs ≡ fits known obs
unfolding keeps_endpoint
keeps_endpoint-fits known obs =
    origin_and_body obs.ip_address_origin obs.tag_fetch_body
      (is_set (lookup (unwrap_or obs.ip_address "") known))

-- Some observation has the address.
unfoldable pub any_address : List WebObservation → String → Bool
any_address [] asked = false
any_address (entry ∷ entries) asked = is_key entry.ip_address asked || any_address entries asked

-- The Boolean test of lookups by the address.
Knows : List WebObservation → String → Dict ℕ → Dict ℕ → Type 0
Knows entries asked known new =
    is_set (lookup asked new) ≡ (any_address entries asked || is_set (lookup asked known))

with_address-Knows :
    (o : Option String) (entries : List WebObservation) (asked : String) (position : ℕ)
    (known : Dict ℕ)
    → is_set o ≡ true
    → ((ip_addr : String)
        → Returns
            (Knows entries asked (insert ip_addr position known))
            (classic_addresses entries (suc position) (insert ip_addr position known)))
    → Returns
        (λ new.
          is_set (lookup asked new)
          ≡ ((is_key o asked || any_address entries asked) || is_set (lookup asked known)))
        (unwrap o >>= λ ip_addr.
          classic_addresses entries (suc position) (insert ip_addr position known))
unfolding Knows
with_address-Knows none entries asked position known h rest = cc
with_address-Knows (some ip_addr) entries asked position known h rest =
    Returns-imp (Knows entries asked (insert ip_addr position known)) _
      (λ new p.
        ground
          (arith, p, lookup-insert ip_addr asked position known, Bool-cases (str_eq ip_addr asked)))
      (rest ip_addr)

classic_addresses-Knows :
    (entries : List WebObservation) (asked : String) (position : ℕ) (known : Dict ℕ)
    → All IsSuccess entries
    → Returns (Knows entries asked known) (classic_addresses entries position known)
unfolding classic_addresses Knows any_address IsSuccess
classic_addresses-Knows [] asked position known h = returns known refl
classic_addresses-Knows (entry ∷ entries) asked position known h =
    with_address-Knows entry.ip_address entries asked position known h.0.3 (λ ip_addr.
      classic_addresses-Knows entries asked (suc position) (insert ip_addr position known) h.1)

module _ (known : Dict ℕ) where
  abbrev stays : WebObservation → Bool
  stays obs = fits known obs

  keep_if : ℤ × WebObservation → Table ℤ WebObservation → Table ℤ WebObservation
  keep_if e output = if stays e.1 then store (e.0) (e.1) output else output

  classic_endpoint-fields :
      (o : Option String) (p : Option ℤ) (txid : ℤ) (entry : WebObservation)
      (output : Table ℤ WebObservation)
      → is_set o ≡ true
      → p ≡ some txid
      → (unwrap o >>= λ ip_addr. unwrap p >>= λ key.
          returned (if keeps_endpoint known ip_addr entry then store key entry output else output))
        ≡ returned (
            if keeps_endpoint known (unwrap_or o "") entry then store txid entry output else output)
  classic_endpoint-fields none p txid entry output h e = cc
  classic_endpoint-fields (some ip_addr) p txid entry output h e = rw e refl

  classic_endpoint-eq :
      (e : ℤ × WebObservation) (output : Table ℤ WebObservation)
      → IsEndpoint e
      → classic_endpoint known e output ≡ returned (keep_if e output)
  unfolding classic_endpoint keep_if IsEndpoint
  classic_endpoint-eq e output h =
      classic_endpoint-fields e.1.ip_address e.1.endpoint_transaction_id (e.0) (e.1) output h.1 h.0
      ∙ ap (λ (b : Bool). returned (if b then store (e.0) (e.1) output else output))
          (keeps_endpoint-fits known e.1)

  kept-IsEndpoint :
      (entries output : Table ℤ WebObservation)
      → All IsEndpoint entries
      → All IsEndpoint output
      → All IsEndpoint (each keep_if entries output)
  unfolding each keep_if
  kept-IsEndpoint [] output h k = k
  kept-IsEndpoint ((txid, obs) ∷ entries) output h k = elim (Bool-cases (stays obs)) [
    | inl kept ↦
        kept-IsEndpoint entries _ h.1 (rw kept (All-store IsEndpoint txid obs output h.0 k))
    | inr dropped ↦ kept-IsEndpoint entries _ h.1 (rw dropped k)
  ]

  find-kept :
      (entries output : Table ℤ WebObservation) (asked : ℤ)
      → is_set (find asked (each keep_if entries output))
        ≡ (in_any stays entries asked || is_set (find asked output))
  unfolding each keep_if in_any
  find-kept [] output asked = refl
  find-kept ((txid, obs) ∷ entries) output asked = ground (
    arith,
    find-kept entries (keep_if (txid, obs) output) asked,
    find-store txid asked obs output,
    Bool-cases (stays obs),
    Bool-cases (int_eq txid asked),
  )

known_only :
    {b : Bool} (asked : String) (known : Dict ℕ)
    → is_set (lookup asked known) ≡ (b || false)
    → is_set (lookup asked known) ≡ b
known_only asked known p = ground (arith, p)

found_only :
    (known : Dict ℕ) (entries : Table ℤ WebObservation) (asked : ℤ)
    → is_set (find asked (each (keep_if known) entries [])) ≡ in_any (stays known) entries asked
unfolding find
found_only known entries asked = ground (arith, find-kept known entries [] asked)

-- What the filtered container has.
unfoldable pub Filtered : WebObservationsContainer → String → ℤ → WebObservationsContainer → Type 0
unfolding any_address
Filtered c ip_addr txid out =
    (out.dns_lookup_failures ≡ keep by_getaddrinfo c.dns_lookup_failures)
    × (out.dns_lookup_successes ≡ keep by_getaddrinfo c.dns_lookup_successes)
    × (is_set (lookup ip_addr out.known_ip_addresses)
        ≡ any_address (keep by_getaddrinfo c.dns_lookup_successes) ip_addr)
    × (is_set (find txid out.known_tcp_endpoints)
        ≡ in_any (fits out.known_ip_addresses) c.known_tcp_endpoints txid)
    × IsWellFormed out

-- On a well-formed container, ClassicFilter returns a well-formed one. It keeps the lookups made with
-- getaddrinfo, and knows the addresses of those that succeeded; and it has an endpoint of a
-- transaction exactly when the input has one that fetches the body, whose address does not come from
-- the test helper and is known if it comes from a lookup.
pub classic_filter-Kept :
    (c : WebObservationsContainer) (ip_addr : String) (txid : ℤ)
    → IsWellFormed c
    → Returns (Filtered c ip_addr txid) (classic_filter c)
unfolding classic_filter IsWellFormed Knows lookup Filtered
classic_filter-Kept c ip_addr txid h =
    let successes = keep uses_getaddrinfo c.dns_lookup_successes in
    let good = All-keep IsSuccess uses_getaddrinfo c.dns_lookup_successes h.1 in
    Returns-bind (Knows successes ip_addr []) _ _
      (classic_addresses-Knows successes ip_addr 0 [] good)
      λ known p.
        rw
          (each_or_panic-eq-each IsEndpoint (classic_endpoint known) (keep_if known)
            (classic_endpoint-eq known) c.known_tcp_endpoints [] h.2)
          (returns _ (
            keep-by_getaddrinfo c.dns_lookup_failures,
            keep-by_getaddrinfo c.dns_lookup_successes,
            known_only ip_addr known p
                ∙ ap (λ l. any_address l ip_addr) (keep-by_getaddrinfo c.dns_lookup_successes),
            found_only known c.known_tcp_endpoints txid,
            (
              All-keep IsDnsObservation uses_getaddrinfo c.dns_lookup_failures h.0,
              good,
              kept-IsEndpoint known c.known_tcp_endpoints [] h.2 tt,
            ),
          ))
