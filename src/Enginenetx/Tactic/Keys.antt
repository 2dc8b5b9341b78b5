-- ===== src/Enginenetx/Tactic/Keys.antt =====
-- What the keys of a tactic tell apart.
use Prim.Native.Char.{Char}
use Prim.Native.String.{◌∷◌, ◌++◌}
use mathlib.Core.Path.{ap₂}
use text.Mathlib.TextLemmas.{
  nil-append, cons-append, append_assoc, head-eq_of_cons-eq, tail-eq_of_cons-eq, append_cancel_left,
  append_cancel_right,
}
use ooni_probe_engine.Prelude.{
  String, true, false, ◌||◌, ◌≡◌, refl, ap, ◌∙◌, ◌↔◌, arith, inl, inr, Bool-cases, if◌then◌else◌,
}
use ooni_probe_engine.Enginenetx.Tactic.{
  HttpsDialerTactic, clone, has_colon, join_host_port, domain_endpoint_key,
}

pub clone_lem : (dt : HttpsDialerTactic) → clone dt ≡ dt
unfolding clone
clone_lem dt = refl

has_colon-append : (s t : String) → has_colon (s ++ t) ≡ (has_colon s || has_colon t)
unfolding has_colon
has_colon-append String.[] t = rw nil-append
has_colon-append (String.◌∷◌ c s) t = rw cons-append (ground (arith, has_colon-append s t))

colon-append : (p : String) → ":" ++ p ≡ ":" ∷ p
colon-append p = cons-append ":" "" p ∙ ap (λ (t : String). ":" ∷ t) (nil-append p)

colon_inside : (t q : String) → has_colon (t ++ (":" ++ q)) ≡ true
unfolding has_colon
colon_inside t q = ground (arith, has_colon-append t (":" ++ q), has_colon-append ":" q)

cons_inj : (c d : Char) (s t : String) → c ∷ s ≡ d ∷ t → (c ≡ d) × (s ≡ t)
cons_inj c d s t e = (head-eq_of_cons-eq e, tail-eq_of_cons-eq e)

-- A text that ends in a colon and a port without one has its last colon there.
last_colon :
    (s t p q : String)
    → has_colon p ≡ false
    → has_colon q ≡ false
    → s ++ (":" ++ p) ≡ t ++ (":" ++ q)
    → (s ≡ t) × (p ≡ q)
last_colon String.[] String.[] p q hp hq e =
    let e' : ":" ∷ p ≡ ":" ∷ q =
      cc (nil-append (":" ++ p), nil-append (":" ++ q), colon-append p, colon-append q) in
    (refl, (cons_inj ":" ":" p q e').1)
last_colon String.[] (String.◌∷◌ d t) p q hp hq e =
    let e' : ":" ∷ p ≡ d ∷ (t ++ (":" ++ q)) =
      cc (nil-append (":" ++ p), colon-append p, cons-append d t (":" ++ q)) in
    cc ((cons_inj ":" d p (t ++ (":" ++ q)) e').1, colon_inside t q)
last_colon (String.◌∷◌ c s) String.[] p q hp hq e =
    let e' : c ∷ (s ++ (":" ++ p)) ≡ ":" ∷ q =
      cc (nil-append (":" ++ q), colon-append q, cons-append c s (":" ++ p)) in
    cc ((cons_inj c ":" (s ++ (":" ++ p)) q e').1, colon_inside s p)
last_colon (String.◌∷◌ c s) (String.◌∷◌ d t) p q hp hq e =
    let e' : c ∷ (s ++ (":" ++ p)) ≡ d ∷ (t ++ (":" ++ q)) =
      cc (cons-append c s (":" ++ p), cons-append d t (":" ++ q)) in
    let (same, rest) = cons_inj c d (s ++ (":" ++ p)) (t ++ (":" ++ q)) e' in
    let (heads, ports) = last_colon s t p q hp hq rest in (ap₂ (λ a b. a ∷ b) same heads, ports)

bracketed : String → String
bracketed host = if has_colon host then "[" ++ (host ++ "]") else host

join_host_port-bracketed :
    (host port : String) → join_host_port host port ≡ bracketed host ++ (":" ++ port)
unfolding join_host_port bracketed
join_host_port-bracketed host port = elim (Bool-cases (has_colon host)) [
  | inl colon ↦ rw colon (
      cc (
        append_assoc "[" (host ++ "]") (":" ++ port),
        append_assoc host "]" (":" ++ port),
        append_assoc "]" ":" port,
      ))
  | inr plain ↦ rw plain
]

colon_in_brackets : (h : String) → has_colon h ≡ true → has_colon ("[" ++ (h ++ "]")) ≡ true
colon_in_brackets h colon = ground (arith, has_colon-append "[" (h ++ "]"), has_colon-append h "]")

bracketed_inj : (h k : String) → bracketed h ≡ bracketed k → h ≡ k
unfolding bracketed
bracketed_inj h k e = elim (Bool-cases (has_colon h)) [
  | inl hc ↦ elim (Bool-cases (has_colon k)) [
    | inl kc ↦
        append_cancel_right h k "]"
          (append_cancel_left "[" (h ++ "]") (k ++ "]") (rw (hc, kc) at e))
    | inr kp ↦ cc (kp, colon_in_brackets h hc, ap has_colon (rw (hc, kp) at e))
  ]
  | inr hp ↦ elim (Bool-cases (has_colon k)) [
    | inl kc ↦ cc (hp, colon_in_brackets k kc, ap has_colon (rw (hp, kc) at e))
    | inr kp ↦ rw (hp, kp) at e
  ]
]

-- Endpoints with ports that hold no colon have one key only if host and port are the same.
pub join_host_port_inj :
    (h k p q : String)
    → has_colon p ≡ false
    → has_colon q ≡ false
    → join_host_port h p ≡ join_host_port k q
    → (h ≡ k) × (p ≡ q)
join_host_port_inj h k p q hp hq e =
    let (hosts, ports) =
      last_colon (bracketed h) (bracketed k) p q hp hq
        (cc (join_host_port-bracketed h p, join_host_port-bracketed k q)) in
    (bracketed_inj h k hosts, ports)

-- Two tactics with colon-free ports share a domain endpoint exactly when they agree on the hostname
-- to verify and on the port.
pub domain_endpoint_key_inj :
    (a b : HttpsDialerTactic)
    → has_colon a.port ≡ false
    → has_colon b.port ≡ false
    → (domain_endpoint_key a ≡ domain_endpoint_key b)
      ↔ ((a.verify_hostname ≡ b.verify_hostname) × (a.port ≡ b.port))
unfolding domain_endpoint_key
domain_endpoint_key_inj a b ha hb = (
  join_host_port_inj a.verify_hostname b.verify_hostname a.port b.port ha hb,
  λ (same, ports). ap₂ join_host_port same ports,
)
