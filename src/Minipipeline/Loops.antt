-- ===== src/Minipipeline/Loops.antt =====
-- The loops of pkg/minipipeline: over the events, with the container as the state, and over the
-- observations, each changed in place.
use ooni_probe_engine.Prelude.{
  ◌≡◌, refl, Bool, true, false, ◌&&◌, Option, none, some, List, [], ◌∷◌, All,
}
use ooni_probe_engine.Prelude.Outcome.{
  Outcome, returned, panicked, ◌>>=◌, Returns, returns, Returns-bind, Returns-at,
}

module _ {E : Type 0} {S : Type 0} where
  -- for _, ev := range evs { step }
  unfoldable pub each : (E → S → S) → List E → S → S
  each step [] s = s
  each step (ev ∷ evs) s = each step evs (step ev s)

  pub each-inv {κ} :
      (P : S → Type κ) (step : E → S → S)
      → ((ev : E) (s : S) → P s → P (step ev s))
      → (evs : List E) (s : S) → P s
      → P (each step evs s)
  unfolding each
  each-inv P step keeps [] s h = h
  each-inv P step keeps (ev ∷ evs) s h = each-inv P step keeps evs (step ev s) (keeps ev s h)

  -- The same for a body that may panic.
  unfoldable pub each_or_panic : (E → S → Outcome S) → List E → S → Outcome S
  each_or_panic step [] s = returned s
  each_or_panic step (ev ∷ evs) s = do next ← step ev s; each_or_panic step evs next

  -- A body that returns on every item of the list, and what it does.
  pub each_or_panic-eq-each {κ} :
      (P : E → Type κ) (step : E → S → Outcome S) (effect : E → S → S)
      → ((ev : E) (s : S) → P ev → step ev s ≡ returned (effect ev s))
      → (evs : List E) (s : S) → All P evs
      → each_or_panic step evs s ≡ returned (each effect evs s)
  unfolding each each_or_panic
  each_or_panic-eq-each P step effect eq [] s h = refl
  each_or_panic-eq-each P step effect eq (ev ∷ evs) s h =
      rw (eq ev s h.0) (each_or_panic-eq-each P step effect eq evs (effect ev s) h.1)

  pub each_or_panic-Returns {κ μ} :
      (P : E → Type κ) (Q : S → Type μ) (step : E → S → Outcome S)
      → ((ev : E) (s : S) → P ev → Q s → Returns Q (step ev s))
      → (evs : List E) (s : S) → All P evs
      → Q s
      → Returns Q (each_or_panic step evs s)
  unfolding each_or_panic
  each_or_panic-Returns P Q step keeps [] s h q = returns s q
  each_or_panic-Returns P Q step keeps (ev ∷ evs) s h q =
      Returns-bind Q Q (each_or_panic step evs) (keeps ev s h.0 q)
        λ next r. each_or_panic-Returns P Q step keeps evs next h.1 r

-- The call returns a value that satisfies the predicate when the Boolean is true, and panics when it
-- is false.
abbrev pub Ends : {A : Type 0} → Bool → (A → Type 0) → Outcome A → Type 0
Ends true P m = Returns P m
Ends false P m = m ≡ panicked

Ends-after :
    {A B : Type 0} (b : Bool) (P : A → Type 0) (Q : B → Type 0) {m : Outcome A} (f : A → Outcome B)
    → Returns P m
    → ((a : A) → P a → Ends b Q (f a))
    → Ends b Q (m >>= f)
Ends-after b P Q f (returns a p) k = k a p

pub Ends-bind :
    {A B : Type 0} (b b' : Bool) (P : A → Type 0) (Q : B → Type 0) (m : Outcome A)
    (f : A → Outcome B)
    → Ends b P m
    → ((a : A) → P a → Ends b' Q (f a))
    → Ends (b && b') Q (m >>= f)
Ends-bind false b' P Q m f e k = rw e refl
Ends-bind true b' P Q m f r k = Ends-after b' P Q f r k

pub Ends-at :
    {A : Type 0} (b : Bool) (P : A → Type 0) {m : Outcome A} (a : A)
    → Ends b P m
    → m ≡ returned a
    → P a
Ends-at true P a r e = Returns-at P a r e
Ends-at false P a r e = cc

-- No pointer of the slice is nil.
unfoldable pub no_nil {ℓ} : {E : Type ℓ} → List (Option E) → Bool
no_nil [] = true
no_nil (none ∷ evs) = false
no_nil (some ev ∷ evs) = no_nil evs

module _ {E : Type 0} {S : Type 0} where
  -- The same for a slice of pointers, where the body dereferences each of them.
  unfoldable pub each_event : (E → S → S) → List (Option E) → S → Outcome S
  each_event step [] s = returned s
  each_event step (none ∷ evs) s = panicked
  each_event step (some ev ∷ evs) s = each_event step evs (step ev s)

  pub each_event-Ends :
      (P : S → Type 0) (step : E → S → S)
      → ((ev : E) (s : S) → P s → P (step ev s))
      → (evs : List (Option E)) (s : S) → P s
      → Ends (no_nil evs) P (each_event step evs s)
  unfolding each_event no_nil
  each_event-Ends P step keeps [] s h = returns s h
  each_event-Ends P step keeps (none ∷ evs) s h = refl
  each_event-Ends P step keeps (some ev ∷ evs) s h =
      each_event-Ends P step keeps evs (step ev s) (keeps ev s h)

module _ {V : Type 0} where
  unfoldable pub update_list : (V → Outcome V) → List V → Outcome (List V)
  update_list body [] = returned []
  update_list body (x ∷ xs) = do y ← body x; ys ← update_list body xs; returned (y ∷ ys)

  pub update_list-Returns {κ} :
      (P : V → Type κ) (body : V → Outcome V)
      → ((x : V) → P x → Returns P (body x))
      → (xs : List V) → All P xs
      → Returns (All P) (update_list body xs)
  unfolding update_list
  update_list-Returns P body keeps [] h = returns [] tt
  update_list-Returns P body keeps (x ∷ xs) h = Returns-bind P (All P) _ (keeps x h.0) λ y p.
      Returns-bind (All P) (All P) _ (update_list-Returns P body keeps xs h.1)
        λ ys q. returns (y ∷ ys) (p, q)

module _ {K V : Type 0} where
  -- for _, obs := range m { body }, of a body that changes the observation.
  unfoldable pub update_table : (V → Outcome V) → List (K × V) → Outcome (List (K × V))
  update_table body [] = returned []
  update_table body ((key, x) ∷ entries) = do
    y ← body x
    ys ← update_table body entries
    returned ((key, y) ∷ ys)

  pub update_table-Returns {κ} :
      (P : K × V → Type κ) (body : V → Outcome V)
      → ((key : K) (x : V) → P (key, x) → Returns (λ y. P (key, y)) (body x))
      → (entries : List (K × V)) → All P entries
      → Returns (All P) (update_table body entries)
  unfolding update_table
  update_table-Returns P body keeps [] h = returns [] tt
  update_table-Returns P body keeps ((key, x) ∷ entries) h =
      Returns-bind (λ y. P (key, y)) (All P) _ (keeps key x h.0)
        λ y p.
          Returns-bind (All P) (All P) _ (update_table-Returns P body keeps entries h.1)
            λ ys q. returns ((key, y) ∷ ys) (p, q)
