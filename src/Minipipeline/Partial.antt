-- ===== src/Minipipeline/Partial.antt =====
-- What the calls of pkg/minipipeline/analysis.go give when they do not panic.
use ooni_probe_engine.Prelude.{Bool, true, false, ◌≡◌, subst, List, [], ◌∷◌, if◌then◌else◌}
use ooni_probe_engine.Prelude.Int.{ℤ}
use ooni_probe_engine.Prelude.Keys.{int_key}
use ooni_probe_engine.Prelude.Outcome.{Outcome, returned, panicked, ◌>>=◌, returned_inj}
use ooni_probe_engine.Optional.{unwrap}
use ooni_probe_engine.Minipipeline.Set.{Set, contains}
use ooni_probe_engine.Minipipeline.Observation.{WebObservation}
use ooni_probe_engine.Minipipeline.Loops.{each_or_panic}
use ooni_probe_engine.Minipipeline.Analysis.{first_time, first_step, for_first}

-- If the call returns, the result satisfies the predicate.
pub data Partial {A : Type 0} (P : A → Type 0) : Outcome A → Type 0 where
  fails : Partial P panicked
  gives : (a : A) → P a → Partial P (returned a)

module _ {A B : Type 0} where
  pub Partial-bind :
      (P : A → Type 0) (Q : B → Type 0) {m : Outcome A} (f : A → Outcome B)
      → Partial P m
      → ((a : A) → P a → Partial Q (f a))
      → Partial Q (m >>= f)
  Partial-bind P Q f fails k = fails
  Partial-bind P Q f (gives a p) k = k a p

  -- After any call.
  pub Partial-after :
      (Q : B → Type 0) (m : Outcome A) (f : A → Outcome B)
      → ((a : A) → Partial Q (f a))
      → Partial Q (m >>= f)
  Partial-after Q panicked f k = fails
  Partial-after Q (returned a) f k = k a

pub Partial-if :
    {A : Type 0} (P : A → Type 0) (b : Bool) (m n : Outcome A)
    → Partial P m
    → Partial P n
    → Partial P (if b then m else n)
Partial-if P true m n p q = p
Partial-if P false m n p q = q

pub Partial-imp :
    {A : Type 0} (P Q : A → Type 0) {m : Outcome A}
    → ((a : A) → P a → Q a)
    → Partial P m
    → Partial Q m
Partial-imp P Q f fails = fails
Partial-imp P Q f (gives a p) = gives a (f a p)

pub Partial-at :
    {A : Type 0} (P : A → Type 0) {m : Outcome A} (a : A) → Partial P m → m ≡ returned a → P a
Partial-at P a fails e = cc
Partial-at P a (gives b p) e = subst P (returned_inj b a e) p

pub if-both :
    {A : Type 0} (P : A → Type 0) (b : Bool) (x y : A) → P x → P y → P (if b then x else y)
if-both P true x y p q = p
if-both P false x y p q = q

pub each_or_panic-Partial :
    {E S : Type 0} (Q : S → Type 0) (step : E → S → Outcome S)
    → ((ev : E) (s : S) → Q s → Partial Q (step ev s))
    → (evs : List E) (s : S) → Q s
    → Partial Q (each_or_panic step evs s)
unfolding each_or_panic
each_or_panic-Partial Q step keeps [] s q = gives s q
each_or_panic-Partial Q step keeps (ev ∷ evs) s q =
    Partial-bind Q Q _ (keeps ev s q) λ next r. each_or_panic-Partial Q step keeps evs next r

module _ {A : Type 0} (Q : A → Type 0) (body : WebObservation → ℤ → A → Outcome A)
    (keeps : (obs : WebObservation) (txid : ℤ) (s : A) → Q s → Partial Q (body obs txid s)) where
  Second : Set ℤ × A → Type 0
  Second state = Q (state.1)

  first_time-Partial :
      (obs : WebObservation) (txid : ℤ) (b : Bool) (state : Set ℤ × A)
      → Second state
      → Partial Second (first_time body obs txid b state)
  unfolding first_time Second
  first_time-Partial obs txid true (already, s) q = gives _ q
  first_time-Partial obs txid false (already, s) q =
      Partial-bind Q Second _ (keeps obs txid s q) λ next r. gives _ r

  pub for_first-Partial :
      (observations : List WebObservation) (s : A) → Q s → Partial Q (for_first body observations s)
  unfolding for_first first_step Second
  for_first-Partial observations s q =
      Partial-bind Second Q _
        (each_or_panic-Partial Second (first_step body)
          (λ obs state r.
            Partial-after Second (unwrap obs.dns_transaction_id) _
              (λ txid. first_time-Partial obs txid (contains (state.0) txid) state r))
          observations ([], s) q)
        λ result r. gives _ r
