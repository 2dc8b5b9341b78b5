-- ===== src/Optional.antt =====
-- pkg/optional/optional.go: the accessors of optional.Value, which is the library's Option.
use ooni_probe_engine.Prelude.{Option, none, some}
use ooni_probe_engine.Prelude.Outcome.{Outcome, returned, panicked}

module _ {ℓ} {A : Type ℓ} where
  abbrev pub unwrap : Option A → Outcome A
  unwrap none = panicked
  unwrap (some value) = returned value

  abbrev pub unwrap_or : Option A → A → A
  unwrap_or none fallback = fallback
  unwrap_or (some value) fallback = value
