-- ===== src/Kvstore.antt =====
-- pkg/kvstore/memory.go, and the interface model.KeyValueStore through which the engine reaches its
-- stores.
use ooni_probe_engine.Prelude.{
  String, ◌≡◌, Bool, true, Option, none, some, [], str_eq, eq_refl, if◌then◌else◌,
}
use ooni_probe_engine.Prelude.Dict.{Dict, lookup, insert, lookup-insert}

-- A store of byte strings: `get` is none on an error, `set` returns the new store and whether it
-- succeeded. A write that succeeded is what a read of its key returns.
pub record KeyValueStore (Bytes : Type 0) : Type 1 where
  pub Store : Type 0
  pub get : Store → String → Option Bytes
  pub set : Store → String → Bytes → Store × Bool
  pub get-set :
      (s : Store) (k : String) (v : Bytes) → (set s k v).1 ≡ true → get (set s k v).0 k ≡ some v

module _ {Bytes : Type 0} where
  abbrev pub entries : Option (Dict Bytes) → Dict Bytes
  entries none = []
  entries (some m) = m

  -- Memory.Get and Memory.Set, on the map `m`, which is nil at first.
  unfoldable pub memory_get : Option (Dict Bytes) → String → Option Bytes
  memory_get kvs key = lookup key (entries kvs)

  unfoldable pub memory_set : Option (Dict Bytes) → String → Bytes → Option (Dict Bytes) × Bool
  memory_set kvs key value = (some (insert key value (entries kvs)), true)

  -- A read returns the last value written under its key, and a write changes no other key.
  pub memory_get-memory_set :
      (kvs : Option (Dict Bytes)) (key other : String) (value : Bytes)
      → memory_get (memory_set kvs key value).0 other
        ≡ (if str_eq key other then some value else memory_get kvs other)
  unfolding memory_get memory_set
  memory_get-memory_set kvs key other value = lookup-insert key other value (entries kvs)

  pub memory_get_written :
      (kvs : Option (Dict Bytes)) (key : String) (value : Bytes)
      → memory_get (memory_set kvs key value).0 key ≡ some value
  memory_get_written kvs key value = rw (memory_get-memory_set, eq_refl)

-- Memory implements the interface.
abbrev pub memory : (Bytes : Type 0) → KeyValueStore Bytes
memory Bytes = record {
  Store = Option (Dict Bytes);
  get = memory_get;
  set = memory_set;
  get-set = λ s k v ok. memory_get_written s k v;
}
