-- ===== src/Kv.antt =====
-- kv-server/kv-server.c: the array of key-value pairs and the four functions on it.
-- A value is held by its bytes. `none` as a result is a fault: an index outside the array, or a
-- `strcpy` to the NULL of a failed `malloc`.
pub mod View
pub mod Handlers
pub mod Refine
pub mod Session
pub mod Client
use os333_iit_bombay_labs.Prelude.{
  ℕ, zero, suc, ◌+◌, ◌-◌, Bool, true, false, Option, none, some, List, get_elem?, replicate, write,
  leb, if◌then◌else◌, ◌>>=◌,
}
use os333_iit_bombay_labs.Prelude.Int.{ℤ, pos, eqb}
use os333_iit_bombay_labs.Prelude.Text.{Text, codes}

abbrev pub max_pairs : ℕ
max_pairs = 100

pub record KvPair : Type 0 where
  pub key : ℤ
  pub value : Option Text  -- `none` is NULL

-- The globals `store` and `kv_count`.
pub record Store : Type 0 where
  pub store : List KvPair
  pub kv_count : ℕ

abbrev pub no_pair : KvPair
no_pair = record { key = pos 0; value = none }

-- The globals at the start, which C sets to zero.
unfoldable pub static_store : Store
static_store = record { store = replicate max_pairs no_pair; kv_count = 0 }

abbrev pub ok_msg : Text
ok_msg = codes "OK\n"

abbrev pub key_exists : Text
key_exists = codes "Error: Key already exists\n"

abbrev pub store_full : Text
store_full = codes "Error: Store full\n"

abbrev pub not_found : Text
not_found = codes "Error: Key not found\n"

-- The loop `for (i = 0; i < kv_count; ++i) if (store[i].key == key)`, with `n` rounds left.
unfoldable pub find_key : ℕ → ℕ → ℤ → List KvPair → Option (Option ℕ)
find_key zero i key store = some none
find_key (suc n) i key store =
    let rest = find_key n (suc i) key store in
    get_elem? store i >>= λ e. if eqb e.key key then some (some i) else rest

-- `malloc(strlen(value) + 1)` and `strcpy`, where `given` says whether `malloc` succeeds.
abbrev pub copy_value : Bool → Text → Option Text
copy_value given value = if given then some value else none

unfoldable pub handle_create : Bool → Store → ℤ → Text → Option (Store × Text)
handle_create given s key value = do
  hit ← find_key s.kv_count 0 key s.store
  let insert : Option (Store × Text) = do
    v ← copy_value given value
    store' ← write s.store s.kv_count (record { key = key; value = some v })
    some (record { store = store'; kv_count = s.kv_count + 1 }, ok_msg)
  elim hit [
    | some _ ↦ some (s, key_exists)
    | none ↦ if leb max_pairs s.kv_count then some (s, store_full) else insert
  ]

unfoldable pub read_value : Store → ℤ → Option (Option Text)
read_value s key = do
  hit ← find_key s.kv_count 0 key s.store
  elim hit [ none ↦ some none | some i ↦ get_elem? s.store i >>= λ e. some e.value ]

unfoldable pub update_value : Bool → Store → ℤ → Text → Option (Store × Text)
update_value given s key value = do
  hit ← find_key s.kv_count 0 key s.store
  elim hit [
    | none ↦ some (s, not_found)
    | some i ↦ do
      e ← get_elem? s.store i
      v ← copy_value given value
      store' ← write s.store i (record e { value = some v })
      some (record s { store = store' }, ok_msg)
  ]

-- The last pair moves to the place of the deleted one.
unfoldable pub delete_value : Store → ℤ → Option (Store × Text)
delete_value s key = do
  hit ← find_key s.kv_count 0 key s.store
  elim hit [
    | none ↦ some (s, not_found)
    | some i ↦ do
      last ← get_elem? s.store (s.kv_count - 1)
      store' ← write s.store i last
      some (record { store = store'; kv_count = s.kv_count - 1 }, ok_msg)
  ]
