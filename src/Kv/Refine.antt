-- ===== src/Kv/Refine.antt =====
-- The pairs of kv-server/kv-server.c as a map with at most 100 keys: the specification, and that the
-- four functions implement it.
use os333_iit_bombay_labs.Prelude.{
  ℕ, ◌+◌, ◌-◌, ◌<◌, ◌≡◌, refl, sym, ap, ◌∙◌, inl, inr, true, false, Option, none, some, length,
  get_or, leb, if◌then◌else◌, arith, Bool-cases, get_elem?-get_or, write-some,
}
use os333_iit_bombay_labs.Prelude.Int.{ℤ, eqb, eqb_iff}
use os333_iit_bombay_labs.Prelude.Text.{Text}
use os333_iit_bombay_labs.Kv.{
  max_pairs, Store, no_pair, static_store, ok_msg, key_exists, store_full, not_found, find_key,
  handle_create, read_value, update_value, delete_value,
}
use os333_iit_bombay_labs.Kv.View.{
  IsValid, Sees, Sees-unique, FoundKey, find_key_lem, read_value-Sees,
}
use os333_iit_bombay_labs.Kv.Handlers.{
  Updated, pair, grown, grown-Updated, renewed, shrunk, renewed-Updated, shrunk-Updated,
}

-- The abstract store: a map from keys, and how many keys it has.
pub record KvMap : Type 0 where
  pub find : ℤ → Option Text
  pub count : ℕ

abbrev pub empty_map : KvMap
empty_map = record { find = λ _. none; count = 0 }

abbrev pub rebind : ℤ → Option Text → (ℤ → Option Text) → ℤ → Option Text
rebind k r f j = if eqb k j then r else f j

-- What each operation means on the map.
unfoldable pub spec_create : KvMap → ℤ → Text → KvMap × Text
spec_create m k v = elim (m.find k) [
  | some _ ↦ (m, key_exists)
  | none ↦
      if leb max_pairs m.count
      then (m, store_full)
      else (record { find = rebind k (some v) m.find; count = m.count + 1 }, ok_msg)
]

unfoldable pub spec_update : KvMap → ℤ → Text → KvMap × Text
spec_update m k v = elim (m.find k) [
  | some _ ↦ (record m { find = rebind k (some v) m.find }, ok_msg)
  | none ↦ (m, not_found)
]

unfoldable pub spec_delete : KvMap → ℤ → KvMap × Text
spec_delete m k = elim (m.find k) [
  | some _ ↦ (record { find = rebind k none m.find; count = m.count - 1 }, ok_msg)
  | none ↦ (m, not_found)
]

-- The array implements the map.
pub record Refines (s : Store) (m : KvMap) : Type 0 where
  pub valid : IsValid s
  pub count : s.kv_count ≡ m.count
  pub sees : (k : ℤ) → Sees s k (m.find k)

-- The result of a handler that does what the specification does.
abbrev pub Implements : Option (Store × Text) → KvMap × Text → Type 0
Implements run (m', reply) = (s' : Store) × (run ≡ some (s', reply)) × Refines s' m'

Updated-Refines :
    {s s' : Store} {m : KvMap} {n : ℕ} (k : ℤ) (r : Option Text)
    → Refines s m
    → Updated s k r s'
    → s'.kv_count ≡ n
    → Refines s' (record { find = rebind k r m.find; count = n })
Updated-Refines {s} {s'} {m} {n} k r ref up e = record {
  valid = up.valid;
  count = e;
  sees = λ j. elim (Bool-cases (eqb k j)) [
    | inl same ↦ rw same (rw ((eqb_iff k j).0 same) at up.here)
    | inr other ↦
        rw other (up.others j (m.find j) (λ e'. cc (other, (eqb_iff k j).1 (sym e'))) (ref.sees j))
  ];
}

module _ {s : Store} {m : KvMap} (ref : Refines s m) (k : ℤ) where
  -- What the search finds decides what the map holds.
  found_is_some : (i : ℕ) → FoundKey s k (some i) → (v : Text) × (m.find k ≡ some v)
  found_is_some i (lt, at) = held (m.find k) refl
    where
      held : (r : Option Text) → m.find k ≡ r → (v : Text) × (r ≡ some v)
      held none e = absurd ((rw e at (ref.sees k)) i lt at)
      held (some v) e = (v, refl)

  absent_is_none : Sees s k none → m.find k ≡ none
  absent_is_none absent = Sees-unique ref.valid k (m.find k) none (ref.sees k) absent

  -- `read_value` returns what the map holds.
  pub read_value_implements : read_value s k ≡ some (m.find k)
  read_value_implements =
      let (r, e, sees) = read_value-Sees ref.valid k in
      e ∙ ap (λ (x : Option Text). some x) (Sees-unique ref.valid k r (m.find k) sees (ref.sees k))

  -- `handle_create` does what the specification does, on every branch.
  pub handle_create-Implements :
      (v : Text) → Implements (handle_create true s k v) (spec_create m k v)
  unfolding handle_create spec_create
  handle_create-Implements v = go (find_key_lem ref.valid k)
    where
      go :
          ((hit : Option ℕ) × (find_key s.kv_count 0 k s.store ≡ some hit) × FoundKey s k hit)
          → Implements (handle_create true s k v) (spec_create m k v)
      go (some i, e, f) =
          let (w, held) = found_is_some i f in rw (held, spec_create, e) (s, refl, ref)
      go (none, e, absent) = elim (Bool-cases (leb max_pairs s.kv_count)) [
        | inl full ↦
            let full' : leb max_pairs m.count ≡ true = ground (arith, ref.count) in
            rw (absent_is_none absent, spec_create, e, full, full') (s, refl, ref)
        | inr room ↦
            let lt : s.kv_count < max_pairs = ground arith in
            let room' : leb max_pairs m.count ≡ false = ground (arith, ref.count) in
            rw (absent_is_none absent, spec_create, e, room, room')
              (
                grown ref.valid k v absent lt,
                rw (write-some s.store s.kv_count (pair k v) (omega (arith, ref.valid.size))),
                Updated-Refines k (some v) ref (grown-Updated ref.valid k v absent lt)
                    (omega (arith, ref.count)),
              )
      ]

  -- `update_value` does what the specification does, on every branch.
  pub update_value-Implements :
      (v : Text) → Implements (update_value true s k v) (spec_update m k v)
  unfolding update_value spec_update
  update_value-Implements v = go (find_key_lem ref.valid k)
    where
      go :
          ((hit : Option ℕ) × (find_key s.kv_count 0 k s.store ≡ some hit) × FoundKey s k hit)
          → Implements (update_value true s k v) (spec_update m k v)
      go (none, e, absent) = rw (absent_is_none absent, spec_update, e) (s, refl, ref)
      go (some i, e, f) =
          let (w, held) = found_is_some i f in
          let lt : i < length s.store = omega (arith, ref.valid.size, ref.valid.bounded, f.0) in
          rw (held, spec_update, e, get_elem?-get_or s.store i no_pair lt)
            (
              renewed ref.valid k v i f.0 f.1,
              rw (write-some s.store i (record (get_or s.store i no_pair) { value = some v }) lt),
              Updated-Refines k (some v) ref (renewed-Updated ref.valid k v i f.0 f.1) ref.count,
            )

  -- `delete_value` does what the specification does, on every branch.
  pub delete_value-Implements : Implements (delete_value s k) (spec_delete m k)
  unfolding delete_value spec_delete
  delete_value-Implements = go (find_key_lem ref.valid k)
    where
      go :
          ((hit : Option ℕ) × (find_key s.kv_count 0 k s.store ≡ some hit) × FoundKey s k hit)
          → Implements (delete_value s k) (spec_delete m k)
      go (none, e, absent) = rw (absent_is_none absent, spec_delete, e) (s, refl, ref)
      go (some i, e, f) =
          let (w, held) = found_is_some i f in
          let lt : i < length s.store = omega (arith, ref.valid.size, ref.valid.bounded, f.0) in
          let lt' : s.kv_count - 1 < length s.store =
            omega (arith, ref.valid.size, ref.valid.bounded, f.0) in
          rw (held, spec_delete, e, get_elem?-get_or s.store (s.kv_count - 1) no_pair lt')
            (
              shrunk ref.valid k i f.0 f.1,
              rw (write-some s.store i (get_or s.store (s.kv_count - 1) no_pair) lt),
              Updated-Refines k none ref (shrunk-Updated ref.valid k i f.0 f.1) (rw ref.count),
            )

-- The store at the start is the empty map.
pub static_store-Refines : Refines static_store empty_map
unfolding static_store
static_store-Refines = record {
  valid = record {
    size = refl;
    bounded = omega arith;
    distinct = λ i j lt. absurd (omega arith);
    stored = λ i lt. absurd (omega arith);
  };
  count = refl;
  sees = λ k i lt. absurd (omega arith);
}
