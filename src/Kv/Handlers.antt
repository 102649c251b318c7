-- ===== src/Kv/Handlers.antt =====
-- `handle_create`, `update_value` and `delete_value` of kv-server/kv-server.c on every branch.
use os333_iit_bombay_labs.Prelude.{
  ℕ, ◌+◌, ◌-◌, ◌<◌, ◌≡◌, refl, sym, ap, ◌∙◌, ◌≢◌, ◌⊎◌, inl, inr, Option, none, some, get_or, set,
  ◌==◌, if◌then◌else◌, arith, get_or-set, length-set, ℕ_discrete,
}
use os333_iit_bombay_labs.Prelude.Int.{ℤ}
use os333_iit_bombay_labs.Prelude.Text.{Text}
use os333_iit_bombay_labs.Kv.{max_pairs, KvPair, Store, no_pair}
use os333_iit_bombay_labs.Kv.View.{key_at, value_at, IsValid, Sees}

-- `s'` holds `r` under `k`, and what `s` holds under every other key.
pub record Updated (s : Store) (k : ℤ) (r : Option Text) (s' : Store) : Type 0 where
  pub valid : IsValid s'
  pub here : Sees s' k r
  pub others : (j : ℤ) (v : Option Text) → j ≢ k → Sees s j v → Sees s' j v

abbrev pub pair : ℤ → Text → KvPair
pair k v = record { key = k; value = some v }

-- `create` puts a pair behind the others.
module _ {s : Store} (valid : IsValid s) (k : ℤ) (v : Text) (absent : Sees s k none)
    (room : s.kv_count < max_pairs) where
  abbrev pub grown : Store
  grown = record { store = set s.store s.kv_count (pair k v); kv_count = s.kv_count + 1 }

  grown_at :
      (j : ℕ)
      → get_or grown.store j no_pair
        ≡ (if s.kv_count == j then pair k v else get_or s.store j no_pair)
  grown_at j = get_or-set s.store s.kv_count j (pair k v) no_pair (omega (arith, valid.size))

  old_at : (j : ℕ) → j < s.kv_count → get_or grown.store j no_pair ≡ get_or s.store j no_pair
  old_at j lt = ground (arith, grown_at j)

  old_key : (j : ℕ) → j < s.kv_count → key_at grown j ≡ key_at s j
  old_key j lt = ap (λ (e : KvPair). e.key) (old_at j lt)

  old_value : (j : ℕ) → j < s.kv_count → value_at grown j ≡ value_at s j
  old_value j lt = ap (λ (e : KvPair). e.value) (old_at j lt)

  new_at : (j : ℕ) → j ≡ s.kv_count → get_or grown.store j no_pair ≡ pair k v
  new_at j e = ground (arith, grown_at j)

  new_key : (j : ℕ) → j ≡ s.kv_count → key_at grown j ≡ k
  new_key j e = ap (λ (e : KvPair). e.key) (new_at j e)

  new_value : (j : ℕ) → j ≡ s.kv_count → value_at grown j ≡ some v
  new_value j e = ap (λ (e : KvPair). e.value) (new_at j e)

  last_or_old : (j : ℕ) → j < s.kv_count + 1 → (j < s.kv_count) ⊎ (j ≡ s.kv_count)
  last_or_old j lt = omega arith

  grown_distinct :
      (i j : ℕ) → i < s.kv_count + 1 → j < s.kv_count + 1 → key_at grown i ≡ key_at grown j → i ≡ j
  grown_distinct i j li lj e = elim (last_or_old i li) [
    | inl i_old ↦ elim (last_or_old j lj) [
      | inl j_old ↦ valid.distinct i j i_old j_old (sym (old_key i i_old) ∙ e ∙ old_key j j_old)
      | inr j_last ↦ absurd (absent i i_old (sym (old_key i i_old) ∙ e ∙ new_key j j_last))
    ]
    | inr i_last ↦ elim (last_or_old j lj) [
      | inl j_old ↦ absurd (absent j j_old (sym (old_key j j_old) ∙ sym e ∙ new_key i i_last))
      | inr j_last ↦ omega arith
    ]
  ]

  grown_others : (j : ℤ) (r : Option Text) → j ≢ k → Sees s j r → Sees grown j r
  grown_others j none ne all = λ i lt at. elim (last_or_old i lt) [
    | inl i_old ↦ all i i_old (sym (old_key i i_old) ∙ at)
    | inr i_last ↦ ne (sym at ∙ new_key i i_last)
  ]
  grown_others j (some w) ne (i, lt, at, held) =
      (i, omega arith, old_key i lt ∙ at, old_value i lt ∙ held)

  pub grown-Updated : Updated s k (some v) grown
  grown-Updated = record {
    valid = record {
      size = omega (arith, valid.size, length-set s.store s.kv_count (pair k v));
      bounded = omega arith;
      distinct = grown_distinct;
      stored = λ i lt. elim (last_or_old i lt) [
        | inl i_old ↦ λ e. valid.stored i i_old (sym (old_value i i_old) ∙ e)
        | inr i_last ↦ λ e. cc (e, new_value i i_last)
      ];
    };
    here = (s.kv_count, omega arith, new_key s.kv_count refl, new_value s.kv_count refl);
    others = grown_others;
  }

-- `update` replaces the value of the pair with the key.
module _ {s : Store} (valid : IsValid s) (k : ℤ) (v : Text) (i : ℕ) (lt : i < s.kv_count)
    (at : key_at s i ≡ k) where
  abbrev pub renewed : Store
  renewed = record s {
    store = set s.store i (record (get_or s.store i no_pair) { value = some v });
  }

  renewed_at :
      (j : ℕ)
      → get_or renewed.store j no_pair ≡ (
          if i == j
          then record (get_or s.store i no_pair) { value = some v }
          else get_or s.store j no_pair)
  renewed_at j = get_or-set s.store i j _ no_pair (omega (arith, valid.size, valid.bounded))

  renewed_key : (j : ℕ) → key_at renewed j ≡ key_at s j
  renewed_key j = elim (ℕ_discrete i j) [
    | yes e ↦ ground (arith, renewed_at j)
    | no ne ↦ ground (arith, renewed_at j)
  ]

  renewed_value : (j : ℕ) → i ≢ j → value_at renewed j ≡ value_at s j
  renewed_value j ne = ground (arith, renewed_at j)

  renewed_value_here : value_at renewed i ≡ some v
  renewed_value_here = ground (arith, renewed_at i)

  renewed_others : (j : ℤ) (r : Option Text) → j ≢ k → Sees s j r → Sees renewed j r
  renewed_others j none ne all = λ m m_lt e. all m m_lt (sym (renewed_key m) ∙ e)
  renewed_others j (some w) ne (m, m_lt, e, held) =
      let other : i ≢ m = λ same. ne (sym e ∙ ap (key_at s) (sym same) ∙ at) in
      (m, m_lt, renewed_key m ∙ e, renewed_value m other ∙ held)

  renewed_stored : (j : ℕ) → j < s.kv_count → value_at renewed j ≢ none
  renewed_stored j j_lt = elim (ℕ_discrete i j) [
    | yes e ↦ λ h. cc (h, ap (value_at renewed) e, renewed_value_here)
    | no ne ↦ λ h. valid.stored j j_lt (sym (renewed_value j ne) ∙ h)
  ]

  pub renewed-Updated : Updated s k (some v) renewed
  renewed-Updated = record {
    valid = record {
      size = length-set s.store i _ ∙ valid.size;
      bounded = valid.bounded;
      distinct = λ a b la lb e. valid.distinct a b la lb (sym (renewed_key a) ∙ e ∙ renewed_key b);
      stored = renewed_stored;
    };
    here = (i, lt, renewed_key i ∙ at, renewed_value_here);
    others = renewed_others;
  }

-- `delete` moves the last pair to the place of the deleted one.
module _ {s : Store} (valid : IsValid s) (k : ℤ) (i : ℕ) (lt : i < s.kv_count)
    (at : key_at s i ≡ k) where
  abbrev pub last : ℕ
  last = s.kv_count - 1

  abbrev pub shrunk : Store
  shrunk = record { store = set s.store i (get_or s.store last no_pair); kv_count = last }

  -- Where the pair stood that now stands at `j`.
  abbrev origin : ℕ → ℕ
  origin j = if i == j then last else j

  shrunk_at : (j : ℕ) → get_or shrunk.store j no_pair ≡ get_or s.store (origin j) no_pair
  shrunk_at j =
      let e =
        get_or-set s.store i j (get_or s.store last no_pair) no_pair
          (omega (arith, valid.size, valid.bounded)) in
      elim (ℕ_discrete i j) [ yes same ↦ ground (arith, e) | no ne ↦ ground (arith, e) ]

  shrunk_key : (j : ℕ) → key_at shrunk j ≡ key_at s (origin j)
  shrunk_key j = ap (λ (e : KvPair). e.key) (shrunk_at j)

  shrunk_value : (j : ℕ) → value_at shrunk j ≡ value_at s (origin j)
  shrunk_value j = ap (λ (e : KvPair). e.value) (shrunk_at j)

  origin_lt : (j : ℕ) → j < last → origin j < s.kv_count
  origin_lt j h = ground arith

  origin_ne : (j : ℕ) → j < last → origin j ≢ i
  origin_ne j h = ground arith

  origin_inj : (a b : ℕ) → a < last → b < last → origin a ≡ origin b → a ≡ b
  origin_inj a b la lb e = ground arith

  -- Every pair but the deleted one still stands somewhere.
  place_of : (m : ℕ) → m < s.kv_count → m ≢ i → (j : ℕ) × (j < last) × (origin j ≡ m)
  place_of m m_lt ne = elim (ℕ_discrete m last) [
    | yes e ↦ (i, omega arith, ground arith)
    | no other ↦ (m, omega arith, ground arith)
  ]

  shrunk_others : (j : ℤ) (r : Option Text) → j ≢ k → Sees s j r → Sees shrunk j r
  shrunk_others j none ne all =
      λ m m_lt e. all (origin m) (origin_lt m m_lt) (sym (shrunk_key m) ∙ e)
  shrunk_others j (some w) ne (m, m_lt, e, held) =
      let other : m ≢ i = λ same. ne (sym e ∙ ap (key_at s) same ∙ at) in
      let (p, p_lt, from) = place_of m m_lt other in
      (p, p_lt, shrunk_key p ∙ ap (key_at s) from ∙ e, shrunk_value p ∙ ap (value_at s) from ∙ held)

  pub shrunk-Updated : Updated s k none shrunk
  shrunk-Updated = record {
    valid = record {
      size = length-set s.store i _ ∙ valid.size;
      bounded = omega (arith, valid.bounded);
      distinct = λ a b la lb e. origin_inj a b la lb (
          valid.distinct (origin a) (origin b) (origin_lt a la) (origin_lt b lb)
            (sym (shrunk_key a) ∙ e ∙ shrunk_key b));
      stored = λ j j_lt h. valid.stored (origin j) (origin_lt j j_lt) (sym (shrunk_value j) ∙ h);
    };
    here = λ j j_lt e.
        origin_ne j j_lt
          (valid.distinct (origin j) i (origin_lt j j_lt) lt (sym (shrunk_key j) ∙ e ∙ sym at));
    others = shrunk_others;
  }
