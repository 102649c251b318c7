-- ===== src/MasterWorker/Signals/Pair.antt =====
-- One master and one worker (MasterWorker/Signals): what holds between critical sections, and what those of the master lower.
use os333_iit_bombay_labs.Prelude.{
  ℕ, zero, suc, ◌+◌, ◌*◌, ◌-◌, ◌≤◌, ◌<◌, ◌≡◌, refl, Bool, true, false, Option, some, [], ◌∷◌, ltb,
  leb, ◌>>=◌, arith, dec_lt,
}
use os333_iit_bombay_labs.MasterWorker.{Config, Shared, generate_requests_loop, wait_or_produce}
use os333_iit_bombay_labs.MasterWorker.Section.{Holds, produced_one, produce_lem}
use os333_iit_bombay_labs.MasterWorker.Signals.{
  Place, at_lock, in_wait, signalled, returned, Crew, signal, generated, generate,
}

abbrev pub pair : Shared → Place → Place → Crew
pair s m w = record { shared = s; masters = m ∷ []; workers = w ∷ [] }

abbrev pub woken : Place → Place
woken in_wait = signalled
woken p = p

pub signal_one : (i : ℕ) (p : Place) → signal i (p ∷ []) ≡ woken p ∷ []
unfolding signal
signal_one zero at_lock = refl
signal_one zero in_wait = refl
signal_one zero signalled = refl
signal_one zero returned = refl
signal_one (suc i) at_lock = refl
signal_one (suc i) in_wait = refl
signal_one (suc i) signalled = refl
signal_one (suc i) returned = refl

-- What the place of a thread says of the globals.
abbrev pub OfMaster : Config → Shared → Place → Type 0
OfMaster c s at_lock = s.item_to_produce ≤ c.total_items
OfMaster c s in_wait = (s.item_to_produce < c.total_items) × (c.max_buf_size ≤ s.curr_buf_size)
OfMaster c s signalled = s.item_to_produce < c.total_items
OfMaster c s returned = s.item_to_produce ≡ c.total_items

abbrev pub OfWorker : Config → Shared → Place → Type 0
OfWorker c s at_lock = Unit
OfWorker c s in_wait = (s.item_to_produce < c.total_items) × (s.curr_buf_size ≡ 0)
OfWorker c s signalled = Unit
OfWorker c s returned = (c.total_items ≤ s.item_to_produce) × (s.curr_buf_size ≡ 0)

pub record IsValid (c : Config) (s : Shared) (m w : Place) : Type 0 where
  pub holds : Holds c s
  pub of_master : OfMaster c s m
  pub of_worker : OfWorker c s w

abbrev pub rank : Place → ℕ
rank at_lock = 2
rank in_wait = 1
rank signalled = 3
rank returned = 0

-- What is left to do.
abbrev pub left : Config → Shared → Place → Place → ℕ
left c s m w = 6 * (c.total_items - s.item_to_produce) + 3 * s.curr_buf_size + rank m + rank w

-- A valid state with at most `n` left to do.
abbrev pub Leaves : Config → ℕ → Option Crew → Type 0
Leaves c n o =
    (s : Shared) × (m : Place) × (w : Place) × (o ≡ some (pair s m w))
    × IsValid c s m w
    × (left c s m w ≤ n)

abbrev pub is_awake : Place → Bool
is_awake at_lock = true
is_awake in_wait = false
is_awake signalled = true
is_awake returned = false

pub rank-woken : (p : Place) → rank (woken p) ≤ rank p + 2
rank-woken at_lock = omega arith
rank-woken in_wait = omega arith
rank-woken signalled = omega arith
rank-woken returned = omega arith

module _ (c : Config) where
  OfWorker-produced :
      (s : Shared) (w : Place)
      → s.item_to_produce < c.total_items
      → OfWorker c s w
      → OfWorker c (produced_one c s) (woken w)
  OfWorker-produced s at_lock less h = tt
  OfWorker-produced s in_wait less h = tt
  OfWorker-produced s signalled less h = tt
  OfWorker-produced s returned less h = absurd (omega (arith, h.0))

  -- A master that finds room, and one that does not.
  wait_or_produce-Leaves :
      (k : ℕ) (s : Shared) (m w : Place) (n : ℕ)
      → IsValid c s m w
      → s.item_to_produce < c.total_items
      → 2 ≤ rank m
      → left c s m w ≤ suc n
      → Leaves c n (wait_or_produce c s >>= λ r. some (generated 0 k (pair s m w) r))
  unfolding wait_or_produce
  wait_or_produce-Leaves k s m w n v less high bound =
      elim (dec_lt s.curr_buf_size c.max_buf_size) [
        | yes free ↦
            let free? : leb c.max_buf_size s.curr_buf_size ≡ false = ground arith in
            let more? : ltb s.item_to_produce (s.item_to_produce + 1) ≡ true = ground arith in
            let (e, after) = produce_lem c s v.holds free in
            (
              produced_one c s,
              at_lock,
              woken w,
              rw (free?, e, more?, signal_one k w) refl,
              record {
                holds = after;
                of_master = omega arith;
                of_worker = OfWorker-produced s w less v.of_worker;
              },
              omega (arith, rank-woken w),
            )
        | no full ↦
            let full? : leb c.max_buf_size s.curr_buf_size ≡ true = ground arith in
            let same? : ltb s.item_to_produce s.item_to_produce ≡ false = ground arith in
            (
              s,
              in_wait,
              w,
              rw (full?, same?) refl,
              record { holds = v.holds; of_master = (less, omega arith); of_worker = v.of_worker },
              omega arith,
            )
      ]

  -- Whoever is awake lowers what is left.
  pub generate-Leaves :
      (k : ℕ) (s : Shared) (m w : Place) (n : ℕ)
      → IsValid c s m w
      → is_awake m ≡ true
      → left c s m w ≤ suc n
      → Leaves c n (generate c 0 k (pair s m w))
  unfolding generate generate_requests_loop
  generate-Leaves k s at_lock w n v awake bound = elim (dec_lt s.item_to_produce c.total_items) [
    | yes less ↦
        let less? : leb c.total_items s.item_to_produce ≡ false = ground arith in
        rw (less?) (wait_or_produce-Leaves k s at_lock w n v less (omega arith) bound)
    | no over ↦
        let over? : leb c.total_items s.item_to_produce ≡ true = ground arith in
        let same? : ltb s.item_to_produce s.item_to_produce ≡ false = ground arith in
        (
          s,
          returned,
          w,
          rw (over?, same?) refl,
          record {
            holds = v.holds;
            of_master = omega (arith, v.of_master);
            of_worker = v.of_worker;
          },
          omega arith,
        )
  ]
  generate-Leaves k s signalled w n v awake bound =
      wait_or_produce-Leaves k s signalled w n v v.of_master (omega arith) bound
  generate-Leaves k s in_wait w n v awake bound = absurd (ground (arith, awake))
  generate-Leaves k s returned w n v awake bound = absurd (ground (arith, awake))

  -- Whoever is not leaves all as it is.
  pub generate_rests :
      (k : ℕ) (s : Shared) (m w : Place)
      → is_awake m ≡ false
      → generate c 0 k (pair s m w) ≡ some (pair s m w)
  unfolding generate generate_requests_loop
  generate_rests k s in_wait w asleep = refl
  generate_rests k s returned w asleep =
      let same? : ltb s.item_to_produce s.item_to_produce ≡ false = ground arith in rw (same?) refl
  generate_rests k s at_lock w asleep = absurd (ground (arith, asleep))
  generate_rests k s signalled w asleep = absurd (ground (arith, asleep))
