-- ===== src/Barber/Wakes/Invariant.antt =====
-- What holds of the salon of Barber/Wakes between critical sections.
use mathlib.Core.Path.{subst}
use os333_iit_bombay_labs.Prelude.{
  ℕ, ◌+◌, ◌-◌, ◌≤◌, ◌<◌, ◌≡◌, ◌≢◌, refl, sym, ap, ◌∙◌, inl, inr, true, false, length, get_or, set,
  ltb, ◌==◌, if◌then◌else◌, arith, Bool-cases, dec_lt, length-set, get_or-set_self, get_or-set_ne,
  get_or-inside,
}
use os333_iit_bombay_labs.Threads.{tally, tally-set, tally_zero}
use os333_iit_bombay_labs.Threads.Signal.{signal-Signalled}
use os333_iit_bombay_labs.Barber.{max_customers, chairs}
use os333_iit_bombay_labs.Barber.Wakes.{
  Guest, coming, seated, called, served, turned_away, Barber, at_lock, asleep, woken, Salon,
  open_salon, is_seated, rouse_barber, cut, barber_turn, arrive, guest_turn,
}

abbrev pub count_seated : Guest → ℕ
count_seated g = if is_seated g then 1 else 0

abbrev pub count_coming : Guest → ℕ
count_coming coming = 1
count_coming seated = 0
count_coming called = 0
count_coming served = 0
count_coming turned_away = 0

abbrev pub count_called : Guest → ℕ
count_called coming = 0
count_called seated = 0
count_called called = 1
count_called served = 0
count_called turned_away = 0

abbrev pub count_served : Guest → ℕ
count_served coming = 0
count_served seated = 0
count_served called = 0
count_served served = 1
count_served turned_away = 0

-- While the barber sleeps nobody waits.
abbrev pub Idle : Barber → ℕ → Type 0
Idle at_lock n = Unit
Idle asleep n = n ≡ 0
Idle woken n = Unit

pub record IsValid (s : Salon) : Type 0 where
  pub all_guests : length s.guests ≡ max_customers
  pub bounded : s.waiting_customers ≤ chairs
  pub waiting : tally count_seated s.guests ≡ s.waiting_customers
  pub haircuts : tally count_called s.guests + tally count_served s.guests ≡ s.cuts
  pub idle : Idle s.barber_at s.waiting_customers

pub open_salon-IsValid : IsValid open_salon
unfolding open_salon
open_salon-IsValid = record {
  all_guests = refl;
  bounded = omega arith;
  waiting = refl;
  haircuts = refl;
  idle = tt;
}

Idle-rouse_barber : (b : Barber) (n : ℕ) → Idle (rouse_barber b) n
Idle-rouse_barber at_lock n = tt
Idle-rouse_barber asleep n = tt
Idle-rouse_barber woken n = tt

seated_is : (g : Guest) → is_seated g ≡ true → g ≡ seated
seated_is seated h = refl
seated_is coming h = absurd (ground (arith, h))
seated_is called h = absurd (ground (arith, h))
seated_is served h = absurd (ground (arith, h))
seated_is turned_away h = absurd (ground (arith, h))

-- The barber cuts for one more, whom he calls.
pub cut_some :
    (k : ℕ) (s : Salon)
    → IsValid s
    → 0 < s.waiting_customers
    → IsValid (cut k s)
      × ((cut k s).waiting_customers + 1 ≡ s.waiting_customers)
      × (tally count_coming (cut k s).guests ≡ tally count_coming s.guests)
unfolding cut
cut_some k s v some_waiting =
    let test : (s.waiting_customers == 0) ≡ false = ground arith in
    elim (signal-Signalled is_seated called served refl k s.guests) [
      | inl (nobody, same) ↦
          let none_seated = tally_zero served count_seated s.guests (λ i. rw (nobody i) refl) in
          absurd (omega (arith, v.waiting, none_seated))
      | inr (i, less, waits, same) ↦
          let was = seated_is (get_or s.guests i served) waits in
          let seats = tally-set served count_seated s.guests i called less in
          let calls = tally-set served count_called s.guests i called less in
          let serves = tally-set served count_served s.guests i called less in
          let comes = tally-set served count_coming s.guests i called less in
          rw (test, same)
            (
              record {
                all_guests = length-set s.guests i called ∙ v.all_guests;
                bounded = omega (arith, v.bounded);
                waiting = omega (arith, v.waiting, seats, ap count_seated was);
                haircuts =
                    omega
                      (arith, v.haircuts, calls, serves, ap count_called was, ap count_served was);
                idle = tt;
              },
              omega arith,
              omega (arith, comes, ap count_coming was),
            )
    ]

pub cut_none :
    (k : ℕ) (s : Salon)
    → IsValid s
    → s.waiting_customers ≡ 0
    → cut k s ≡ record s { barber_at = asleep }
unfolding cut
cut_none k s v none_waiting =
    let test : (s.waiting_customers == 0) ≡ true = ground arith in rw (test) refl

pub barber_turn-IsValid :
    (k : ℕ) (s : Salon)
    → IsValid s
    → IsValid (barber_turn k s)
      × ((barber_turn k s).waiting_customers ≡ s.waiting_customers - 1)
      × (tally count_coming (barber_turn k s).guests ≡ tally count_coming s.guests)
unfolding barber_turn cut
barber_turn-IsValid k s v = by_place s.barber_at refl
  where
    cuts :
        IsValid (cut k s)
        × ((cut k s).waiting_customers ≡ s.waiting_customers - 1)
        × (tally count_coming (cut k s).guests ≡ tally count_coming s.guests)
    cuts = elim (dec_lt 0 s.waiting_customers) [
      | yes some_waiting ↦
          let (w, fewer, same) = cut_some k s v some_waiting in (w, omega (arith, fewer), same)
      | no empty ↦
          let nobody : s.waiting_customers ≡ 0 = omega arith in
          rw (cut_none k s v nobody) (
            record {
              all_guests = v.all_guests;
              bounded = v.bounded;
              waiting = v.waiting;
              haircuts = v.haircuts;
              idle = nobody;
            },
            omega arith,
            refl,
          )
    ]

    by_place :
        (b : Barber)
        → s.barber_at ≡ b
        → IsValid (barber_turn k s)
          × ((barber_turn k s).waiting_customers ≡ s.waiting_customers - 1)
          × (tally count_coming (barber_turn k s).guests ≡ tally count_coming s.guests)
    by_place at_lock e = rw (barber_turn, e) cuts
    by_place woken e = rw (barber_turn, e) cuts
    by_place asleep e =
        let nobody : s.waiting_customers ≡ 0 = subst (λ b. Idle b s.waiting_customers) e v.idle in
        rw (barber_turn, e) (v, omega (arith, nobody), refl)

-- A guest at index `id` becomes `g`.
abbrev with_guest : Salon → ℕ → Guest → ℕ → Barber → Salon
with_guest s id g n b = record s {
  waiting_customers = n;
  barber_at = b;
  guests = set s.guests id g;
}

moved :
    (s : Salon) (id : ℕ) (f g : Guest) (n : ℕ) (b : Barber)
    → IsValid s
    → get_or s.guests id served ≡ f
    → served ≢ f
    → n ≤ chairs
    → n + count_seated f ≡ s.waiting_customers + count_seated g
    → count_called g + count_served g ≡ count_called f + count_served f
    → Idle b n
    → IsValid (with_guest s id g n b)
moved s id f g n b v e ne fits seats cuts idle =
    let less = get_or-inside s.guests id served f e ne in
    record {
      all_guests = length-set s.guests id g ∙ v.all_guests;
      bounded = fits;
      waiting = omega (
        arith,
        v.waiting,
        seats,
        tally-set served count_seated s.guests id g less,
        ap count_seated e,
      );
      haircuts = omega (
        arith,
        v.haircuts,
        cuts,
        tally-set served count_called s.guests id g less,
        tally-set served count_served s.guests id g less,
        ap count_called e,
        ap count_served e,
      );
      idle = idle;
    }

-- What a guest becomes at its turn, and that the others stay as they are.
pub record GuestMove (s s' : Salon) (id : ℕ) : Type 0 where
  pub valid : IsValid s'
  pub others : (j : ℕ) → id ≢ j → get_or s'.guests j served ≡ get_or s.guests j served
  pub arrived : count_coming (get_or s'.guests id served) ≡ 0
  pub finished :
      count_coming (get_or s.guests id served) + count_seated (get_or s.guests id served) ≡ 0
      → count_seated (get_or s'.guests id served) + count_called (get_or s'.guests id served) ≡ 0

guest_moves :
    (s : Salon) (id : ℕ) (f g : Guest) (n : ℕ) (b : Barber)
    → IsValid (with_guest s id g n b)
    → get_or s.guests id served ≡ f
    → served ≢ f
    → count_coming g ≡ 0
    → (count_coming f + count_seated f ≡ 0 → count_seated g + count_called g ≡ 0)
    → GuestMove s (with_guest s id g n b) id
guest_moves s id f g n b w e ne here done =
    let less = get_or-inside s.guests id served f e ne in
    let now = get_or-set_self s.guests id g served less in
    record {
      valid = w;
      others = λ j other. get_or-set_ne s.guests id j g served other;
      arrived = ap count_coming now ∙ here;
      finished = λ h.
          ap (λ (x : Guest). count_seated x + count_called x) now
          ∙ done (ap (λ (x : Guest). count_coming x + count_seated x) (sym e) ∙ h);
    }

stands :
    (s : Salon) (id : ℕ) (f : Guest)
    → IsValid s
    → get_or s.guests id served ≡ f
    → count_coming f ≡ 0
    → count_called f ≡ 0
    → GuestMove s s id
stands s id f v e here quiet = record {
  valid = v;
  others = λ j other. refl;
  arrived = ap count_coming e ∙ here;
  finished = λ h. omega (arith, h, quiet, ap count_called e);
}

pub guest_turn_lem : (id : ℕ) (s : Salon) → IsValid s → GuestMove s (guest_turn id s) id
unfolding guest_turn arrive
guest_turn_lem id s v = by_place (get_or s.guests id served) refl
  where
    by_place : (f : Guest) → get_or s.guests id served ≡ f → GuestMove s (guest_turn id s) id
    by_place seated e = rw (e, guest_turn) (stands s id seated v e refl refl)
    by_place served e = rw (e, guest_turn) (stands s id served v e refl refl)
    by_place turned_away e = rw (e, guest_turn) (stands s id turned_away v e refl refl)
    by_place called e =
        let ne : served ≢ called = λ q. ground (arith, q) in
        rw (e, guest_turn)
          (guest_moves s id called served s.waiting_customers s.barber_at
            (moved s id called served s.waiting_customers s.barber_at v e ne v.bounded refl refl
              v.idle)
            e ne refl (λ h. refl))
    by_place coming e =
        let ne : served ≢ coming = λ q. ground (arith, q) in
        let n = s.waiting_customers in
        elim (Bool-cases (ltb n chairs)) [
          | inl free ↦
              rw (e, guest_turn, free)
                (guest_moves s id coming seated (n + 1) (rouse_barber s.barber_at)
                  (moved s id coming seated (n + 1) (rouse_barber s.barber_at) v e ne (ground arith)
                    (omega arith) refl (Idle-rouse_barber s.barber_at (n + 1)))
                  e ne refl (λ h. omega (arith, h)))
          | inr full ↦
              rw (e, guest_turn, full)
                (guest_moves s id coming turned_away n s.barber_at
                  (moved s id coming turned_away n s.barber_at v e ne v.bounded refl refl v.idle) e
                  ne refl (λ h. refl))
        ]
