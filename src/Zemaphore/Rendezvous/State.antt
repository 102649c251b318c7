-- ===== src/Zemaphore/Rendezvous/State.antt =====
-- The invariant of pthreads-sync-code/zemaphore/test-zem.c.
use mathlib.Core.List.{append_assoc, map-append}
use os333_iit_bombay_labs.Prelude.{
  ℕ, zero, suc, ◌+◌, ◌≤◌, ◌<◌, ◌≡◌, ◌⊎◌, inl, inr, refl, ap, ◌∙◌, sym, List, [], ◌∷◌, ◌++◌, map,
  length, get_or, set, arith, ◌==◌, Bool-cases, length-append, get_or-set,
}
use os333_iit_bombay_labs.Threads.{tally, tally-set, occurs, occurs-append}
use os333_iit_bombay_labs.Zemaphore.{zem_init}
use os333_iit_bombay_labs.Zemaphore.Toggle.{Place, at_down, at_print, at_up, returned}
use os333_iit_bombay_labs.Zemaphore.Rendezvous.{
  Stage, first_line, up_one, down_one, wait_one, called_one, line_one, up_two, down_two, wait_two,
  called_two, line_two, joins, Line, main_first, this_is, one_printed, second_printed, Rendezvous,
  start,
}
use os333_iit_bombay_labs.Zemaphore.Rendezvous.Counts.{shown, Counts}

-- What `main` has done when it gets to a stage.
abbrev pub ups : Stage → ℕ
ups first_line = 0
ups up_one = 0
ups down_one = 1
ups wait_one = 1
ups called_one = 1
ups line_one = 1
ups up_two = 1
ups down_two = 2
ups wait_two = 2
ups called_two = 2
ups line_two = 2
ups joins = 2

abbrev pub downs : Stage → ℕ
downs first_line = 0
downs up_one = 0
downs down_one = 0
downs wait_one = 0
downs called_one = 0
downs line_one = 1
downs up_two = 1
downs down_two = 1
downs wait_two = 1
downs called_two = 1
downs line_two = 2
downs joins = 2

abbrev pub main_waits : Stage → ℕ
main_waits first_line = 0
main_waits up_one = 0
main_waits down_one = 0
main_waits wait_one = 1
main_waits called_one = 0
main_waits line_one = 0
main_waits up_two = 0
main_waits down_two = 0
main_waits wait_two = 1
main_waits called_two = 0
main_waits line_two = 0
main_waits joins = 0

abbrev pub main_called : Stage → ℕ
main_called first_line = 0
main_called up_one = 0
main_called down_one = 0
main_called wait_one = 0
main_called called_one = 1
main_called line_one = 0
main_called up_two = 0
main_called down_two = 0
main_called wait_two = 0
main_called called_two = 1
main_called line_two = 0
main_called joins = 0

-- The lines that `main` has printed.
abbrev pub said : Stage → ℕ
said first_line = 0
said up_one = 1
said down_one = 1
said wait_one = 1
said called_one = 1
said line_one = 1
said up_two = 2
said down_two = 2
said wait_two = 2
said called_two = 2
said line_two = 2
said joins = 3

-- The lines, where `before` and `behind` are the threads that have printed before the second line of `main` and behind it.
abbrev pub in_full : List ℕ → List ℕ → List Line
in_full before behind = main_first ∷ map this_is before ++ one_printed ∷ map this_is behind

abbrev pub IsText : ℕ → List Line → List ℕ → Type 0
IsText zero lines ids = (lines ≡ []) × (ids ≡ [])
IsText (suc zero) lines ids = lines ≡ main_first ∷ map this_is ids
IsText (suc (suc zero)) lines ids =
    (before : List ℕ) × (behind : List ℕ) × (lines ≡ in_full before behind)
    × (ids ≡ before ++ behind)
    × (1 ≤ length before)
IsText (suc (suc (suc n))) lines ids =
    (before : List ℕ) × (behind : List ℕ) × (lines ≡ in_full before behind ++ second_printed ∷ [])
    × (ids ≡ before ++ behind)
    × (1 ≤ length before)

pub record Spoken (lines : List Line) (threads : List Place) (n : ℕ) : Type 0 where
  pub ids : List ℕ
  pub text : IsText n lines ids
  pub each : (i : ℕ) → occurs (i + 1) ids ≡ shown (get_or threads i at_down)
  pub everyone : length ids ≡ tally shown threads

pub record IsValid (s : Rendezvous) : Type 0 where
  pub counts :
      Counts s.child.count s.parent.count s.threads
        (ups s.main)
        (downs s.main)
        (main_waits s.main)
        (main_called s.main)
  pub spoken : Spoken s.printed s.threads (said s.main)

at_first : (i : ℕ) → get_or (at_down ∷ at_down ∷ []) i at_down ≡ at_down
at_first zero = refl
at_first (suc zero) = refl
at_first (suc (suc i)) = refl

pub start-IsValid : IsValid start
unfolding start zem_init
start-IsValid = record {
  counts = record {
    two = refl;
    child_count = refl;
    parent_count = refl;
    child_woken = inl refl;
    main_woken = inl refl;
    main_behind = omega arith;
    not_early = inr refl;
  };
  spoken = record {
    ids = [];
    text = (refl, refl);
    each = λ i. sym (ap shown (at_first i));
    everyone = refl;
  };
}

get_or-default :
    {A : Type 0} (xs : List A) (i : ℕ) (d d' : A) → i < length xs → get_or xs i d ≡ get_or xs i d'
get_or-default [] i d d' h = absurd (omega arith)
get_or-default (x ∷ xs) zero d d' h = refl
get_or-default (x ∷ xs) (suc i) d d' h = get_or-default xs i d d' (omega arith)

module _ (lines : List Line) (threads : List Place) (n : ℕ) (t : Spoken lines threads n) (i : ℕ)
    (less : i < length threads) where
  -- A thread moves and prints nothing.
  pub silent-Spoken :
      (p q : Place)
      → get_or threads i returned ≡ p
      → shown q ≡ shown p
      → Spoken lines (set threads i q) n
  silent-Spoken p q e same =
      let old = ap shown (get_or-default threads i at_down returned less ∙ e) in
      let sum = tally-set at_down shown threads i q less in
      record {
        ids = t.ids;
        text = t.text;
        each = λ j. elim (Bool-cases (i == j)) [
          | inl here ↦
              let equal : i ≡ j = ground arith in
              rw (get_or-set threads i j q at_down less, here)
                (t.each j ∙ ap (λ k. shown (get_or threads k at_down)) (sym equal) ∙ old ∙ sym same)
          | inr other ↦ rw (get_or-set threads i j q at_down less, other) (t.each j)
        ];
        everyone = omega (arith, t.everyone, old, sum, same);
      }

  -- A thread prints its line.
  pub prints-Spoken :
      get_or threads i returned ≡ at_print
      → IsText n (lines ++ this_is (i + 1) ∷ []) (t.ids ++ (i + 1) ∷ [])
      → Spoken (lines ++ this_is (i + 1) ∷ []) (set threads i at_up) n
  prints-Spoken e text =
      let old = ap shown (get_or-default threads i at_down returned less ∙ e) in
      let sum = tally-set at_down shown threads i at_up less in
      record {
        ids = t.ids ++ (i + 1) ∷ [];
        text = text;
        each = λ j. elim (Bool-cases (i == j)) [
          | inl here ↦
              let equal : i ≡ j = ground arith in
              let now : occurs (j + 1) ((i + 1) ∷ []) ≡ 1 = ground arith in
              let before : occurs (j + 1) t.ids ≡ 0 =
                t.each j ∙ ap (λ k. shown (get_or threads k at_down)) (sym equal) ∙ old in
              rw (get_or-set threads i j at_up at_down less, here)
                (omega (arith, before, now, occurs-append (j + 1) t.ids ((i + 1) ∷ [])))
          | inr other ↦
              let now : occurs (j + 1) ((i + 1) ∷ []) ≡ 0 = ground arith in
              rw (get_or-set threads i j at_up at_down less, other)
                (omega (arith, t.each j, now, occurs-append (j + 1) t.ids ((i + 1) ∷ [])))
        ];
        everyone = omega (arith, t.everyone, old, sum, length-append t.ids ((i + 1) ∷ []));
      }

full_append :
    (before behind : List ℕ) (x : ℕ)
    → in_full before behind ++ this_is x ∷ [] ≡ in_full before (behind ++ x ∷ [])
full_append before behind x =
    ap (λ (l : List Line). main_first ∷ l)
      (append_assoc (map this_is before) (one_printed ∷ map this_is behind) (this_is x ∷ [])
        ∙ ap (λ (l : List Line). map this_is before ++ one_printed ∷ l)
            (sym (map-append this_is behind (x ∷ []))))

-- A thread's line behind the others.
pub more-IsText :
    (n x : ℕ) (lines : List Line) (ids : List ℕ)
    → (n ≡ 1) ⊎ (n ≡ 2)
    → IsText n lines ids
    → IsText n (lines ++ this_is x ∷ []) (ids ++ x ∷ [])
more-IsText zero x lines ids h t = absurd (ground (arith, h))
more-IsText (suc zero) x lines ids h t =
    ap (λ (l : List Line). l ++ this_is x ∷ []) t
    ∙ ap (λ (l : List Line). main_first ∷ l) (sym (map-append this_is ids (x ∷ [])))
more-IsText (suc (suc zero)) x lines ids h (before, behind, e, k, some) = (
  before,
  behind ++ x ∷ [],
  ap (λ (l : List Line). l ++ this_is x ∷ []) e ∙ full_append before behind x,
  ap (λ (l : List ℕ). l ++ x ∷ []) k ∙ append_assoc before behind (x ∷ []),
  some,
)
more-IsText (suc (suc (suc n))) x lines ids h t = absurd (ground (arith, h))
