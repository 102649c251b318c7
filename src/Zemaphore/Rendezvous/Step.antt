-- ===== src/Zemaphore/Rendezvous/Step.antt =====
-- The steps of the threads of pthreads-sync-code/zemaphore/test-zem.c.
use os333_iit_bombay_labs.Prelude.{
  ℕ, ◌+◌, ◌≤◌, ◌<◌, ◌≡◌, ◌⊎◌, inl, inr, refl, ap, length, get_or, set, arith, Bool-cases,
  length-set,
}
use os333_iit_bombay_labs.Prelude.Int.{not_positive}
use os333_iit_bombay_labs.Threads.{tally, tally-set, tally_ge, tally_le}
use os333_iit_bombay_labs.Zemaphore.{zem_down, zem_resume, zem_up}
use os333_iit_bombay_labs.Zemaphore.Toggle.{
  Place, at_down, in_wait, signalled, at_print, at_up, returned,
}
use os333_iit_bombay_labs.Zemaphore.Rendezvous.{
  Stage, first_line, up_one, down_one, wait_one, called_one, line_one, up_two, down_two, wait_two,
  called_two, line_two, joins, Rendezvous, called, justprint,
}
use os333_iit_bombay_labs.Zemaphore.Rendezvous.Counts.{finished, went_in}
use os333_iit_bombay_labs.Zemaphore.Rendezvous.Counts.Moves.{
  passes-Counts, sleeps-Counts, resumes-Counts, prints-Counts, ends-Counts,
}
use os333_iit_bombay_labs.Zemaphore.Rendezvous.State.{
  ups, downs, main_waits, main_called, said, IsValid, silent-Spoken, prints-Spoken, more-IsText,
}

-- The steps that are left.
abbrev pub left_at : Place → ℕ
left_at at_down = 5
left_at in_wait = 4
left_at signalled = 3
left_at at_print = 2
left_at at_up = 1
left_at returned = 0

abbrev pub main_left : Stage → ℕ
main_left first_line = 11
main_left up_one = 10
main_left down_one = 9
main_left wait_one = 8
main_left called_one = 7
main_left line_one = 6
main_left up_two = 5
main_left down_two = 4
main_left wait_two = 3
main_left called_two = 2
main_left line_two = 1
main_left joins = 0

abbrev pub all_left : Rendezvous → ℕ
all_left s = tally left_at s.threads + main_left s.main

-- `called` leaves what is said and counted, and ends a wait.
called_lem :
    (m : Stage)
    → (ups (called m) ≡ ups m)
      × (downs (called m) ≡ downs m)
      × (said (called m) ≡ said m)
      × (main_waits (called m) ≡ 0)
      × (main_called (called m) ≤ 1)
      × (main_left (called m) ≤ main_left m)
called_lem first_line = (refl, refl, refl, refl, omega arith, omega arith)
called_lem up_one = (refl, refl, refl, refl, omega arith, omega arith)
called_lem down_one = (refl, refl, refl, refl, omega arith, omega arith)
called_lem wait_one = (refl, refl, refl, refl, omega arith, omega arith)
called_lem called_one = (refl, refl, refl, refl, omega arith, omega arith)
called_lem line_one = (refl, refl, refl, refl, omega arith, omega arith)
called_lem up_two = (refl, refl, refl, refl, omega arith, omega arith)
called_lem down_two = (refl, refl, refl, refl, omega arith, omega arith)
called_lem wait_two = (refl, refl, refl, refl, omega arith, omega arith)
called_lem called_two = (refl, refl, refl, refl, omega arith, omega arith)
called_lem line_two = (refl, refl, refl, refl, omega arith, omega arith)
called_lem joins = (refl, refl, refl, refl, omega arith, omega arith)

said_lem : (m : Stage) → ((said m ≡ 1) ⊎ (said m ≡ 2)) ⊎ ((ups m ≡ 0) ⊎ (downs m ≡ 2))
said_lem first_line = inr (inl refl)
said_lem up_one = inl (inl refl)
said_lem down_one = inl (inl refl)
said_lem wait_one = inl (inl refl)
said_lem called_one = inl (inl refl)
said_lem line_one = inl (inl refl)
said_lem up_two = inl (inr refl)
said_lem down_two = inl (inr refl)
said_lem wait_two = inl (inr refl)
said_lem called_two = inl (inr refl)
said_lem line_two = inl (inr refl)
said_lem joins = inr (inr refl)

finished_le : (p : Place) → finished p ≤ 1
finished_le at_down = omega arith
finished_le in_wait = omega arith
finished_le signalled = omega arith
finished_le at_print = omega arith
finished_le at_up = omega arith
finished_le returned = omega arith

-- What a step does: nothing, where its thread waits or has ended, or a valid state nearer to the end.
abbrev pub Onward : Rendezvous → Rendezvous → Type 0 → Type 0
Onward s s' B = IsValid s' × (((s' ≡ s) × B) ⊎ (all_left s' < all_left s))

module _ (s : Rendezvous) (v : IsValid s) (i : ℕ) (less : i < length s.threads) where
  -- Where a thread prints, `main` has printed its first line and not its last.
  may_print : get_or s.threads i returned ≡ at_print → (said s.main ≡ 1) ⊎ (said s.main ≡ 2)
  may_print e = elim (said_lem s.main) [
    | inl fine ↦ fine
    | inr (inl early) ↦
        let inside = ap went_in e in
        let one = tally_ge returned went_in s.threads i less in
        elim v.counts.not_early [
          | inl later ↦ absurd (omega (arith, early, later))
          | inr nobody ↦ absurd (omega (arith, nobody, inside, one))
        ]
    | inr (inr late) ↦
        let here = ap finished e in
        let sum = tally-set returned finished s.threads i returned less in
        let most = tally_le finished finished_le (set s.threads i returned) in
        let size = length-set s.threads i returned in
        absurd (omega (arith, late, here, sum, most, size, v.counts.two, v.counts.main_behind))
  ]

  fewer :
      (p q : Place)
      → get_or s.threads i returned ≡ p
      → left_at q < left_at p
      → tally left_at (set s.threads i q) < tally left_at s.threads
  fewer p q e h = omega (arith, h, ap left_at e, tally-set returned left_at s.threads i q less)

  abbrev Waits : Type 0
  Waits = (get_or s.threads i returned ≡ in_wait) ⊎ (get_or s.threads i returned ≡ returned)

  pub justprint-Onward :
      (place : Place) → get_or s.threads i returned ≡ place → Onward s (justprint i place s) Waits
  unfolding justprint zem_down zem_resume zem_up
  justprint-Onward at_down e = elim (Bool-cases (not_positive s.child.count)) [
    | inl closed ↦
        rw (closed, justprint)
          (
            record {
              counts = sleeps-Counts _ _ s.threads _ _ _ _ v.counts i less e closed;
              spoken = silent-Spoken s.printed s.threads _ v.spoken i less at_down in_wait e refl;
            },
            inr (omega (arith, fewer at_down in_wait e (omega arith))),
          )
    | inr positive ↦
        rw (positive, justprint)
          (
            record {
              counts = passes-Counts _ _ s.threads _ _ _ _ v.counts i less e positive;
              spoken = silent-Spoken s.printed s.threads _ v.spoken i less at_down at_print e refl;
            },
            inr (omega (arith, fewer at_down at_print e (omega arith))),
          )
  ]
  justprint-Onward in_wait e = (v, inl (refl, inl e))
  justprint-Onward signalled e = (
    record {
      counts = resumes-Counts _ _ s.threads _ _ _ _ v.counts i less e;
      spoken = silent-Spoken s.printed s.threads _ v.spoken i less signalled at_print e refl;
    },
    inr (omega (arith, fewer signalled at_print e (omega arith))),
  )
  justprint-Onward at_print e = (
    record {
      counts = prints-Counts _ _ s.threads _ _ _ _ v.counts i less e;
      spoken =
          prints-Spoken s.printed s.threads _ v.spoken i less e
            (more-IsText (said s.main) (i + 1) s.printed v.spoken.ids (may_print e) v.spoken.text);
    },
    inr (omega (arith, fewer at_print at_up e (omega arith))),
  )
  justprint-Onward at_up e =
      let (same_ups, same_downs, same_said, no_wait, once, nearer) = called_lem s.main in
      (
        record {
          counts =
              rw (same_ups, same_downs, no_wait)
                (ends-Counts _ _ s.threads _ _ _ _ v.counts i less (main_called (called s.main))
                  once e);
          spoken =
              rw (same_said)
                (silent-Spoken s.printed s.threads _ v.spoken i less at_up returned e refl);
        },
        inr (omega (arith, nearer, fewer at_up returned e (omega arith))),
      )
  justprint-Onward returned e = (v, inl (refl, inr e))
