-- ===== src/Zemaphore/Rendezvous/MainStep.antt =====
-- The steps of `main` of pthreads-sync-code/zemaphore/test-zem.c.
use mathlib.Core.Path.{subst}
use mathlib.Core.List.{append-nil}
use os333_iit_bombay_labs.Prelude.{
  ℕ, ◌+◌, ◌≤◌, ◌<◌, ◌≡◌, ◌⊎◌, inl, inr, refl, ap, ◌∙◌, sym, List, [], ◌∷◌, ◌++◌, map, length,
  get_or, arith, Bool-cases,
}
use os333_iit_bombay_labs.Prelude.Int.{not_positive}
use os333_iit_bombay_labs.Threads.{tally, tally-set}
use os333_iit_bombay_labs.Threads.Signal.{Signalled, signal-Signalled}
use os333_iit_bombay_labs.Zemaphore.{zem_down, zem_resume, zem_up}
use os333_iit_bombay_labs.Zemaphore.Toggle.{
  Place, at_down, in_wait, signalled, at_print, at_up, returned,
}
use os333_iit_bombay_labs.Zemaphore.Rendezvous.{
  Stage, first_line, up_one, down_one, wait_one, called_one, line_one, up_two, down_two, wait_two,
  called_two, line_two, joins, Line, main_first, this_is, one_printed, second_printed, Rendezvous,
  is_waiting, up_child, down_parent, main_step,
}
use os333_iit_bombay_labs.Zemaphore.Rendezvous.Counts.{shown, finished, asleep_lem, Counts}
use os333_iit_bombay_labs.Zemaphore.Rendezvous.Counts.Moves.{
  up-Counts, goes_on-Counts, waits-Counts, called-Counts,
}
use os333_iit_bombay_labs.Zemaphore.Rendezvous.State.{
  ups, downs, main_waits, main_called, said, IsText, Spoken, IsValid, silent-Spoken,
}
use os333_iit_bombay_labs.Zemaphore.Rendezvous.Step.{left_at, main_left, Onward}

finished_shown : (threads : List Place) → tally finished threads ≤ tally shown threads
finished_shown [] = omega arith
finished_shown (at_down ∷ threads) = omega (arith, finished_shown threads)
finished_shown (in_wait ∷ threads) = omega (arith, finished_shown threads)
finished_shown (signalled ∷ threads) = omega (arith, finished_shown threads)
finished_shown (at_print ∷ threads) = omega (arith, finished_shown threads)
finished_shown (at_up ∷ threads) = omega (arith, finished_shown threads)
finished_shown (returned ∷ threads) = omega (arith, finished_shown threads)

-- `main` prints its line.
says-Spoken :
    (lines : List Line) (threads : List Place) (n : ℕ) (line : Line)
    → (t : Spoken lines threads n) → IsText (n + 1) (lines ++ line ∷ []) t.ids
    → Spoken (lines ++ line ∷ []) threads (n + 1)
says-Spoken lines threads n line t text = record {
  ids = t.ids;
  text = text;
  each = t.each;
  everyone = t.everyone;
}

-- A signal moves one thread that waits, or none.
signal_lem :
    (lines : List Line) (threads threads' : List Place) (n : ℕ)
    → Spoken lines threads n
    → Signalled is_waiting signalled returned threads threads'
    → Spoken lines threads' n × (tally left_at threads' ≤ tally left_at threads)
signal_lem lines threads threads' n t sent = elim sent [
  | inl (nobody, same) ↦ rw (same) (t, omega arith)
  | inr (i, less, waiting, same) ↦
      let asleep = asleep_lem (get_or threads i returned) waiting in
      rw (same) (
        silent-Spoken lines threads n t i less in_wait signalled asleep refl,
        omega (arith, ap left_at asleep, tally-set returned left_at threads i signalled less),
      )
]

module _ (s : Rendezvous) (v : IsValid s) where
  record Situation (m : Stage) : Type 0 where
    counts :
        Counts s.child.count s.parent.count s.threads
          (ups m)
          (downs m)
          (main_waits m)
          (main_called m)
    spoken : Spoken s.printed s.threads (said m)
    left : main_left s.main ≡ main_left m

  situate : (m : Stage) → s.main ≡ m → Situation m
  situate m e = record {
    counts =
        subst
          (λ p.
            Counts s.child.count s.parent.count s.threads (ups p) (downs p) (main_waits p)
              (main_called p))
          e v.counts;
    spoken = subst (λ p. Spoken s.printed s.threads (said p)) e v.spoken;
    left = ap main_left e;
  }

  abbrev pub MainWaits : Type 0
  MainWaits = (main_waits s.main ≡ 1) ⊎ (s.main ≡ joins)

  up_child-Onward :
      (k : ℕ) (m next : Stage)
      → Situation m
      → (main_called m ≡ 0)
        × (ups next ≡ ups m + 1)
        × (downs next ≡ downs m)
        × (main_waits next ≡ 0)
        × (main_called next ≡ 0)
        × (said next ≡ said m)
        × (main_left next < main_left m)
      → Onward s (up_child k next s) MainWaits
  unfolding up_child zem_up
  up_child-Onward k m next w (e, e1, e2, e3, e4, e5, nearer) =
      let sent = signal-Signalled is_waiting signalled returned refl k s.threads in
      let (spoken, no_more) = signal_lem s.printed s.threads _ (said m) w.spoken sent in
      (
        record {
          counts = rw (e1, e2, e3, e4) (up-Counts _ _ s.threads _ _ _ _ w.counts _ e sent);
          spoken = rw (e5) spoken;
        },
        inr (omega (arith, no_more, nearer, w.left)),
      )

  down_parent-Onward :
      (m pause next : Stage)
      → Situation m
      → (main_called m ≡ 0)
        × (ups next ≡ ups m)
        × (downs next ≡ downs m + 1)
        × (main_waits next ≡ 0)
        × (main_called next ≡ 0)
        × (said next ≡ said m)
        × (main_left next < main_left m)
      → (ups pause ≡ ups m)
        × (downs pause ≡ downs m)
        × (main_waits pause ≡ 1)
        × (main_called pause ≡ 0)
        × (said pause ≡ said m)
        × (main_left pause < main_left m)
      → Onward s (down_parent pause next s) MainWaits
  unfolding down_parent zem_down
  down_parent-Onward m pause next w (e, e1, e2, e3, e4, e5, nearer) (k1, k2, k3, k4, k5, near) =
      elim (Bool-cases (not_positive s.parent.count)) [
        | inl closed ↦
            rw (closed, down_parent)
              (
                record {
                  counts =
                      rw (k1, k2, k3, k4) (waits-Counts _ _ s.threads _ _ _ _ w.counts e closed);
                  spoken = rw (k5) w.spoken;
                },
                inr (omega (arith, near, w.left)),
              )
        | inr positive ↦
            rw (positive, down_parent)
              (
                record {
                  counts =
                      rw (e1, e2, e3, e4) (goes_on-Counts _ _ s.threads _ _ _ _ w.counts positive);
                  spoken = rw (e5) w.spoken;
                },
                inr (omega (arith, nearer, w.left)),
              )
      ]

  pub main_step-Onward : (k : ℕ) (m : Stage) → s.main ≡ m → Onward s (main_step k m s) MainWaits
  unfolding main_step zem_resume
  main_step-Onward k first_line e =
      let w = situate first_line e in
      let (none_before, no_ids) = w.spoken.text in
      (
        record {
          counts = w.counts;
          spoken = says-Spoken s.printed s.threads 0 main_first w.spoken (
              ap (λ (l : List Line). l ++ main_first ∷ []) none_before
              ∙ ap (λ (ids : List ℕ). main_first ∷ map this_is ids) (sym no_ids));
        },
        inr (omega (arith, w.left)),
      )
  main_step-Onward k up_one e =
      up_child-Onward k up_one down_one (situate up_one e)
        (refl, refl, refl, refl, refl, refl, omega arith)
  main_step-Onward k down_one e =
      down_parent-Onward down_one wait_one line_one (situate down_one e)
        (refl, refl, refl, refl, refl, refl, omega arith)
        (refl, refl, refl, refl, refl, omega arith)
  main_step-Onward k wait_one e = (v, inl (refl, inl (ap main_waits e)))
  main_step-Onward k called_one e =
      let w = situate called_one e in
      (
        record { counts = called-Counts _ _ s.threads _ _ _ _ w.counts refl; spoken = w.spoken },
        inr (omega (arith, w.left)),
      )
  main_step-Onward k line_one e =
      let w = situate line_one e in
      let heard : 1 ≤ length w.spoken.ids =
        omega (arith, w.spoken.everyone, w.counts.main_behind, finished_shown s.threads) in
      (
        record {
          counts = w.counts;
          spoken = says-Spoken s.printed s.threads 1 one_printed w.spoken (
            w.spoken.ids,
            [],
            ap (λ (l : List Line). l ++ one_printed ∷ []) w.spoken.text,
            sym (append-nil w.spoken.ids),
            heard,
          );
        },
        inr (omega (arith, w.left)),
      )
  main_step-Onward k up_two e =
      up_child-Onward k up_two down_two (situate up_two e)
        (refl, refl, refl, refl, refl, refl, omega arith)
  main_step-Onward k down_two e =
      down_parent-Onward down_two wait_two line_two (situate down_two e)
        (refl, refl, refl, refl, refl, refl, omega arith)
        (refl, refl, refl, refl, refl, omega arith)
  main_step-Onward k wait_two e = (v, inl (refl, inl (ap main_waits e)))
  main_step-Onward k called_two e =
      let w = situate called_two e in
      (
        record { counts = called-Counts _ _ s.threads _ _ _ _ w.counts refl; spoken = w.spoken },
        inr (omega (arith, w.left)),
      )
  main_step-Onward k line_two e =
      let w = situate line_two e in
      let (before, behind, text, order, heard) = w.spoken.text in
      (
        record {
          counts = w.counts;
          spoken =
              says-Spoken s.printed s.threads 2 second_printed w.spoken (
                before,
                behind,
                ap (λ (l : List Line). l ++ second_printed ∷ []) text,
                order,
                heard,
              );
        },
        inr (omega (arith, w.left)),
      )
  main_step-Onward k joins e = (v, inl (refl, inr e))
