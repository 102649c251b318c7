-- ===== src/Zemaphore/Rendezvous/Counts/Moves.antt =====
-- What the steps of the threads and of `main` do to the counts of pthreads-sync-code/zemaphore/test-zem.c.
use os333_iit_bombay_labs.Prelude.{
  ℕ, ◌+◌, ◌≤◌, ◌<◌, ◌≡◌, ◌⊎◌, inl, inr, refl, ap, ◌∙◌, true, false, List, length, get_or, set,
  arith,
}
use os333_iit_bombay_labs.Prelude.Int.{ℤ, incr, decr, not_positive}
use os333_iit_bombay_labs.Threads.{tally, tally_ge, tally_zero}
use os333_iit_bombay_labs.Threads.Signal.{Signalled}
use os333_iit_bombay_labs.Zemaphore.Toggle.{
  Place, at_down, in_wait, signalled, at_print, at_up, returned,
}
use os333_iit_bombay_labs.Zemaphore.Rendezvous.{is_waiting}
use os333_iit_bombay_labs.Zemaphore.Rendezvous.Counts.{
  IsDifference, incr-IsDifference, decr-IsDifference, positive_lt, not_positive_le, went_in,
  sleeping, woken, finished, Counts, Sums, sums, awake_lem, asleep_lem, same-IsDifference,
}

abbrev woken_lem : {A B C D : Type 0} → (A → C) → (B → D) → A ⊎ B → C ⊎ D
woken_lem f g (inl a) = inl (f a)
woken_lem f g (inr b) = inr (g b)

module _ (child parent : ℤ) (threads : List Place) (u d w c : ℕ)
    (v : Counts child parent threads u d w c) where
  module _ (i : ℕ) (less : i < length threads) where
    -- What a move from `p` to `q` leaves as it is.
    module _ (p q : Place) (e : get_or threads i returned ≡ p) where
      moved : Sums threads i p q
      moved = sums threads i p q less e

      keeps_two : length (set threads i q) ≡ 2
      keeps_two = moved.size ∙ v.two

      keeps_child : went_in q ≡ went_in p → IsDifference child u (tally went_in (set threads i q))
      keeps_child same =
          same-IsDifference child u _ u _ refl (omega (arith, same, moved.in_sum)) v.child_count

      keeps_parent :
          finished q ≡ finished p → IsDifference parent (tally finished (set threads i q)) d
      keeps_parent same =
          same-IsDifference parent _ d _ d (omega (arith, same, moved.finished_sum)) refl
            v.parent_count

      keeps_woken :
          sleeping q ≡ sleeping p
          → went_in p + woken p ≤ went_in q + woken q
          → (tally sleeping (set threads i q) ≡ 0)
            ⊎ (u ≤ tally went_in (set threads i q) + tally woken (set threads i q))
      keeps_woken same more =
          woken_lem (λ h. omega (arith, same, moved.sleep_sum))
            (λ h. omega (arith, more, moved.in_sum, moved.woken_sum)) v.child_woken

      keeps_main : finished q ≡ finished p → (w ≡ 0) ⊎ (tally finished (set threads i q) ≤ d)
      keeps_main same =
          woken_lem (λ h. h) (λ h. omega (arith, same, moved.finished_sum)) v.main_woken

      keeps_behind : finished q ≡ finished p → d + c ≤ tally finished (set threads i q)
      keeps_behind same = omega (arith, same, moved.finished_sum, v.main_behind)

      keeps_late :
          went_in q + woken q ≡ went_in p + woken p
          → (1 ≤ u) ⊎ (tally woken (set threads i q) + tally went_in (set threads i q) ≡ 0)
      keeps_late same =
          woken_lem (λ h. h) (λ h. omega (arith, same, moved.in_sum, moved.woken_sum)) v.not_early

    pub passes-Counts :
        get_or threads i returned ≡ at_down
        → not_positive child ≡ false
        → Counts (decr child) parent (set threads i at_print) u d w c
    passes-Counts e positive =
        let below = positive_lt child u (tally went_in threads) positive v.child_count in
        record {
          two = keeps_two at_down at_print e;
          child_count =
              decr-IsDifference child u (tally went_in threads) _
                (omega (arith, (moved at_down at_print e).in_sum)) v.child_count;
          parent_count = keeps_parent at_down at_print e refl;
          child_woken = keeps_woken at_down at_print e refl (omega arith);
          main_woken = keeps_main at_down at_print e refl;
          main_behind = keeps_behind at_down at_print e refl;
          not_early = inl (omega (arith, below));
        }

    pub sleeps-Counts :
        get_or threads i returned ≡ at_down
        → not_positive child ≡ true
        → Counts child parent (set threads i in_wait) u d w c
    sleeps-Counts e closed =
        let above = not_positive_le child u (tally went_in threads) closed v.child_count in
        record {
          two = keeps_two at_down in_wait e;
          child_count = keeps_child at_down in_wait e refl;
          parent_count = keeps_parent at_down in_wait e refl;
          child_woken = inr (omega (arith, above, (moved at_down in_wait e).in_sum));
          main_woken = keeps_main at_down in_wait e refl;
          main_behind = keeps_behind at_down in_wait e refl;
          not_early = keeps_late at_down in_wait e refl;
        }

    pub resumes-Counts :
        get_or threads i returned ≡ signalled
        → Counts (decr child) parent (set threads i at_print) u d w c
    resumes-Counts e = record {
      two = keeps_two signalled at_print e;
      child_count =
          decr-IsDifference child u (tally went_in threads) _
            (omega (arith, (moved signalled at_print e).in_sum)) v.child_count;
      parent_count = keeps_parent signalled at_print e refl;
      child_woken = keeps_woken signalled at_print e refl (omega arith);
      main_woken = keeps_main signalled at_print e refl;
      main_behind = keeps_behind signalled at_print e refl;
      not_early = keeps_late signalled at_print e refl;
    }

    pub prints-Counts :
        get_or threads i returned ≡ at_print → Counts child parent (set threads i at_up) u d w c
    prints-Counts e = record {
      two = keeps_two at_print at_up e;
      child_count = keeps_child at_print at_up e refl;
      parent_count = keeps_parent at_print at_up e refl;
      child_woken = keeps_woken at_print at_up e refl (omega arith);
      main_woken = keeps_main at_print at_up e refl;
      main_behind = keeps_behind at_print at_up e refl;
      not_early = keeps_late at_print at_up e refl;
    }

    -- The signal leaves `main` where it does not wait.
    pub ends-Counts :
        (c' : ℕ)
        → c' ≤ 1
        → get_or threads i returned ≡ at_up
        → Counts child (incr parent) (set threads i returned) u d 0 c'
    ends-Counts c' once e =
        let sum = (moved at_up returned e).finished_sum in
        record {
          two = keeps_two at_up returned e;
          child_count = keeps_child at_up returned e refl;
          parent_count =
              incr-IsDifference parent (tally finished threads) d _ (omega (arith, sum))
                v.parent_count;
          child_woken = keeps_woken at_up returned e refl (omega arith);
          main_woken = inl refl;
          main_behind = omega (arith, sum, v.main_behind);
          not_early = keeps_late at_up returned e refl;
        }

  -- `main`: an up of `child`, and the ways through a down of `parent`.
  pub up-Counts :
      (threads' : List Place)
      → c ≡ 0
      → Signalled is_waiting signalled returned threads threads'
      → Counts (incr child) parent threads' (u + 1) d 0 0
  up-Counts threads' e sent = elim sent [
    | inl (nobody, same) ↦
        let calm : tally sleeping threads ≡ 0 =
          tally_zero returned sleeping threads
            (λ i. awake_lem (get_or threads i returned) (nobody i)) in
        rw (same) (record {
          two = v.two;
          child_count =
              incr-IsDifference child u (tally went_in threads) (u + 1) refl v.child_count;
          parent_count = v.parent_count;
          child_woken = inl calm;
          main_woken = inl refl;
          main_behind = omega (arith, e, v.main_behind);
          not_early = inl (omega arith);
        })
    | inr (i, less, waiting, same) ↦
        let asleep = asleep_lem (get_or threads i returned) waiting in
        let m = moved i less in_wait signalled asleep in
        let sleeper = ap sleeping asleep in
        let some_sleep : 1 ≤ tally sleeping threads =
          omega (arith, sleeper, tally_ge returned sleeping threads i less) in
        rw (same) (record {
          two = m.size ∙ v.two;
          child_count =
              same-IsDifference (incr child) (u + 1) (tally went_in threads) (u + 1) _ refl
                (omega (arith, m.in_sum))
                (incr-IsDifference child u (tally went_in threads) (u + 1) refl v.child_count);
          parent_count =
              same-IsDifference parent _ d _ d (omega (arith, m.finished_sum)) refl v.parent_count;
          child_woken = inr (elim v.child_woken [
            | inl none_sleep ↦ absurd (omega (arith, none_sleep, some_sleep))
            | inr enough ↦ omega (arith, enough, m.in_sum, m.woken_sum)
          ]);
          main_woken = inl refl;
          main_behind = omega (arith, e, v.main_behind, m.finished_sum);
          not_early = inl (omega arith);
        })
  ]

  pub goes_on-Counts :
      not_positive parent ≡ false → Counts child (decr parent) threads u (d + 1) 0 0
  goes_on-Counts positive = record {
    two = v.two;
    child_count = v.child_count;
    parent_count = decr-IsDifference parent (tally finished threads) d (d + 1) refl v.parent_count;
    main_woken = inl refl;
    main_behind =
        omega (arith, positive_lt parent (tally finished threads) d positive v.parent_count);
    child_woken = v.child_woken;
    not_early = v.not_early;
  }

  pub waits-Counts : c ≡ 0 → not_positive parent ≡ true → Counts child parent threads u d 1 0
  waits-Counts e closed = record {
    two = v.two;
    child_count = v.child_count;
    parent_count = v.parent_count;
    main_woken = inr (not_positive_le parent (tally finished threads) d closed v.parent_count);
    main_behind = omega (arith, e, v.main_behind);
    child_woken = v.child_woken;
    not_early = v.not_early;
  }

  pub called-Counts : c ≡ 1 → Counts child (decr parent) threads u (d + 1) 0 0
  called-Counts e = record {
    two = v.two;
    child_count = v.child_count;
    parent_count = decr-IsDifference parent (tally finished threads) d (d + 1) refl v.parent_count;
    main_woken = inl refl;
    main_behind = omega (arith, e, v.main_behind);
    child_woken = v.child_woken;
    not_early = v.not_early;
  }
