-- ===== src/Zemaphore/Toggle/Step.antt =====
-- One step of a thread of pthreads-sync-code/zemaphore/test-toggle.c, whoever has the token.
use os333_iit_bombay_labs.Prelude.{
  ℕ, ◌+◌, ◌*◌, ◌%◌, ◌≤◌, ◌<◌, ◌≡◌, ◌≢◌, ◌⊎◌, inl, inr, refl, sym, ap, ◌∙◌, true, false, get_or,
  ◌==◌, arith, ℕ_discrete,
}
use os333_iit_bombay_labs.Prelude.Int.{pos}
use os333_iit_bombay_labs.Zemaphore.{Zemaphore, passed, waits, zem_down, zem_resume}
use os333_iit_bombay_labs.Zemaphore.Toggle.{
  num_threads, Place, at_down, in_wait, signalled, at_print, at_up, returned, Toggle, zem_at, go,
  down, resume, justprint,
}
use os333_iit_bombay_labs.Zemaphore.Toggle.State.{
  Stage, in_zem, printing, passing, has_turn, has_no_turn, has_returned, fits, count_of, IsValid,
  its_turn, moved, taken, printed,
}
use os333_iit_bombay_labs.Zemaphore.Toggle.Handover.{handed_on}

-- How far the program is: three steps make a round.
abbrev pub rank : ℕ → Stage → ℕ
rank u in_zem = 3 * u
rank u printing = 3 * u + 1
rank u passing = 3 * u + 2

-- What a step of thread `i` comes to: the thread whose turn it is takes the program further, unless all is over.
pub record Stepped (u : ℕ) (c : Stage) (i : ℕ) (s' : Toggle) : Type 0 where
  pub round : ℕ
  pub stage : Stage
  pub valid : IsValid round stage s'
  pub no_less : rank u c ≤ rank round stage
  pub further : i ≡ u % num_threads → (rank u c + 1 ≤ rank round stage) ⊎ (90 ≤ rank u c)

-- A step that changes nothing, of a thread whose turn it is not.
idle :
    (u : ℕ) (c : Stage) (i : ℕ) (s : Toggle)
    → IsValid u c s
    → (i ≡ u % num_threads → 90 ≤ rank u c)
    → Stepped u c i s
idle u c i s v last = record {
  round = u;
  stage = c;
  valid = v;
  no_less = omega arith;
  further = λ e. inr (last e);
}

to_zero : (z : Zemaphore) → z.count ≡ pos 1 → zem_down z ≡ passed (record { count = pos 0 })
unfolding zem_down
to_zero z e = rw (e, zem_down) refl

resumed : (z : Zemaphore) → z.count ≡ pos 1 → (zem_resume z).count ≡ pos 0
unfolding zem_resume
resumed z e = rw (e) refl

must_wait : (z : Zemaphore) → z.count ≡ pos 0 → zem_down z ≡ waits z
unfolding zem_down
must_wait z e = rw (e, zem_down) refl

module _ (u : ℕ) (i : ℕ) (s : Toggle) (less : i < num_threads) where
  -- A step of the thread whose turn it is, by where it is.
  step_holder :
      (turn : i ≡ u % num_threads) (c : Stage) (p : Place)
      → IsValid u c s
      → get_or s.places i returned ≡ p
      → has_turn c p ≡ true
      → Stepped u c i (justprint i s)
  unfolding justprint down resume
  step_holder turn in_zem at_down v e fit =
      let full : (zem_at s i).count ≡ pos 1 =
        rw (its_turn i (u % num_threads) turn) at (v.counts i less) in
      rw (e, justprint, to_zero (zem_at s i) full, down)
        (record {
          round = u;
          stage = printing;
          valid = taken u s i (record { count = pos 0 }) v less turn refl (rw (e) refl);
          no_less = omega arith;
          further = λ q. inl (omega arith);
        })
  step_holder turn in_zem signalled v e fit =
      let full : (zem_at s i).count ≡ pos 1 =
        rw (its_turn i (u % num_threads) turn) at (v.counts i less) in
      rw (e, justprint)
        (record {
          round = u;
          stage = printing;
          valid =
              taken u s i (zem_resume (zem_at s i)) v less turn (resumed (zem_at s i) full)
                (rw (e) refl);
          no_less = omega arith;
          further = λ q. inl (omega arith);
        })
  step_holder turn in_zem returned v e fit =
      let over : get_or s.iterations i 0 ≡ 10 = ground (arith, ap has_returned e, v.ended i less) in
      rw (e, justprint) (idle u in_zem i s v (λ q. omega (arith, over, v.rounds i less, q)))
  step_holder turn printing at_print v e fit =
      rw (e, justprint)
        (record {
          round = u;
          stage = passing;
          valid = printed u s i v less turn (rw (e) refl);
          no_less = omega arith;
          further = λ q. inl (omega arith);
        })
  step_holder turn passing at_up v e fit =
      rw (e, justprint)
        (record {
          round = u + 1;
          stage = in_zem;
          valid = handed_on u s i v less turn (rw (e) refl);
          no_less = omega arith;
          further = λ q. inl (omega arith);
        })
  step_holder turn in_zem in_wait v e fit = cc
  step_holder turn in_zem at_print v e fit = cc
  step_holder turn in_zem at_up v e fit = cc
  step_holder turn printing at_down v e fit = cc
  step_holder turn printing in_wait v e fit = cc
  step_holder turn printing signalled v e fit = cc
  step_holder turn printing at_up v e fit = cc
  step_holder turn printing returned v e fit = cc
  step_holder turn passing at_down v e fit = cc
  step_holder turn passing in_wait v e fit = cc
  step_holder turn passing signalled v e fit = cc
  step_holder turn passing at_print v e fit = cc
  step_holder turn passing returned v e fit = cc

  -- A step of another thread.
  step_other :
      (turn : i ≢ u % num_threads) (c : Stage) (p : Place)
      → IsValid u c s
      → get_or s.places i returned ≡ p
      → has_no_turn p ≡ true
      → Stepped u c i (justprint i s)
  unfolding justprint down
  step_other turn c at_down v e fit =
      let out : (i == u % num_threads) ≡ false = ground arith in
      let empty : (zem_at s i).count ≡ pos 0 = v.counts i less ∙ ap (count_of c) out ∙ no_token c in
      rw (e, justprint, must_wait (zem_at s i) empty, down)
        (idle u c i (go i in_wait s) (moved u c s i in_wait v less (rw (out) refl) (rw (e) refl))
          (λ q. absurd (turn q)))
    where
      no_token : (d : Stage) → count_of d false ≡ pos 0
      no_token in_zem = refl
      no_token printing = refl
      no_token passing = refl
  step_other turn c in_wait v e fit = rw (e, justprint) (idle u c i s v (λ q. absurd (turn q)))
  step_other turn c returned v e fit = rw (e, justprint) (idle u c i s v (λ q. absurd (turn q)))
  step_other turn c signalled v e fit = cc
  step_other turn c at_print v e fit = cc
  step_other turn c at_up v e fit = cc

  pub step-IsValid : (c : Stage) → IsValid u c s → Stepped u c i (justprint i s)
  step-IsValid c v = elim (ℕ_discrete i (u % num_threads)) [
    | yes turn ↦ step_holder turn c (get_or s.places i returned) v refl (
        ap (λ b. fits c b (get_or s.places i returned)) (sym (its_turn i (u % num_threads) turn))
        ∙ v.fitting i less)
    | no turn ↦
        let out : (i == u % num_threads) ≡ false = ground arith in
        step_other turn c (get_or s.places i returned) v refl
          (ap (λ b. fits c b (get_or s.places i returned)) (sym out) ∙ v.fitting i less)
  ]
