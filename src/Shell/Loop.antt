-- ===== src/Shell/Loop.antt =====
-- The loop over the tokens in `loop_process` and `parallel_process` of shell-code/my_shell.c takes
-- the commands between the marks in turn.
use mathlib.Core.List.{append-nil, append_assoc}
use os333_iit_bombay_labs.Prelude.{
  ◌<◌, ◌≡◌, refl, sym, ap, ◌∙◌, inl, inr, true, false, List, [], ◌∷◌, ◌++◌, length, arith,
  Bool-cases, All,
}
use os333_iit_bombay_labs.Prelude.Text.{Text, text_eq, text_eq_iff}
use os333_iit_bombay_labs.Shell.State.{ShellState, Outcome, going, exits, crashes, and_then}
use os333_iit_bombay_labs.Shell.Commands.{command_loop}

-- The tokens of commands with a mark between them.
abbrev pub joined_by : Text → List (List Text) → List Text
joined_by mark [] = []
joined_by mark (c ∷ []) = c
joined_by mark (c ∷ d ∷ cs) = c ++ mark ∷ joined_by mark (d ∷ cs)

-- A command that is not empty, and has no mark among its tokens.
abbrev pub IsCommand : Text → List Text → Type 0
IsCommand mark c = (0 < length c) × All (λ t. text_eq t mark ≡ false) c

-- Each command in turn is run and waited for, until SIGINT has come or a `fork` fails.
unfoldable pub run_in_turn :
    (List Text → ShellState → Outcome) → List (List Text) → ShellState → Outcome
run_in_turn start [] s = going s
run_in_turn start (c ∷ cs) s = elim s.stop_execution [
  | true ↦ going s
  | false ↦ and_then (start c s) (λ s'. run_in_turn start cs s')
]

-- Once SIGINT has come, the loop starts nothing more.
loop_stopped :
    (mark : Text) (start : List Text → ShellState → Outcome) (tokens pending : List Text)
    (s : ShellState)
    → s.stop_execution ≡ true
    → command_loop mark start tokens pending s ≡ going s
unfolding command_loop
loop_stopped mark start [] [] s h = refl
loop_stopped mark start [] (p ∷ pending) s h = rw h
loop_stopped mark start (t ∷ tokens) pending s h = rw h

module _ (mark : Text) (start : List Text → ShellState → Outcome) (t : Text)
    (tokens pending : List Text) (s : ShellState) (on : s.stop_execution ≡ false) where
  loop_token :
      text_eq t mark ≡ false
      → command_loop mark start (t ∷ tokens) pending s
        ≡ command_loop mark start tokens (pending ++ t ∷ []) s
  unfolding command_loop
  loop_token e = ground arith

  loop_at_mark :
      text_eq t mark ≡ true
      → command_loop mark start (t ∷ tokens) pending s
        ≡ and_then (start pending s) (λ s'. command_loop mark start tokens [] s')
  unfolding command_loop
  loop_at_mark e = ground arith

-- The tokens of a command are collected.
loop_collect :
    (mark : Text) (start : List Text → ShellState → Outcome) (c rest pending : List Text)
    (s : ShellState)
    → s.stop_execution ≡ false
    → All (λ t. text_eq t mark ≡ false) c
    → command_loop mark start (c ++ rest) pending s ≡ command_loop mark start rest (pending ++ c) s
loop_collect mark start [] rest pending s on no_mark = rw append-nil
loop_collect mark start (t ∷ c) rest pending s on no_mark =
    loop_token mark start t (c ++ rest) pending s on no_mark.0
    ∙ loop_collect mark start c rest (pending ++ t ∷ []) s on no_mark.1
    ∙ ap (λ (x : List Text). command_loop mark start rest x s) (append_assoc pending (t ∷ []) c)

loop_last :
    (mark : Text) (start : List Text → ShellState → Outcome) (c : List Text) (s : ShellState)
    → s.stop_execution ≡ false
    → 0 < length c
    → command_loop mark start [] c s ≡ start c s
unfolding command_loop
loop_last mark start [] s h more = absurd (omega arith)
loop_last mark start (p ∷ c) s h more = rw h

and_then-going : (o : Outcome) → and_then o (λ s. going s) ≡ o
and_then-going (going s) = refl
and_then-going (exits s) = refl
and_then-going (crashes s) = refl

pub in_turn :
    (start : List Text → ShellState → Outcome) (c : List Text) (cs : List (List Text))
    (s : ShellState)
    → s.stop_execution ≡ false
    → run_in_turn start (c ∷ cs) s ≡ and_then (start c s) (λ s'. run_in_turn start cs s')
unfolding run_in_turn
in_turn start c cs s on = ground arith

and_then_cong :
    (o : Outcome) (f g : ShellState → Outcome)
    → ((s : ShellState) → f s ≡ g s)
    → and_then o f ≡ and_then o g
and_then_cong (going s) f g h = h s
and_then_cong (exits s) f g h = refl
and_then_cong (crashes s) f g h = refl

mark_eq : (mark : Text) → text_eq mark mark ≡ true
mark_eq mark = (text_eq_iff mark mark).1 refl

pub stopped_in_turn :
    (start : List Text → ShellState → Outcome) (cs : List (List Text)) (s : ShellState)
    → s.stop_execution ≡ true
    → run_in_turn start cs s ≡ going s
unfolding run_in_turn
stopped_in_turn start [] s h = refl
stopped_in_turn start (c ∷ cs) s h = ground arith

pub loop_in_turn :
    (mark : Text) (start : List Text → ShellState → Outcome) (cs : List (List Text))
    (s : ShellState)
    → All (IsCommand mark) cs
    → command_loop mark start (joined_by mark cs) [] s ≡ run_in_turn start cs s
unfolding command_loop run_in_turn
loop_in_turn mark start [] s h = refl
loop_in_turn mark start (c ∷ []) s h = elim (Bool-cases s.stop_execution) [
  | inl stopped ↦
      loop_stopped mark start c [] s stopped ∙ sym (stopped_in_turn start (c ∷ []) s stopped)
  | inr on ↦
      ap (λ (x : List Text). command_loop mark start x [] s) (sym (append-nil c))
      ∙ loop_collect mark start c [] [] s on h.0.1
      ∙ loop_last mark start c s on h.0.0
      ∙ sym (and_then-going (start c s))
      ∙ sym (in_turn start c [] s on)
]
loop_in_turn mark start (c ∷ d ∷ cs) s h = elim (Bool-cases s.stop_execution) [
  | inl stopped ↦
      loop_stopped mark start (joined_by mark (c ∷ d ∷ cs)) [] s stopped
      ∙ sym (stopped_in_turn start (c ∷ d ∷ cs) s stopped)
  | inr on ↦
      loop_collect mark start c (mark ∷ joined_by mark (d ∷ cs)) [] s on h.0.1
      ∙ loop_at_mark mark start mark (joined_by mark (d ∷ cs)) c s on (mark_eq mark)
      ∙ and_then_cong (start c s) _ _ (λ s'. loop_in_turn mark start (d ∷ cs) s' h.1)
      ∙ sym (in_turn start c (d ∷ cs) s on)
]
