-- ===== src/Shell/Tokenize/Laws.antt =====
-- What `tokenize` of shell-code/my_shell.c returns, and when it writes behind its buffers.
use mathlib.Core.List.{append-nil, append_assoc}
use os333_iit_bombay_labs.Prelude.{
  ℕ, ◌+◌, ◌≤◌, ◌<◌, ◌≡◌, refl, sym, inl, inr, true, false, Option, none, some, List, [], ◌∷◌, ◌++◌,
  length, ltb, ◌==◌, if◌then◌else◌, ◌>>=◌, arith, Bool-cases, length-append, All,
}
use os333_iit_bombay_labs.Prelude.Text.{Text}
use os333_iit_bombay_labs.Shell.Tokenize.{
  max_token_size, max_num_tokens, is_space, Scanner, end_token, add_char, scan_char, scan_line,
  tokenize,
}

abbrev pub IsSpace : ℕ → Type 0
IsSpace c = is_space c ≡ true

abbrev pub IsLetter : ℕ → Type 0
IsLetter c = is_space c ≡ false

-- A word that fits the token buffer with its NUL.
abbrev pub IsWord : Text → Type 0
IsWord w = (0 < length w) × (length w < max_token_size) × All IsLetter w

-- The letters of a line, without what separates its words.
unfoldable pub letters : Text → Text
letters [] = []
letters (c ∷ line) = if is_space c then letters line else c ∷ letters line

-- All words, joined without separators.
abbrev pub joined : List Text → Text
joined [] = []
joined (w ∷ ws) = w ++ joined ws

-- A line: words, each with the separators that follow it.
abbrev pub line_of : List (Text × Text) → Text
line_of [] = []
line_of ((w, gap) ∷ rest) = w ++ (gap ++ line_of rest)

abbrev pub words_of : List (Text × Text) → List Text
words_of [] = []
words_of ((w, gap) ∷ rest) = w ∷ words_of rest

-- Each word fits, and separators follow it.
abbrev pub IsLine : List (Text × Text) → Type 0
IsLine [] = Unit
IsLine ((w, gap) ∷ rest) = IsWord w × (0 < length gap) × All IsSpace gap × IsLine rest

pub scan_line-append :
    (s : Scanner) (a b : Text) → scan_line s (a ++ b) ≡ (scan_line s a >>= λ s'. scan_line s' b)
unfolding scan_line
scan_line-append s [] b = refl
scan_line-append s (c ∷ a) b = next (λ s'. scan_line-append s' a b) (scan_char s c)
  where
    next :
        ((s' : Scanner) → scan_line s' (a ++ b) ≡ (scan_line s' a >>= λ t. scan_line t b))
        → (r : Option Scanner)
        → (r >>= λ s'. scan_line s' (a ++ b))
          ≡ ((r >>= λ s'. scan_line s' a) >>= λ s'. scan_line s' b)
    next ih none = refl
    next ih (some s') = ih s'

-- Letters are collected while they fit.
scan_letters :
    (w : Text) (token : Text) (tokens : List Text)
    → All IsLetter w
    → length token + length w ≤ max_token_size
    → scan_line (record { token = token; tokens = tokens }) w
      ≡ some (record { token = token ++ w; tokens = tokens })
unfolding scan_line scan_char add_char
scan_letters [] token tokens l h = rw append-nil
scan_letters (c ∷ w) token tokens l h =
    let fits : ltb (length token) max_token_size ≡ true = ground arith in
    rw (
      l.0,
      fits,
      scan_letters w (token ++ c ∷ []) tokens l.1 (omega (arith, length-append token (c ∷ []))),
      append_assoc,
    )

-- Separators behind an empty token change nothing.
scan_gap :
    (gap : Text) (tokens : List Text)
    → All IsSpace gap
    → scan_line (record { token = []; tokens = tokens }) gap
      ≡ some (record { token = []; tokens = tokens })
unfolding scan_line scan_char end_token
scan_gap [] tokens h = refl
scan_gap (c ∷ gap) tokens h = rw (h.0, scan_gap gap tokens h.1)

-- One word and the separators behind it become one token.
scan_word :
    (w gap : Text) (tokens : List Text)
    → IsWord w
    → 0 < length gap
    → All IsSpace gap
    → length tokens < max_num_tokens
    → scan_line (record { token = []; tokens = tokens }) (w ++ gap)
      ≡ some (record { token = []; tokens = tokens ++ w ∷ [] })
unfolding scan_line scan_char end_token
scan_word w [] tokens word more spaces room = absurd (omega arith)
scan_word w (c ∷ gap) tokens word more spaces room =
    let collected = scan_letters w [] tokens word.2 (omega (arith, word.1)) in
    let fits : ltb (length w) max_token_size ≡ true = ground (arith, word.1) in
    let full : (length w == 0) ≡ false = ground (arith, word.0) in
    let space_left : ltb (length tokens) max_num_tokens ≡ true = ground arith in
    rw
      (
        scan_line-append (record { token = []; tokens = tokens }) w (c ∷ gap),
        collected,
        spaces.0,
        fits,
        full,
        space_left,
      )
      (scan_gap gap (tokens ++ w ∷ []) spaces.1)

scan_words :
    (l : List (Text × Text)) (tokens : List Text)
    → IsLine l
    → length tokens + length (words_of l) ≤ max_num_tokens
    → scan_line (record { token = []; tokens = tokens }) (line_of l)
      ≡ some (record { token = []; tokens = tokens ++ words_of l })
unfolding scan_line
scan_words [] tokens h room = rw append-nil
scan_words ((w, gap) ∷ l) tokens h room = rw (
  sym (append_assoc w gap (line_of l)),
  scan_line-append (record { token = []; tokens = tokens }) (w ++ gap) (line_of l),
  scan_word w gap tokens h.0 h.1 h.2 (omega arith),
  scan_words l (tokens ++ w ∷ []) h.3 (omega (arith, length-append tokens (w ∷ []))),
  append_assoc,
)

-- A line of fewer than 64 words, each of fewer than 64 letters and followed by separators, with
-- separators in front or not, is split into exactly its words.
pub tokenize-line_of :
    (gap : Text) (l : List (Text × Text))
    → All IsSpace gap
    → IsLine l
    → length (words_of l) < max_num_tokens
    → tokenize (gap ++ line_of l) ≡ some (words_of l)
unfolding tokenize
tokenize-line_of gap l spaces h few =
    let start : Scanner = record { token = []; tokens = [] } in
    let fits : ltb (length (words_of l)) max_num_tokens ≡ true = ground arith in
    rw (
      scan_line-append start gap (line_of l),
      scan_gap gap [] spaces,
      scan_words l [] h (omega arith),
      fits,
    )

-- A line with a word of 64 letters or more, followed by a separator, overruns the token buffer.
scan_overflow :
    (s : Scanner) (w : Text) (c : ℕ) (rest : Text)
    → All IsLetter w
    → IsSpace c
    → max_token_size ≤ length s.token + length w
    → scan_line s (w ++ c ∷ rest) ≡ none
unfolding scan_line scan_char add_char end_token
scan_overflow s [] c rest l sp h =
    let over : ltb (length s.token) max_token_size ≡ false = ground arith in rw (sp, over)
scan_overflow s (x ∷ w) c rest l sp h = elim (Bool-cases (ltb (length s.token) max_token_size)) [
  | inr over ↦ rw (l.0, over)
  | inl fits ↦
      rw (l.0, fits)
        (scan_overflow (record s { token = s.token ++ x ∷ [] }) w c rest l.1 sp
          (omega (arith, length-append s.token (x ∷ []))))
]

pub tokenize_overflow :
    (before w : Text) (c : ℕ) (rest : Text)
    → All IsLetter w
    → IsSpace c
    → max_token_size ≤ length w
    → tokenize (before ++ (w ++ c ∷ rest)) ≡ none
unfolding tokenize
tokenize_overflow before w c rest l sp h =
    rw (scan_line-append start before (w ++ c ∷ rest)) (after (scan_line start before))
  where
    start : Scanner
    start = record { token = []; tokens = [] }

    after :
        (r : Option Scanner)
        → ((r >>= λ s. scan_line s (w ++ c ∷ rest)) >>= λ s.
            if ltb (length s.tokens) max_num_tokens then some s.tokens else none)
          ≡ none
    after none = refl
    after (some s) = rw (scan_overflow s w c rest l sp (omega arith))
