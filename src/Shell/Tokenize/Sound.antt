-- ===== src/Shell/Tokenize/Sound.antt =====
-- Whatever line `tokenize` of shell-code/my_shell.c gets: its tokens are words that fit, and they
-- hold every letter of the line, in order.
use mathlib.Core.List.{append-nil, append_assoc}
use os333_iit_bombay_labs.Prelude.{
  ℕ, ◌≤◌, ◌<◌, ◌≡◌, refl, sym, ap, ◌∙◌, inl, inr, Option, none, some, List, [], ◌∷◌, ◌++◌, length,
  ltb, ◌==◌, if◌then◌else◌, ◌>>=◌, arith, Bool-cases, length-append, All, All-append,
}
use os333_iit_bombay_labs.Prelude.Text.{Text}
use os333_iit_bombay_labs.Shell.Tokenize.{
  max_token_size, max_num_tokens, is_space, Scanner, end_token, add_char, scan_char, scan_line,
  tokenize,
}
use os333_iit_bombay_labs.Shell.Tokenize.Laws.{
  IsSpace, IsLetter, IsWord, letters, joined, scan_line-append,
}

record IsScanner (s : Scanner) : Type 0 where
  token_fits : length s.token ≤ max_token_size
  token_letters : All IsLetter s.token
  words : All IsWord s.tokens
  few : length s.tokens ≤ max_num_tokens

-- All letters read so far.
abbrev read_by : Scanner → Text
read_by s = joined s.tokens ++ s.token

joined-append : (a b : List Text) → joined (a ++ b) ≡ joined a ++ joined b
joined-append [] b = refl
joined-append (w ∷ a) b = rw (joined-append a b, append_assoc)

-- One character keeps the invariant, and a letter is added to what has been read.
abbrev Scanned : Scanner → ℕ → Option Scanner → Type 0
Scanned s c none = Unit
Scanned s c (some s') = IsScanner s' × (read_by s' ≡ read_by s ++ letters (c ∷ []))

end_token_lem : (s : Scanner) (c : ℕ) → IsScanner s → IsSpace c → Scanned s c (end_token s)
unfolding end_token letters
end_token_lem s c inv sp = elim (Bool-cases (ltb (length s.token) max_token_size)) [
  | inr over ↦ rw (over, end_token) tt
  | inl fits ↦ elim (Bool-cases (length s.token == 0)) [
    | inl empty ↦ rw (fits, empty, sp, end_token) (inv, sym (append-nil (read_by s)))
    | inr full ↦ elim (Bool-cases (ltb (length s.tokens) max_num_tokens)) [
      | inr many ↦ rw (fits, full, many, end_token) tt
      | inl room ↦
          rw (fits, full, room, sp, end_token)
            (
              record {
                token_fits = omega arith;
                token_letters = tt;
                words =
                    All-append IsWord s.tokens (s.token ∷ []) inv.words
                      ((ground arith, ground arith, inv.token_letters), tt);
                few = ground (arith, length-append s.tokens (s.token ∷ []));
              },
              simp (joined-append, append-nil),
            )
    ]
  ]
]

add_char_lem : (s : Scanner) (c : ℕ) → IsScanner s → IsLetter c → Scanned s c (add_char s c)
unfolding add_char letters
add_char_lem s c inv l = elim (Bool-cases (ltb (length s.token) max_token_size)) [
  | inr over ↦ rw (over, add_char) tt
  | inl fits ↦
      rw (fits, l, add_char)
        (
          record {
            token_fits = ground (arith, length-append s.token (c ∷ []));
            token_letters = All-append IsLetter s.token (c ∷ []) inv.token_letters (l, tt);
            words = inv.words;
            few = inv.few;
          },
          sym (append_assoc (joined s.tokens) s.token (c ∷ [])),
        )
]

scan_char_lem : (s : Scanner) (c : ℕ) → IsScanner s → Scanned s c (scan_char s c)
unfolding scan_char
scan_char_lem s c inv = elim (Bool-cases (is_space c)) [
  | inl sp ↦ rw (sp, scan_char) (end_token_lem s c inv sp)
  | inr l ↦ rw (l, scan_char) (add_char_lem s c inv l)
]

letters-append : (a b : Text) → letters (a ++ b) ≡ letters a ++ letters b
unfolding letters
letters-append [] b = refl
letters-append (c ∷ a) b = elim (Bool-cases (is_space c)) [
  | inl sp ↦ rw (sp, letters-append a b)
  | inr l ↦ rw (l, letters-append a b)
]

abbrev ScannedLine : Scanner → Text → Option Scanner → Type 0
ScannedLine s line none = Unit
ScannedLine s line (some s') = IsScanner s' × (read_by s' ≡ read_by s ++ letters line)

scan_line_lem : (s : Scanner) (line : Text) → IsScanner s → ScannedLine s line (scan_line s line)
unfolding scan_line letters
scan_line_lem s [] inv = (inv, sym (append-nil (read_by s)))
scan_line_lem s (c ∷ line) inv =
    next (λ s' i. scan_line_lem s' line i) (scan_char s c) (scan_char_lem s c inv)
  where
    glue :
        (s' : Scanner) (r : Option Scanner)
        → read_by s' ≡ read_by s ++ letters (c ∷ [])
        → ScannedLine s' line r
        → ScannedLine s (c ∷ line) r
    glue s' none e h = tt
    glue s' (some t) e h = (
      h.0,
      h.1
          ∙ ap (λ (x : Text). x ++ letters line) e
          ∙ append_assoc (read_by s) _ _
          ∙ ap (λ (x : Text). read_by s ++ x) (sym (letters-append (c ∷ []) line)),
    )

    next :
        ((s' : Scanner) → IsScanner s' → ScannedLine s' line (scan_line s' line))
        → (r : Option Scanner) → Scanned s c r
        → ScannedLine s (c ∷ line) (r >>= λ s'. scan_line s' line)
    next ih none h = tt
    next ih (some s') h = glue s' (scan_line s' line) h.1 (ih s' h.0)

end_token_empty : (s s' : Scanner) → end_token s ≡ some s' → s'.token ≡ []
unfolding end_token
end_token_empty s s' e = ground arith

scan_end : (s s' : Scanner) (c : ℕ) → IsSpace c → scan_line s (c ∷ []) ≡ some s' → s'.token ≡ []
unfolding scan_line scan_char
scan_end s s' c sp e = ended (end_token s) refl (rw sp at e)
  where
    ended : (r : Option Scanner) → end_token s ≡ r → (r >>= λ t. some t) ≡ some s' → s'.token ≡ []
    ended none q h = cc
    ended (some t) q h = end_token_empty s s' (q ∙ h)

-- A line that ends in a separator, as every line of the shell does: if `tokenize` returns, each
-- token is a word of 1 to 63 letters, there are at most 63, and joined they are the letters of the line.
pub tokenize_sound :
    (line : Text) (c : ℕ) (ts : List Text)
    → IsSpace c
    → tokenize (line ++ c ∷ []) ≡ some ts
    → All IsWord ts × (length ts < max_num_tokens) × (joined ts ≡ letters line)
unfolding tokenize letters
tokenize_sound line c ts sp e =
    whole (scan_line start line) refl (rw (scan_line-append start line (c ∷ [])) at e)
  where
    start : Scanner
    start = record { token = []; tokens = [] }

    start-IsScanner : IsScanner start
    start-IsScanner = record {
      token_fits = omega arith;
      token_letters = tt;
      words = tt;
      few = omega arith;
    }

    last :
        (s' : Scanner)
        → IsScanner s'
        → read_by s' ≡ letters line
        → s'.token ≡ []
        → (if ltb (length s'.tokens) max_num_tokens then some s'.tokens else none) ≡ some ts
        → All IsWord ts × (length ts < max_num_tokens) × (joined ts ≡ letters line)
    last s' inv all empty h =
        let kept : s'.tokens ≡ ts = ground arith in
        let few : length s'.tokens < max_num_tokens = ground arith in
        rw (← kept) (
          inv.words,
          few,
          sym (append-nil (joined s'.tokens))
              ∙ ap (λ (x : Text). joined s'.tokens ++ x) (sym empty)
              ∙ all,
        )

    no_letter : letters (c ∷ []) ≡ []
    no_letter = rw (sp, letters)

    second :
        (s : Scanner)
        → IsScanner s × (read_by s ≡ letters line)
        → (r : Option Scanner) → scan_line s (c ∷ []) ≡ r
        → (r >>= λ s. if ltb (length s.tokens) max_num_tokens then some s.tokens else none)
          ≡ some ts
        → All IsWord ts × (length ts < max_num_tokens) × (joined ts ≡ letters line)
    second s (inv, all) none q h = cc
    second s (inv, all) (some s') q h =
        let (inv', all') = rw q at (scan_line_lem s (c ∷ []) inv) in
        last s' inv'
          (all' ∙ ap (λ (x : Text). read_by s ++ x) no_letter ∙ append-nil (read_by s) ∙ all)
          (scan_end s s' c sp q) h

    whole :
        (r : Option Scanner)
        → scan_line start line ≡ r
        → ((r >>= λ s. scan_line s (c ∷ [])) >>= λ s.
            if ltb (length s.tokens) max_num_tokens then some s.tokens else none)
          ≡ some ts
        → All IsWord ts × (length ts < max_num_tokens) × (joined ts ≡ letters line)
    whole none q h = cc
    whole (some s) q h =
        second s (rw q at (scan_line_lem start line start-IsScanner)) (scan_line s (c ∷ [])) refl h
