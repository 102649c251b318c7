-- ===== src/Shell/Tokenize.antt =====
-- shell-code/my_shell.c: `tokenize`. The buffers `token` and `tokens` have 64 entries, and are
-- held by what has been written to them; `none` is a write behind their end.
pub mod Laws
pub mod Sound
use os333_iit_bombay_labs.Prelude.{
  ℕ, Bool, true, false, ◌||◌, Option, none, some, List, [], ◌∷◌, ◌++◌, length, leb, ltb, ◌==◌,
  if◌then◌else◌, ◌>>=◌,
}
use os333_iit_bombay_labs.Prelude.Text.{Text}

abbrev pub max_token_size : ℕ
max_token_size = 64

abbrev pub max_num_tokens : ℕ
max_num_tokens = 64

abbrev pub is_space : ℕ → Bool
is_space c = c == b' ' || c == b'\n' || c == b'\t'

-- The first `tokenIndex` bytes of `token`, and the first `tokenNo` entries of `tokens`.
pub record Scanner : Type 0 where
  pub token : Text
  pub tokens : List Text

-- The end of a token: its closing NUL, and its copy into `tokens` unless it is empty.
unfoldable pub end_token : Scanner → Option Scanner
end_token s =
    let push : Option Scanner =
      if ltb (length s.tokens) max_num_tokens
      then some (record { token = []; tokens = s.tokens ++ s.token ∷ [] })
      else none in
    if ltb (length s.token) max_token_size
    then (if length s.token == 0 then some s else push)
    else none

unfoldable pub add_char : Scanner → ℕ → Option Scanner
add_char s c =
    if ltb (length s.token) max_token_size
    then some (record s { token = s.token ++ c ∷ [] })
    else none

unfoldable pub scan_char : Scanner → ℕ → Option Scanner
scan_char s c = if is_space c then end_token s else add_char s c

unfoldable pub scan_line : Scanner → Text → Option Scanner
scan_line s [] = some s
scan_line s (c ∷ line) = scan_char s c >>= λ s'. scan_line s' line

-- The tokens before the closing NULL. What stands in `token` at the end is dropped.
unfoldable pub tokenize : Text → Option (List Text)
tokenize line = scan_line (record { token = []; tokens = [] }) line >>= λ s.
    if ltb (length s.tokens) max_num_tokens then some s.tokens else none
