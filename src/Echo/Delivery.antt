-- ===== src/Echo/Delivery.antt =====
-- kv-server/simple-client.c in front of simple-server.c: what is typed arrives, and is answered.
use mathlib.Core.Path.{subst}
use mathlib.Core.List.{append_assoc, append-nil}
use os333_iit_bombay_labs.Prelude.{
  ℕ, zero, suc, ◌+◌, ◌≤◌, ◌<◌, ◌≡◌, ◌≢◌, refl, sym, ap, ◌∙◌, true, some, List, [], ◌∷◌, ◌++◌, map,
  length, replicate, arith, All-split,
}
use os333_iit_bombay_labs.Prelude.Text.{Text, c_string}
use os333_iit_bombay_labs.Echo.{
  reply, Server, answer, Next, again, blocked, fgets, Client, converse, client_loop, to_server,
  client_main, serve_client, server_main,
}
use os333_iit_bombay_labs.Echo.Messages.{
  joined, IsText, fgets_lem, fgets_some, c_string-text, with_line, answer_lem, to_server_lem,
  calls_for, serve_again,
}

-- One round of the client on an input that is not empty.
converse_lem :
    (s : Server) (screen : List Text) (b : ℕ) (input : Text)
    → IsText (b ∷ input)
    → (line rest : Text) × (line ++ rest ≡ b ∷ input)
      × IsText rest
      × (length rest ≤ length input)
      × (converse to_server (record { stdin = b ∷ input; remote = s; screen = screen }) ≡ (
        record { stdin = rest; remote = with_line s line; screen = screen ++ reply ∷ [] },
        again,
      ))
      × (answer (some line) (some (length reply)) s ≡ (with_line s line, again))
unfolding converse c_string
converse_lem s screen b input h =
    let (parts, fits) = fgets_lem 254 (b ∷ input) in
    let (l, e, less) = fgets_some 253 b input in
    let rest = (fgets 254 (b ∷ input)).1 in
    let same : (b ∷ l) ++ rest ≡ b ∷ input = ap (λ (t : Text). t ++ rest) (sym e) ∙ parts in
    let (of_line, of_rest) = All-split (λ n. n ≢ 0) (b ∷ l) rest (subst IsText (sym same) h) in
    let exact : c_string (fgets 254 (b ∷ input)).0 ≡ b ∷ l =
      ap c_string e ∙ c_string-text (b ∷ l) of_line in
    (
      b ∷ l,
      rest,
      same,
      of_rest,
      less,
      rw (converse, exact, to_server_lem s b l of_line (subst (λ t. length t ≤ 254) e fits)) refl,
      answer_lem s b l of_line,
    )

-- The state in which both programs wait.
abbrev at_end : List Text → ℕ → List Text → Client Server × Next
at_end printed replies screen = (
  record { stdin = []; remote = record { printed = printed; replies = replies }; screen = screen },
  blocked,
)

abbrev goes_on : List Text → ℕ → Server × Next
goes_on printed replies = (record { printed = printed; replies = replies }, again)

goes_on-same : (p q : List Text) (m n : ℕ) → p ≡ q → m ≡ n → goes_on p m ≡ goes_on q n
goes_on-same p q m n e f = rw (e, f) refl

converse_empty :
    (s : Server) (screen : List Text)
    → converse to_server (record { stdin = []; remote = s; screen = screen })
      ≡ at_end s.printed s.replies screen
unfolding converse fgets c_string to_server
converse_empty s screen = refl

at_end-same :
    (p q : List Text) (m n : ℕ) (t u : List Text)
    → p ≡ q
    → m ≡ n
    → t ≡ u
    → at_end p m t ≡ at_end q n u
at_end-same p q m n t u e f g = rw (e, f, g) refl

loop_again :
    (rounds : ℕ) (c c' : Client Server)
    → converse to_server c ≡ (c', again)
    → client_loop to_server (suc rounds) c ≡ client_loop to_server rounds c'
unfolding client_loop
loop_again rounds c c' e =
    ap
      (λ (r : Client Server × Next). elim r.1 [
        | again ↦ client_loop to_server rounds r.0
        | end ↦ (r.0, end)
      ])
      e

loop_ends :
    (rounds : ℕ) (c c' : Client Server)
    → converse to_server c ≡ (c', blocked)
    → client_loop to_server (suc rounds) c ≡ (c', blocked)
unfolding client_loop
loop_ends rounds c c' e =
    ap
      (λ (r : Client Server × Next). elim r.1 [
        | again ↦ client_loop to_server rounds r.0
        | end ↦ (r.0, end)
      ])
      e

-- Any number of rounds, as many as the input has bytes, or more.
client_loop_lem :
    (rounds : ℕ) (s : Server) (screen : List Text) (input : Text)
    → IsText input
    → length input < rounds
    → (lines : List Text) × (joined lines ≡ input)
      × (client_loop to_server rounds (record { stdin = input; remote = s; screen = screen }) ≡ (
        record {
          stdin = [];
          remote = record { printed = s.printed ++ lines; replies = s.replies + length lines };
          screen = screen ++ replicate (length lines) reply;
        },
        blocked,
      ))
      × (serve_client (map calls_for lines) s
          ≡ (record { printed = s.printed ++ lines; replies = s.replies + length lines }, again))
unfolding serve_client
client_loop_lem zero s screen input h enough = absurd (omega arith)
client_loop_lem (suc rounds) s screen [] h enough = (
  [],
  refl,
  loop_ends rounds (record { stdin = []; remote = s; screen = screen })
        (at_end s.printed s.replies screen).0 (converse_empty s screen)
      ∙ (at_end-same s.printed (s.printed ++ []) s.replies (s.replies + 0) screen (screen ++ [])
          (sym (append-nil s.printed)) (omega arith) (sym (append-nil screen))),
  goes_on-same s.printed (s.printed ++ []) s.replies (s.replies + 0) (sym (append-nil s.printed))
      (omega arith),
)
client_loop_lem (suc rounds) s screen (b ∷ input) h enough =
    let (line, rest, parts, of_rest, less, e, a) = converse_lem s screen b input h in
    let s' = with_line s line in
    let (lines, all, e', a') =
      client_loop_lem rounds s' (screen ++ reply ∷ []) rest of_rest (omega arith) in
    let n = length lines in
    (
      line ∷ lines,
      ap (λ (t : Text). line ++ t) all ∙ parts,
      loop_again rounds (record { stdin = b ∷ input; remote = s; screen = screen })
            (record { stdin = rest; remote = s'; screen = screen ++ reply ∷ [] }) e
          ∙ (e'
              ∙ at_end-same ((s.printed ++ line ∷ []) ++ lines) (s.printed ++ line ∷ lines)
                  (s.replies + 1 + n) (s.replies + suc n)
                  ((screen ++ reply ∷ []) ++ replicate n reply)
                  (screen ++ reply ∷ replicate n reply) (append_assoc s.printed (line ∷ []) lines)
                  (omega arith) (append_assoc screen (reply ∷ []) (replicate n reply))),
      serve_again s s' line (map calls_for lines) a
          ∙ (a'
              ∙ goes_on-same ((s.printed ++ line ∷ []) ++ lines) (s.printed ++ line ∷ lines)
                  (s.replies + 1 + n) (s.replies + suc n) (append_assoc s.printed (line ∷ []) lines)
                  (omega arith)),
    )

-- The client of simple-client.c in front of simple-server.c, over a connection that delivers one write to one read: for
-- every input without NUL and more rounds than it has bytes, the server prints messages that joined are the input, and
-- the client prints the reply once for each; then the client waits. The server, where its calls succeed and it reads these
-- messages, prints them, writes as many replies, and goes on.
pub every_line_answered :
    (input : Text) (rounds : ℕ)
    → IsText input
    → length input < rounds
    → (lines : List Text) × (joined lines ≡ input)
      × (client_main to_server
            (record { host_given = true; opened = true; host_found = true; connected = true })
            rounds
            (record { stdin = input; remote = record { printed = []; replies = 0 }; screen = [] })
          ≡ (
            record {
              stdin = [];
              remote = record { printed = lines; replies = length lines };
              screen = replicate (length lines) reply;
            },
            blocked,
          ))
      × (server_main
            (record { port_given = true; socket_opened = true; bound = true; accepted = true })
            (map calls_for lines)
          ≡ (record { printed = lines; replies = length lines }, again))
unfolding client_main server_main
every_line_answered input rounds h enough =
    let (lines, all, e, a) =
      client_loop_lem rounds (record { printed = []; replies = 0 }) [] input h enough in
    let n = length lines in
    (
      lines,
      all,
      e
          ∙ at_end-same lines lines (0 + n) n (replicate n reply) (replicate n reply) refl
              (omega arith) refl,
      a ∙ goes_on-same lines lines (0 + n) n refl (omega arith),
    )
