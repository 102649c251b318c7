-- ===== src/Echo/Messages.antt =====
-- One message from kv-server/simple-client.c to simple-server.c: what fgets reads, and what the server makes of it.
use os333_iit_bombay_labs.Prelude.{
  ℕ, zero, suc, ◌+◌, ◌≤◌, ◌≡◌, ◌≢◌, refl, ap, ◌∙◌, inl, inr, true, false, Option, some, List, [],
  ◌∷◌, ◌++◌, length, take, ltb, ◌==◌, arith, Bool-cases, All, length-append,
}
use os333_iit_bombay_labs.Prelude.Text.{Text, c_string}
use os333_iit_bombay_labs.Echo.{
  reply, Server, answered, delivered, answer, Next, again, fgets, to_server, serve_client,
}

abbrev pub joined : List Text → Text
joined [] = []
joined (t ∷ ts) = t ++ joined ts

abbrev pub IsText : Text → Type 0
IsText = All (λ b. b ≢ 0)

-- A line and the rest are the input, the line fits, and is not empty where there is input.
pub fgets_lem :
    (n : ℕ) (input : Text)
    → ((fgets n input).0 ++ (fgets n input).1 ≡ input) × (length (fgets n input).0 ≤ n)
unfolding fgets
fgets_lem zero input = (refl, omega arith)
fgets_lem (suc n) [] = (refl, omega arith)
fgets_lem (suc n) (b ∷ input) = elim (Bool-cases (b == b'\n')) [
  | inl end ↦ (rw (end) refl, rw (end) (omega arith))
  | inr more ↦
      let (parts, fits) = fgets_lem n input in
      (rw (more) (ap (λ (r : Text). b ∷ r) parts), rw (more) (omega (arith, fits)))
]

pub fgets_some :
    (n b : ℕ) (input : Text)
    → (l : Text) × ((fgets (suc n) (b ∷ input)).0 ≡ b ∷ l)
      × (length (fgets (suc n) (b ∷ input)).1 ≤ length input)
unfolding fgets
fgets_some n b input = elim (Bool-cases (b == b'\n')) [
  | inl end ↦ ([], rw (end) refl, rw (end) (omega arith))
  | inr more ↦
      let (parts, fits) = fgets_lem n input in
      (
        (fgets n input).0,
        rw (more) refl,
        rw (more) (
            omega (
              arith,
              ap (λ (r : Text). length r) parts,
              length-append (fgets n input).0 (fgets n input).1,
            )),
      )
]

pub c_string-text : (t : Text) → IsText t → c_string t ≡ t
unfolding c_string
c_string-text [] h = refl
c_string-text (b ∷ t) h =
    let other : (b == 0) ≡ false = ground (arith, h.0) in
    rw (other) (ap (λ (r : Text). b ∷ r) (c_string-text t h.1))

pub take-all : (n : ℕ) (t : Text) → length t ≤ n → take n t ≡ t
take-all zero [] h = refl
take-all zero (b ∷ t) h = absurd (omega arith)
take-all (suc n) [] h = refl
take-all (suc n) (b ∷ t) h = ap (λ (r : Text). b ∷ r) (take-all n t (omega arith))

abbrev pub with_line : Server → Text → Server
with_line s line = record { printed = s.printed ++ line ∷ []; replies = s.replies + 1 }

pub answer_lem :
    (s : Server) (b : ℕ) (l : Text)
    → IsText (b ∷ l)
    → answer (some (b ∷ l)) (some (length reply)) s ≡ (with_line s (b ∷ l), again)
unfolding answer
answer_lem s b l h =
    let some_read : ltb 0 (length (b ∷ l)) ≡ true = ground arith in
    rw (c_string-text (b ∷ l) h, some_read) refl

pub to_server_lem :
    (s : Server) (b : ℕ) (l : Text)
    → IsText (b ∷ l)
    → length (b ∷ l) ≤ 254
    → to_server s (b ∷ l) ≡ answered (with_line s (b ∷ l)) reply
unfolding to_server
to_server_lem s b l h fits =
    let whole : take 255 (b ∷ l) ≡ b ∷ l = take-all 255 (b ∷ l) (omega arith) in
    ap (λ (t : Text). delivered (answer (some t) (some 18) s)) whole
    ∙ ap delivered (answer_lem s b l h)

-- What the server reads and writes for a message.
abbrev pub calls_for : Text → Option Text × Option ℕ
calls_for line = (some line, some (length reply))

pub serve_again :
    (s s' : Server) (line : Text) (calls : List (Option Text × Option ℕ))
    → answer (some line) (some (length reply)) s ≡ (s', again)
    → serve_client (calls_for line ∷ calls) s ≡ serve_client calls s'
unfolding serve_client
serve_again s s' line calls e =
    ap (λ (r : Server × Next). elim r.1 [ again ↦ serve_client calls r.0 | end ↦ (r.0, end) ]) e
