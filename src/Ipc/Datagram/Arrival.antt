-- ===== src/Ipc/Datagram/Arrival.antt =====
-- A file or a line on its way through the socket of ipc-code: from socket-client.c to socket-server.c, and from
-- socket-client-orig.c to socket-server-orig.c.
use os333_iit_bombay_labs.Prelude.{
  ◌∙◌, ℕ, zero, suc, ◌+◌, ◌≤◌, ◌≡◌, ◌≢◌, refl, ap, true, false, some, List, [], ◌∷◌, ◌++◌, length,
  take, write, set, suc, zero, write-some, Option, ◌==◌, arith, All, All-append, length-append,
}
use os333_iit_bombay_labs.Prelude.Text.{Text, codes, c_string}
use os333_iit_bombay_labs.Echo.{fgets}
use os333_iit_bombay_labs.Echo.Messages.{IsText, c_string-text, take-all}
use os333_iit_bombay_labs.Ipc.SharedText.Reading.{overwrite_lem, string_in-append}
use os333_iit_bombay_labs.Ipc.Datagram.{
  Ending, automatic, free, fill_buffer, returns, announced, receive, orig_server_main, server_main,
  orig_client_main, Sending, send_file, client_main,
}

-- The byte 0 behind a text ends the string.
pub c_string-append : (t rest : Text) → IsText t → c_string (t ++ 0 ∷ rest) ≡ t
unfolding c_string
c_string-append [] rest h = refl
c_string-append (b ∷ t) rest h =
    let other : (b == 0) ≡ false = ground (arith, h.0) in
    rw (other) (ap (λ (r : Text). b ∷ r) (c_string-append t rest h.1))

take-IsText : (n : ℕ) (t : Text) → IsText t → IsText (take n t)
take-IsText zero t h = tt
take-IsText (suc n) [] h = tt
take-IsText (suc n) (b ∷ t) h = (h.0, take-IsText n t h.1)

-- A line that fits is read with its newline.
fgets-line :
    (n : ℕ) (l rest : Text)
    → All (λ b. b ≢ b'\n') l
    → length l + 1 ≤ n
    → (fgets n (l ++ b'\n' ∷ rest)).0 ≡ l ++ b'\n' ∷ []
unfolding fgets
fgets-line zero l rest h fits = absurd (omega arith)
fgets-line (suc n) [] rest h fits = refl
fgets-line (suc n) (b ∷ l) rest h fits =
    let other : (b == b'\n') ≡ false = ground (arith, h.0) in
    rw (other) (ap (λ (r : Text). b ∷ r) (fgets-line n l rest h.1 (omega arith)))

-- `malloc` gives blocks of the size it is asked for, whatever they hold.
abbrev pub GivesBlocks : (ℕ → Option Text) → Type 0
GivesBlocks malloc = (n : ℕ) → (block : Text) × (malloc n ≡ some block) × (length block ≡ n)

set-last : (t rest : Text) → length rest ≡ 1 → set (t ++ rest) (length t) 0 ≡ t ++ 0 ∷ []
set-last [] [] h = absurd (omega (arith, h))
set-last [] (x ∷ []) h = refl
set-last [] (x ∷ y ∷ rest) h = absurd (omega (arith, h))
set-last (b ∷ t) rest h = ap (λ (r : Text). b ∷ r) (set-last t rest h)

-- One byte behind what is read.
write-last : (t rest : Text) → length rest ≡ 1 → write (t ++ rest) (length t) 0 ≡ some (t ++ 0 ∷ [])
write-last t rest h =
    write-some (t ++ rest) (length t) 0 (omega (arith, h, length-append t rest))
    ∙ ap some (set-last t rest h)

-- The buffer holds the whole file and a byte 0 behind it.
fill_buffer_lem :
    (contents block : Text)
    → IsText contents
    → length block ≡ length contents + 1
    → fill_buffer contents block ≡ some contents
unfolding fill_buffer
fill_buffer_lem contents block h size =
    let (rest, e, sum) = overwrite_lem contents block (omega (arith, size)) in
    rw (e, write-last contents rest (omega (arith, sum, size))) (string_in-append contents [] h)

-- The client where every call succeeds, and the screen of a server that has received this.
abbrev pub of_file : (ℕ → Option Text) → Text → Sending
of_file malloc contents = record {
  argument = true;
  socket_opened = true;
  file = some contents;
  malloc = malloc;
  sent = true;
}

abbrev pub shows : Text → List Text
shows message = codes "Server ready\n" ∷ announced message ∷ []

-- Whatever the block holds that `malloc` gives, the client accesses nothing outside it and sends a file without the
-- byte 0 whole; the server shows its first 255 bytes, and frees an array.
pub file_arrives :
    (malloc : ℕ → Option Text) (contents : Text)
    → GivesBlocks malloc
    → IsText contents
    → (client_main (of_file malloc contents) ≡ (([], some contents), returns 0))
      × (server_main true true (client_main (of_file malloc contents)).0.1
          ≡ (shows (take 255 contents), free automatic))
unfolding client_main send_file server_main receive
file_arrives malloc contents gives h =
    let (block, e, size) = gives (length contents + 1) in
    let whole = fill_buffer_lem contents block h size in
    let part = c_string-text (take 255 contents) (take-IsText 255 contents h) in
    let sent : client_main (of_file malloc contents) ≡ (([], some contents), returns 0) =
      rw (e, whole) refl in
    let received : server_main true true (some contents)
        ≡ (shows (take 255 contents), free automatic) =
      rw (part) refl in
    (
      sent,
      ap (λ (r : (List Text × Option Text) × Ending). server_main true true r.0.1) sent ∙ received,
    )

-- A line of at most 253 bytes, with no byte 0, that the first client reads is shown whole by the first server, with its
-- newline, and both return 0.
line_arrives :
    (l rest : Text)
    → IsText l
    → All (λ b. b ≢ b'\n') l
    → length l ≤ 253
    → (orig_client_main true true (l ++ b'\n' ∷ rest) ≡ (some (l ++ b'\n' ∷ []), returns 0))
      × (orig_server_main true true (orig_client_main true true (l ++ b'\n' ∷ rest)).0
          ≡ (shows (l ++ b'\n' ∷ []), returns 0))
unfolding orig_client_main orig_server_main receive
line_arrives l rest h lines fits =
    let line = fgets-line 254 l rest lines (omega arith) in
    let whole =
      c_string-text (l ++ b'\n' ∷ [])
        (All-append (λ b. b ≢ 0) l (b'\n' ∷ []) h (λ e. omega arith, tt)) in
    let fitting = take-all 255 (l ++ b'\n' ∷ []) (omega (arith, length-append l (b'\n' ∷ []))) in
    (rw (line, whole) refl, rw (line, whole, fitting, whole) refl)
