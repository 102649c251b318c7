-- ===== src/Kv/Client.antt =====
-- kv-server/kv-client.c: the prompt of the client. What it talks to is a parameter: the answer to the
-- bytes of one `write`, as the next `read` delivers it.
pub mod Dialogue
pub mod Follows
pub mod Rounds
pub mod Refine
use os333_iit_bombay_labs.Prelude.{
  ℕ, ◌-◌, Bool, true, false, not, ◌||◌, Option, none, some, List, [], ◌∷◌, ◌++◌, take, length, ltb,
  if◌then◌else◌, ◌>>=◌,
}
use os333_iit_bombay_labs.Prelude.Int.{ℤ, pos, negsuc, eqb}
use os333_iit_bombay_labs.Prelude.Text.{Text, codes, text_eq, has_prefix, c_string}

abbrev pub buffer_size : ℕ
buffer_size = 1024

-- The global `sockfd`, the state of the other end, and the lines printed.
pub record Client (S : Type 0) : Type 0 where
  pub sockfd : ℤ
  pub remote : S
  pub screen : List Text

-- The client goes on, leaves its loop, or calls `exit(1)`.
pub data Ending (S : Type 0) : Type 0 where
  running finished failed : Client S → Ending S

-- A line that `fgets` reads, without its newline, the word that `sscanf` finds behind "connect", if it finds one, and
-- whether it finds a port behind it, and what `socket` and `connect` return for it.
pub record Input : Type 0 where
  pub line : Text
  pub ip : Option Text
  pub port_given : Bool
  pub opened : ℤ
  pub connects : Bool

abbrev pub ip_size : ℕ
ip_size = 100

abbrev pub not_connected : Text
not_connected = codes "Error: Not connected\n"

abbrev pub usage : Text
usage = codes "Usage: connect <ip> <port>\n"

abbrev pub print : {S : Type 0} → Text → Client S → Client S
print text c = record c { screen = c.screen ++ text ∷ [] }

abbrev pub is_negative : ℤ → Bool
is_negative (pos _) = false
is_negative (negsuc _) = true

unfoldable pub connect_to_server : {S : Type 0} → Input → Client S → Ending S
connect_to_server i c =
    if not (eqb c.sockfd (negsuc 0))
    then running (print (codes "Error: Already connected\n") c)
    else if is_negative i.opened
    then failed (record c { sockfd = i.opened })
    else if i.connects
    then running (print (codes "OK\n") (record c { sockfd = i.opened }))
    else running (print (codes "Error: Connection failed\n") (record c { sockfd = negsuc 0 }))

-- The four words that begin a command.
abbrev pub is_command : Text → Bool
is_command line =
    has_prefix (codes "create") line
    || has_prefix (codes "read") line
    || has_prefix (codes "update") line
    || has_prefix (codes "delete") line

module _ {S : Type 0} (service : S → Text → Option (S × Text)) where
  unfoldable pub disconnect_from_server : Client S → Option (Client S)
  disconnect_from_server c =
      let close : Option (Client S) = service c.remote (codes "disconnect") >>= λ (remote', answer).
      some
        (record { sockfd = negsuc 0; remote = remote'; screen = c.screen ++ codes "OK\n" ∷ [] }) in
      if eqb c.sockfd (negsuc 0) then some (print not_connected c) else close

  unfoldable pub send_command : Text → Client S → Option (Client S)
  send_command cmd c =
      let send : Option (Client S) = service c.remote cmd >>= λ (remote', answer). some (record c {
        remote = remote';
        screen = c.screen ++ c_string (take (buffer_size - 1) answer) ∷ [];
      }) in
      if eqb c.sockfd (negsuc 0) then some (print not_connected c) else send

  -- The branch of "connect". `sscanf` writes the word into `ip`, with a byte 0 behind it; `none` is an access outside.
  unfoldable pub handle_connect : Input → Client S → Option (Ending S)
  handle_connect i c = elim i.ip [
    | none ↦ some (running (print usage c))
    | some ip ↦
        if ltb (length ip) ip_size
        then (if i.port_given then some (connect_to_server i c) else some (running (print usage c)))
        else none
  ]

  -- One round of the loop of `main`.
  unfoldable pub handle_input : Input → Client S → Option (Ending S)
  handle_input i c =
      if has_prefix (codes "connect") i.line
      then handle_connect i c
      else if has_prefix (codes "disconnect") i.line
      then (disconnect_from_server c >>= λ c'. some (running c'))
      else if is_command i.line
      then (send_command i.line c >>= λ c'. some (running c'))
      else if text_eq i.line (codes "exit")
      then (disconnect_from_server c >>= λ c'. some (finished c'))
      else some (running (print (codes "Unknown command\n") c))

  unfoldable pub main_loop : List Input → Client S → Option (Ending S)
  main_loop [] c = some (running c)
  main_loop (i ∷ inputs) c = handle_input i c >>= λ e. elim e [
    | running c' ↦ main_loop inputs c'
    | finished c' ↦ some (finished c')
    | failed c' ↦ some (failed c')
  ]
