-- ===== src/Echo.antt =====
-- kv-server/simple-server.c and simple-client.c: a server that answers every message with the same words, and a client
-- that sends what is typed. What the calls of the kernel return enters as their results.
pub mod Messages
pub mod Delivery
pub mod Epoll
use os333_iit_bombay_labs.Prelude.{
  ℕ, zero, suc, ◌+◌, ◌-◌, Bool, true, false, ◌&&◌, Option, none, some, List, [], ◌∷◌, ◌++◌, length,
  take, ltb, ◌==◌, if◌then◌else◌,
}
use os333_iit_bombay_labs.Prelude.Text.{Text, codes, c_string}

abbrev pub buffer_size : ℕ
buffer_size = 256

abbrev pub reply : Text
reply = codes "I got your message"

-- What the server has printed behind "Here is the message: ", and the replies it has written.
pub record Server : Type 0 where
  pub printed : List Text
  pub replies : ℕ

-- A loop goes on, or ends; or the program waits in a `read` that never returns, or prints a
-- message of failure and exits.
pub data Next : Type 0 where
  again stops blocked : Next
  exits : Text → Next

-- One round of the `do` loop: what `read` delivers into the buffer, where `none` is a result below 0 and
-- no bytes are the end of the connection, and what `write` returns, where `none` is a result below 0.
unfoldable pub answer : Option Text → Option ℕ → Server → Server × Next
answer none written s = (s, exits (codes "ERROR reading from socket"))
answer (some bytes) none s = (
  record s { printed = s.printed ++ c_string bytes ∷ [] },
  exits (codes "ERROR writing to socket"),
)
answer (some bytes) (some n) s = (
  record { printed = s.printed ++ c_string bytes ∷ []; replies = s.replies + 1 },
  if ltb 0 (length bytes) && ltb 0 n then again else stops,
)

-- The `do` loop, for the results of the calls in their order.
unfoldable pub serve_client : List (Option Text × Option ℕ) → Server → Server × Next
serve_client [] s = (s, again)
serve_client ((bytes, n) ∷ calls) s =
    let (s', next) = answer bytes n s in
    elim next [ again ↦ serve_client calls s' | end ↦ (s', end) ]

-- The calls before the loop: whether a port is given, and whether `socket`, `bind` and `accept` succeed.
pub record Setup : Type 0 where
  pub port_given : Bool
  pub socket_opened : Bool
  pub bound : Bool
  pub accepted : Bool

unfoldable pub server_main : Setup → List (Option Text × Option ℕ) → Server × Next
server_main setup calls =
    let first : Server = record { printed = []; replies = 0 } in
    if setup.port_given
    then (if setup.socket_opened
        then (if setup.bound
            then (if setup.accepted
                then serve_client calls first
                else (first, exits (codes "ERROR on accept")))
            else (first, exits (codes "ERROR on binding")))
        else (first, exits (codes "ERROR opening socket")))
    else (first, exits (codes "ERROR, no port provided\n"))

-- `fgets(buffer, n + 1, stdin)`: at most n bytes, up to a newline. Gives the line and the rest of the input.
unfoldable pub fgets : ℕ → Text → Text × Text
fgets zero input = ([], input)
fgets (suc n) [] = ([], [])
fgets (suc n) (b ∷ input) =
    let (line, rest) = fgets n input in if b == b'\n' then (b ∷ [], input) else (b ∷ line, rest)

-- What comes of a `write` of bytes and the `read` behind it.
pub data Exchange (S : Type 0) : Type 0 where
  write_failed read_failed waiting : S → Exchange S
  answered : S → Text → Exchange S

-- The input still to be typed, the other end, and what is printed behind the prompts.
pub record Client (S : Type 0) : Type 0 where
  pub stdin : Text
  pub remote : S
  pub screen : List Text

module _ {S : Type 0} (exchange : S → Text → Exchange S) where
  -- One round of the loop of the client.
  unfoldable pub converse : Client S → Client S × Next
  converse c =
      let (line, rest) = fgets 254 c.stdin in
      elim (exchange c.remote (c_string line)) [
        | write_failed s ↦
            (record c { stdin = rest; remote = s }, exits (codes "ERROR writing to socket"))
        | read_failed s ↦
            (record c { stdin = rest; remote = s }, exits (codes "ERROR reading from socket"))
        | waiting s ↦ (record c { stdin = rest; remote = s }, blocked)
        | answered s text ↦ (
          record {
            stdin = rest;
            remote = s;
            screen = c.screen ++ c_string (take (buffer_size - 1) text) ∷ [];
          },
          again,
        )
      ]

  -- That many rounds of `while(1)`.
  unfoldable pub client_loop : ℕ → Client S → Client S × Next
  client_loop zero c = (c, again)
  client_loop (suc rounds) c =
      let (c', next) = converse c in elim next [ again ↦ client_loop rounds c' | end ↦ (c', end) ]

abbrev pub delivered : Server × Next → Exchange Server
delivered (s, again) = answered s reply
delivered (s, stops) = read_failed s
delivered (s, blocked) = read_failed s
delivered (s, exits text) = read_failed s

-- The server at the other end of a connection that delivers one `write` to one `read`. No bytes are
-- no message: then both programs wait in `read`.
unfoldable pub to_server : Server → Text → Exchange Server
to_server s [] = waiting s
to_server s (b ∷ bytes) =
    delivered (answer (some (take (buffer_size - 1) (b ∷ bytes))) (some (length reply)) s)

-- The calls before the loop of the client: whether a host and a port are given, and whether `socket`,
-- `gethostbyname` and `connect` succeed.
pub record Target : Type 0 where
  pub host_given : Bool
  pub opened : Bool
  pub host_found : Bool
  pub connected : Bool

unfoldable pub client_main :
    {S : Type 0} → (S → Text → Exchange S) → Target → ℕ → Client S → Client S × Next
client_main exchange target rounds c =
    if target.host_given
    then (if target.opened
        then (if target.host_found
            then (if target.connected
                then client_loop exchange rounds c
                else (c, exits (codes "ERROR connecting")))
            else (c, exits (codes "ERROR, no such host\n")))
        else (c, exits (codes "ERROR opening socket")))
    else (c, exits (codes "usage"))
