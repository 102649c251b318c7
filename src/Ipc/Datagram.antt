-- ===== src/Ipc/Datagram.antt =====
-- ipc-code/socket-server.c and socket-client.c, the programs socket-server-orig.c and socket-client-orig.c that they grew
-- from, and pipe.c. What the calls of the kernel return enters as their results; a call that fails is `false` or `none`.
pub mod Arrival
use os333_iit_bombay_labs.Prelude.{
  ℕ, zero, ◌+◌, ◌-◌, Bool, true, false, Option, none, some, List, [], ◌∷◌, ◌++◌, take, length,
  write, ◌>>=◌, if◌then◌else◌,
}
use os333_iit_bombay_labs.Prelude.Text.{Text, codes, c_string}
use os333_iit_bombay_labs.Ipc.SharedText.{overwrite, string_in}
use os333_iit_bombay_labs.Echo.{buffer_size, fgets}

-- A program returns from `main`, calls `exit` behind a message of failure, or frees or reads what it must not.
pub data Ending : Type 0 where
  returns : ℕ → Ending
  exits : Text → Ending
  faults : Ending

abbrev pub announced : Text → Text
announced message = codes "Here is the message: " ++ message ++ codes "\n"

-- The two servers, up to their `unlink`: what they print, and whether they get there.
unfoldable pub receive : Bool → Bool → Option Text → List Text × Option Text
receive false bound datagram = ([], some (codes "ERROR opening socket"))
receive true false datagram = ([], some (codes "ERROR on binding"))
receive true true none = (codes "Server ready\n" ∷ [], some (codes "ERROR reading from socket"))
receive true true (some bytes) =
    (codes "Server ready\n" ∷ announced (c_string (take (buffer_size - 1) bytes)) ∷ [], none)

-- socket-server-orig.c
unfoldable pub orig_server_main : Bool → Bool → Option Text → List Text × Ending
orig_server_main opened bound datagram =
    let (screen, failure) = receive opened bound datagram in
    elim failure [ some text ↦ (screen, exits text) | none ↦ (screen, returns 0) ]

-- `free`, of what `malloc` has given, and of an array.
pub data Storage : Type 0 where
  allocated automatic : Storage

abbrev pub free : Storage → Ending
free allocated = returns 0
free automatic = faults

-- socket-server.c, where `buffer` is an array.
unfoldable pub server_main : Bool → Bool → Option Text → List Text × Ending
server_main opened bound datagram =
    let (screen, failure) = receive opened bound datagram in
    elim failure [ some text ↦ (screen, exits text) | none ↦ (screen, free automatic) ]

-- socket-client-orig.c, behind its prompt, on an input: the datagram, if `sendto` sends it.
unfoldable pub orig_client_main : Bool → Bool → Text → Option Text × Ending
orig_client_main false sent stdin = (none, exits (codes "ERROR opening socket"))
orig_client_main true false stdin = (none, exits (codes "ERROR writing to socket"))
orig_client_main true true stdin = (some (c_string (fgets 254 stdin).0), returns 0)

-- What socket-client.c finds: the file of its argument, the block that `malloc` gives for a size, if it gives one, and
-- whether `socket` and `sendto` succeed.
pub record Sending : Type 0 where
  pub argument : Bool
  pub socket_opened : Bool
  pub file : Option Text
  pub malloc : ℕ → Option Text
  pub sent : Bool

-- `fread`, the byte 0 behind it, and the string that `sendto` takes from the buffer. `none` is an access outside it.
unfoldable pub fill_buffer : Text → Text → Option Text
fill_buffer contents block =
    overwrite contents block >>= λ read. write read (length contents) 0 >>= string_in

-- `fopen`, `malloc`, the buffer, and `sendto`, with the complaints.
unfoldable pub send_file :
    Option Text → (ℕ → Option Text) → Bool → List Text → (List Text × Option Text) × Ending
send_file none malloc sent log = ((log ++ codes "ERROR opening file" ∷ [], none), returns 1)
send_file (some contents) malloc sent log = elim (malloc (length contents + 1)) [
  | none ↦ ((log ++ codes "Memory allocation failed" ∷ [], none), returns 1)
  | some block ↦ elim (fill_buffer contents block) [
    | none ↦ ((log, none), faults)
    | some text ↦
        if sent
        then ((log, some text), returns 0)
        else ((log ++ codes "ERROR writing to socket" ∷ [], none), returns 0)
  ]
]

-- socket-client.c: complaints, the datagram, and the end. A failure of `socket` is only complained of.
unfoldable pub client_main : Sending → (List Text × Option Text) × Ending
client_main s =
    let log : List Text = if s.socket_opened then [] else codes "ERROR opening socket" ∷ [] in
    if s.argument
    then send_file s.file s.malloc (if s.socket_opened then s.sent else false) log
    else (([], none), faults)

-- pipe.c: the child, on what it reads, and the parent, with what it writes.
abbrev pub pipe_message : Text
pipe_message = codes "Hello from the parent process!\n" ++ 0 ∷ []

abbrev pub child_prints : Text → Text
child_prints bytes = codes "Child process received: " ++ c_string (take 100 bytes)

-- What the two processes print where `pipe` and `fork` succeed.
unfoldable pub pipe_main : Bool → Bool → Text × Ending
pipe_main false forked = ([], exits (codes "Pipe creation failed"))
pipe_main true false = ([], exits (codes "Fork failed"))
pipe_main true true = (child_prints pipe_message, returns 0)
