-- ===== src/Tests/Client.antt =====
-- Runs of kv-server/kv-client.c.
use os333_iit_bombay_labs.Prelude.{
  ℕ, ◌-◌, ◌≡◌, refl, true, ◌&&◌, Option, none, some, List, [], ◌∷◌, length, get_or, drop, ◌<◌, All,
  replicate, false, arith, write, leb, ◌==◌, if◌then◌else◌, ◌>>=◌,
}
use os333_iit_bombay_labs.Prelude.Int.{ℤ, pos, negsuc}
use os333_iit_bombay_labs.Prelude.Text.{Text, codes, text_eq, has_prefix, c_string}
use os333_iit_bombay_labs.Kv.{
  Store, static_store, not_found, find_key, handle_create, read_value, update_value, delete_value,
}
use os333_iit_bombay_labs.Kv.Refine.{empty_map, static_store-Refines}
use os333_iit_bombay_labs.Kv.Session.{Scan, do_create, do_read, do_update, do_delete, respond}
use os333_iit_bombay_labs.Kv.Client.{
  Client, Input, not_connected, usage, connect_to_server, disconnect_from_server, send_command,
  handle_connect, handle_input, main_loop, Ending, running, finished, failed,
}
use os333_iit_bombay_labs.Kv.Client.Dialogue.{dialogue}
use os333_iit_bombay_labs.Kv.Client.Follows.{Fits, Follows, is_online}
use os333_iit_bombay_labs.Kv.Client.Rounds.{store_service}
use os333_iit_bombay_labs.Kv.Client.Refine.{main_loop-Refines}

program : Unit {0}
unfolding static_store find_key handle_create read_value update_value delete_value do_create do_read
    do_update do_delete respond text_eq has_prefix c_string write connect_to_server
    disconnect_from_server send_command handle_connect handle_input main_loop
program = tt

-- A stand-in for `sscanf` that reads one digit for the key.
abbrev digit : ℕ → Option ℤ
digit c = if leb b'0' c && leb c b'9' then some (pos (c - b'0')) else none

abbrev one_digit : Scan
one_digit = record {
  pair = λ t. digit (get_or t 0 0) >>= λ k. if leb 3 (length t) then some (k, drop 2 t) else none;
  key = λ t. digit (get_or t (if get_or t 0 0 == b' ' then 1 else 0) 0);
}

-- A line, with an address where it needs one, and a `connect` that succeeds.
abbrev typed : Text → Input
typed line = record {
  line = line;
  ip = some (codes "127.0.0.1");
  port_given = true;
  opened = pos 3;
  connects = true;
}

abbrev session : List Input
session =
    typed (codes "read 5")
    ∷ typed (codes "connect 127.0.0.1 5000")
    ∷ typed (codes "create 5 abc")
    ∷ typed (codes "read 5")
    ∷ typed (codes "read 6")
    ∷ typed (codes "exit")
    ∷ typed (codes "read 5")
    ∷ []

abbrev unconnected : Client Store
unconnected = record { sockfd = negsuc 0; remote = static_store; screen = [] }

abbrev screen_of : Option (Ending Store) → List Text
screen_of none = []
screen_of (some (running c)) = []
screen_of (some (finished c)) = c.screen
screen_of (some (failed c)) = []

session_run :
    screen_of (main_loop (store_service one_digit) session unconnected)
    ≡ not_connected
      ∷ codes "OK\n"
      ∷ codes "OK\n"
      ∷ codes "Value: abc\n"
      ∷ not_found
      ∷ codes "OK\n"
      ∷ []
unfolding program
session_run = refl

-- A word of 100 bytes does not fit into `ip`.
long_address :
    handle_connect
      (store_service one_digit)
      (record (typed (codes "connect")) { ip = some (replicate 100 b'1') })
      unconnected
    ≡ none
unfolding program
long_address = refl

-- Without a port, `sscanf` has found one word, and nothing is connected.
no_port :
    handle_connect
      (store_service one_digit)
      (record (typed (codes "connect 1")) { port_given = false })
      unconnected
    ≡ some (running (record unconnected { screen = usage ∷ [] }))
unfolding program
no_port = refl

session-Fits : All Fits session
session-Fits =
    let short : 9 < 100 = omega arith in
    (short, (short, (short, (short, (short, (short, (short, tt)))))))

main_loop-Refines_example :
    Follows []
      (main_loop (store_service one_digit) session unconnected)
      (dialogue one_digit session (is_online unconnected) empty_map)
main_loop-Refines_example =
    main_loop-Refines one_digit session unconnected empty_map session-Fits static_store-Refines
