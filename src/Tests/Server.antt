-- ===== src/Tests/Server.antt =====
-- Runs of kv-server/kv-server.c.
use os333_iit_bombay_labs.Prelude.{
  ℕ, ◌-◌, ◌≡◌, refl, true, ◌&&◌, Option, none, some, List, [], ◌∷◌, length, get_or, drop, write,
  leb, ◌==◌, if◌then◌else◌, ◌>>=◌,
}
use mathlib.Core.Option
use os333_iit_bombay_labs.Prelude.Int.{ℤ, pos}
use os333_iit_bombay_labs.Prelude.Text.{Text, codes, has_prefix, c_string}
use os333_iit_bombay_labs.Kv.{
  Store, static_store, ok_msg, key_exists, not_found, find_key, handle_create, read_value,
  update_value, delete_value,
}
use os333_iit_bombay_labs.Kv.Refine.{
  KvMap, empty_map, Refines, Implements, static_store-Refines, spec_create, spec_delete,
  read_value_implements, handle_create-Implements, delete_value-Implements,
}
use os333_iit_bombay_labs.Kv.Session.{
  Scan, value_reply, unknown_command, do_create, do_read, do_update, do_delete, respond, serve,
  accept_all,
}
use os333_iit_bombay_labs.Kv.Session.Connections.{spec_accept_all, accept_all-Refines}

program : Unit {0}
unfolding static_store find_key handle_create read_value update_value delete_value do_create do_read
    do_update do_delete respond serve accept_all has_prefix c_string write
program = tt

-- A stand-in for `sscanf` that reads one digit for the key.
abbrev digit : ℕ → Option ℤ
digit c = if leb b'0' c && leb c b'9' then some (pos (c - b'0')) else none

abbrev one_digit : Scan
one_digit = record {
  pair = λ t. digit (get_or t 0 0) >>= λ k. if leb 3 (length t) then some (k, drop 2 t) else none;
  key = λ t. digit (get_or t (if get_or t 0 0 == b' ' then 1 else 0) 0);
}

abbrev client : List (List ℕ)
client =
    codes "create 5 abc"
    ∷ codes "read 5"
    ∷ codes "create 5 x"
    ∷ codes "update 5 y"
    ∷ codes "real 5"
    ∷ codes "delete 5"
    ∷ codes "read 5"
    ∷ codes "hello"
    ∷ codes "disconnect"
    ∷ codes "read 5"
    ∷ []

abbrev answers : List Text
answers =
    ok_msg
    ∷ value_reply (codes "abc")
    ∷ key_exists
    ∷ ok_msg
    ∷ value_reply (codes "y")
    ∷ ok_msg
    ∷ not_found
    ∷ unknown_command
    ∷ ok_msg
    ∷ []

-- Any word that begins with "rea" is a read.
session_run : Option.map (λ r. r.1) (serve one_digit static_store client) ≡ some answers
unfolding program
session_run = refl

-- The store with the pair 5, "abc".
abbrev one_pair : Option (Store × Text)
one_pair = handle_create true static_store (pos 5) (codes "abc")

abbrev one_map : KvMap
one_map = (spec_create empty_map (pos 5) (codes "abc")).0

created-Implements : Implements one_pair (spec_create empty_map (pos 5) (codes "abc"))
created-Implements = handle_create-Implements static_store-Refines (pos 5) (codes "abc")

abbrev stored : Store
stored = created-Implements.0

read_value_implements_example : read_value stored (pos 5) ≡ some (one_map.find (pos 5))
read_value_implements_example = read_value_implements created-Implements.2 (pos 5)

deleted-Implements : Implements (delete_value stored (pos 5)) (spec_delete one_map (pos 5))
deleted-Implements = delete_value-Implements created-Implements.2 (pos 5)

accept_all-Refines_example :
    (s' : Store) × (accept_all one_digit static_store (client ∷ client ∷ [])
      ≡ some (s', (spec_accept_all one_digit empty_map (client ∷ client ∷ [])).1))
    × Refines s' (spec_accept_all one_digit empty_map (client ∷ client ∷ [])).0
accept_all-Refines_example =
    accept_all-Refines one_digit (client ∷ client ∷ []) static_store-Refines
