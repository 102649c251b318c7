-- ===== src/Kv/Session.antt =====
-- The server loop of kv-server/kv-server.c: one request, one connection, and all connections.
-- `sscanf` is a parameter. A connection is the list of the buffers that `read` fills, and ends where
-- the list ends, as at a `read` that returns 0 or less.
pub mod Laws
pub mod Connections
use os333_iit_bombay_labs.Prelude.{
  ℕ, zero, suc, ◌-◌, Bool, true, false, Option, none, some, List, [], ◌∷◌, ◌++◌, take, drop,
  if◌then◌else◌, ◌>>=◌,
}
use os333_iit_bombay_labs.Prelude.Int.{ℤ}
use os333_iit_bombay_labs.Prelude.Text.{Text, codes, has_prefix, c_string}
use os333_iit_bombay_labs.Kv.{
  Store, ok_msg, not_found, handle_create, read_value, update_value, delete_value,
}

abbrev pub buffer_size : ℕ
buffer_size = 1024

-- `sscanf` on the two formats of the server.
pub record Scan : Type 0 where
  pub pair : Text → Option (ℤ × Text)  -- "%d %[^\n]", where it returns 2
  pub key : Text → Option ℤ  -- "%d", where it returns 1

abbrev pub invalid : Text → Text
invalid command = codes "Error: Invalid " ++ command ++ codes " command\n"

abbrev pub unknown_command : Text
unknown_command = codes "Error: Unknown command\n"

-- `snprintf(response, BUFFER_SIZE, "Value: %s\n", value)`
abbrev pub value_reply : Text → Text
value_reply value = take (buffer_size - 1) (codes "Value: " ++ value ++ codes "\n")

-- `buffer + n` as `sscanf` reads it. The buffer is the bytes read, with zeros behind them.
abbrev pub rest_at : ℕ → List ℕ → Text
rest_at n buffer = c_string (drop n buffer)

-- What a request leaves: the store, the bytes written, and whether the server closes the connection.
pub record Reply : Type 0 where
  pub after : Store
  pub written : Text
  pub closes : Bool

abbrev pub reply : Store × Text → Option Reply
reply (s, text) = some (record { after = s; written = text; closes = false })

module _ (scan : Scan) where
  unfoldable pub do_create : Store → List ℕ → Option Reply
  do_create s buffer = elim (scan.pair (rest_at 7 buffer)) [
    | some (key, value) ↦ handle_create true s key value >>= reply
    | none ↦ reply (s, invalid (codes "create"))
  ]

  unfoldable pub do_read : Store → List ℕ → Option Reply
  do_read s buffer = elim (scan.key (rest_at 4 buffer)) [
    | some key ↦ read_value s key >>= λ found. elim found [
      | some value ↦ reply (s, value_reply value)
      | none ↦ reply (s, not_found)
    ]
    | none ↦ reply (s, invalid (codes "find"))
  ]

  unfoldable pub do_update : Store → List ℕ → Option Reply
  do_update s buffer = elim (scan.pair (rest_at 7 buffer)) [
    | some (key, value) ↦ update_value true s key value >>= reply
    | none ↦ reply (s, invalid (codes "update"))
  ]

  unfoldable pub do_delete : Store → List ℕ → Option Reply
  do_delete s buffer = elim (scan.key (rest_at 7 buffer)) [
    | some key ↦ delete_value s key >>= reply
    | none ↦ reply (s, invalid (codes "delete"))
  ]

  -- The `if` chain of the inner loop, for a `read` that returned bytes.
  unfoldable pub respond : Store → List ℕ → Option Reply
  respond s buffer =
      if has_prefix (codes "create") buffer
      then do_create s buffer
      else if has_prefix (codes "rea") buffer
      then do_read s buffer
      else if has_prefix (codes "update") buffer
      then do_update s buffer
      else if has_prefix (codes "delete") buffer
      then do_delete s buffer
      else if has_prefix (codes "disconnect") buffer
      then some (record { after = s; written = ok_msg; closes = true })
      else reply (s, unknown_command)

  -- One connection: the store afterwards, and all that was written.
  unfoldable pub serve : Store → List (List ℕ) → Option (Store × List Text)
  serve s [] = some (s, [])
  serve s (buffer ∷ buffers) = respond s buffer >>= λ r.
      if r.closes
      then some (r.after, r.written ∷ [])
      else (serve r.after buffers >>= λ (s', texts). some (s', r.written ∷ texts))

  -- The outer loop, one connection after another.
  unfoldable pub accept_all : Store → List (List (List ℕ)) → Option (Store × List (List Text))
  accept_all s [] = some (s, [])
  accept_all s (client ∷ clients) = serve s client >>= λ (s', texts).
      accept_all s' clients >>= λ (s'', more). some (s'', texts ∷ more)
