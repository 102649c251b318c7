-- ===== src/Kv/Session/Laws.antt =====
-- What a connection to kv-server/kv-server.c means: requests as commands on a map, and that the
-- server answers every sequence of buffers as the map does.
use os333_iit_bombay_labs.Prelude.{
  ℕ, ◌≡◌, refl, inl, inr, Bool, true, false, Option, none, some, List, if◌then◌else◌, ◌>>=◌,
  Bool-cases,
}
use os333_iit_bombay_labs.Prelude.Int.{ℤ}
use os333_iit_bombay_labs.Prelude.Text.{Text, codes, has_prefix}
use os333_iit_bombay_labs.Kv.{Store, ok_msg, not_found, read_value}
use os333_iit_bombay_labs.Kv.Refine.{
  KvMap, Implements, spec_create, spec_update, spec_delete, Refines, read_value_implements,
  handle_create-Implements, update_value-Implements, delete_value-Implements,
}
use os333_iit_bombay_labs.Kv.Session.{
  Scan, invalid, unknown_command, value_reply, rest_at, Reply, reply, do_create, do_read, do_update,
  do_delete, respond,
}

-- A request, once it has been read.
pub data Command : Type 0 where
  create update : ℤ → Text → Command
  read delete : ℤ → Command
  malformed : Text → Command
  disconnect unknown : Command

-- What a command does to the map, writes, and whether it ends the connection.
pub record Effect : Type 0 where
  pub after : KvMap
  pub written : Text
  pub closes : Bool

abbrev going : KvMap × Text → Effect
going (m, text) = record { after = m; written = text; closes = false }

value_or : Option Text → Text
value_or none = not_found
value_or (some v) = value_reply v

unfoldable pub perform : KvMap → Command → Effect
unfolding value_or
perform m (create k v) = going (spec_create m k v)
perform m (read k) = going (m, value_or (m.find k))
perform m (update k v) = going (spec_update m k v)
perform m (delete k) = going (spec_delete m k)
perform m (malformed name) = going (m, invalid name)
perform m disconnect = record { after = m; written = ok_msg; closes = true }
perform m unknown = going (m, unknown_command)

-- A reply of the server that has the effect on the map.
pub record Answers (run : Option Reply) (e : Effect) : Type 0 where
  pub answer : Reply
  pub ran : run ≡ some answer
  pub after : Refines answer.after e.after
  pub written : answer.written ≡ e.written
  pub closes : answer.closes ≡ e.closes

module _ (scan : Scan) where
  pair_command : (ℤ → Text → Command) → Text → List ℕ → Command
  pair_command c name buffer = elim (scan.pair (rest_at 7 buffer)) [
    | some (k, v) ↦ c k v
    | none ↦ malformed name
  ]

  key_command : (ℤ → Command) → Text → ℕ → List ℕ → Command
  key_command c name n buffer = elim (scan.key (rest_at n buffer)) [
    | some k ↦ c k
    | none ↦ malformed name
  ]

  -- The command in a buffer, by its first letters.
  unfoldable pub command_of : List ℕ → Command
  unfolding pair_command key_command
  command_of buffer =
      if has_prefix (codes "create") buffer
      then pair_command create (codes "create") buffer
      else if has_prefix (codes "rea") buffer
      then key_command read (codes "find") 4 buffer
      else if has_prefix (codes "update") buffer
      then pair_command update (codes "update") buffer
      else if has_prefix (codes "delete") buffer
      then key_command delete (codes "delete") 7 buffer
      else if has_prefix (codes "disconnect") buffer
      then disconnect
      else unknown

  module _ {s : Store} {m : KvMap} (ref : Refines s m) (buffer : List ℕ) where
    stays :
        (text : Text)
        → Answers (some (record { after = s; written = text; closes = false })) (going (m, text))
    stays text = record {
      answer = record { after = s; written = text; closes = false };
      ran = refl;
      after = ref;
      written = refl;
      closes = refl;
    }

    -- A handler's result, sent as the answer.
    sent :
        {run : Option (Store × Text)} {m' : KvMap} {text : Text}
        → Implements run (m', text)
        → Answers (run >>= reply) (going (m', text))
    sent (s', ran, after) = rw ran (record {
      answer = record { after = s'; written = _; closes = false };
      ran = refl;
      after = after;
      written = refl;
      closes = refl;
    })

    do_create_lem :
        Answers (do_create scan s buffer) (perform m (pair_command create (codes "create") buffer))
    unfolding do_create perform pair_command
    do_create_lem = parsed (scan.pair (rest_at 7 buffer)) refl
      where
        parsed :
            (r : Option (ℤ × Text))
            → scan.pair (rest_at 7 buffer) ≡ r
            → Answers
                (do_create scan s buffer)
                (perform m (pair_command create (codes "create") buffer))
        parsed none e = rw (e, do_create, perform, pair_command) (stays (invalid (codes "create")))
        parsed (some (k, v)) e =
            rw (e, do_create, perform, pair_command) (sent (handle_create-Implements ref k v))

    do_update_lem :
        Answers (do_update scan s buffer) (perform m (pair_command update (codes "update") buffer))
    unfolding do_update perform pair_command
    do_update_lem = parsed (scan.pair (rest_at 7 buffer)) refl
      where
        parsed :
            (r : Option (ℤ × Text))
            → scan.pair (rest_at 7 buffer) ≡ r
            → Answers
                (do_update scan s buffer)
                (perform m (pair_command update (codes "update") buffer))
        parsed none e = rw (e, do_update, perform, pair_command) (stays (invalid (codes "update")))
        parsed (some (k, v)) e =
            rw (e, do_update, perform, pair_command) (sent (update_value-Implements ref k v))

    do_read_lem :
        Answers (do_read scan s buffer) (perform m (key_command read (codes "find") 4 buffer))
    unfolding do_read perform key_command
    do_read_lem = parsed (scan.key (rest_at 4 buffer)) refl
      where
        found :
            (k : ℤ) (v : Option Text)
            → m.find k ≡ v
            → Answers
                (read_value s k >>= λ found. elim found [
                  | some value ↦ reply (s, value_reply value)
                  | none ↦ reply (s, not_found)
                ])
                (going (m, value_or (m.find k)))
        found k none e = rw (read_value_implements ref k, e, value_or) (stays not_found)
        found k (some v) e = rw (read_value_implements ref k, e, value_or) (stays (value_reply v))

        parsed :
            (r : Option (ℤ))
            → scan.key (rest_at 4 buffer) ≡ r
            → Answers (do_read scan s buffer) (perform m (key_command read (codes "find") 4 buffer))
        parsed none e = rw (e, do_read, perform, key_command) (stays (invalid (codes "find")))
        parsed (some k) e = rw (e, do_read, perform, key_command) (found k (m.find k) refl)

    do_delete_lem :
        Answers (do_delete scan s buffer) (perform m (key_command delete (codes "delete") 7 buffer))
    unfolding do_delete perform key_command
    do_delete_lem = parsed (scan.key (rest_at 7 buffer)) refl
      where
        parsed :
            (r : Option (ℤ))
            → scan.key (rest_at 7 buffer) ≡ r
            → Answers
                (do_delete scan s buffer)
                (perform m (key_command delete (codes "delete") 7 buffer))
        parsed none e = rw (e, do_delete, perform, key_command) (stays (invalid (codes "delete")))
        parsed (some k) e =
            rw (e, do_delete, perform, key_command) (sent (delete_value-Implements ref k))

    -- The server answers a buffer as the map answers the command in it, on every branch.
    pub respond-Answers : Answers (respond scan s buffer) (perform m (command_of buffer))
    unfolding respond command_of perform
    respond-Answers = elim (Bool-cases (has_prefix (codes "create") buffer)) [
      | inl c ↦ rw (c, respond, command_of) do_create_lem
      | inr c ↦ elim (Bool-cases (has_prefix (codes "rea") buffer)) [
        | inl r ↦ rw (c, r, respond, command_of) do_read_lem
        | inr r ↦ elim (Bool-cases (has_prefix (codes "update") buffer)) [
          | inl u ↦ rw (c, r, u, respond, command_of) do_update_lem
          | inr u ↦ elim (Bool-cases (has_prefix (codes "delete") buffer)) [
            | inl d ↦ rw (c, r, u, d, respond, command_of) do_delete_lem
            | inr d ↦ elim (Bool-cases (has_prefix (codes "disconnect") buffer)) [
              | inl q ↦ rw (c, r, u, d, q, respond, command_of) bye
              | inr q ↦ rw (c, r, u, d, q, respond, command_of) nothing
            ]
          ]
        ]
      ]
    ]
      where
        bye :
            Answers
              (some (record { after = s; written = ok_msg; closes = true }))
              (perform m disconnect)
        bye = record {
          answer = record { after = s; written = ok_msg; closes = true };
          ran = refl;
          after = ref;
          written = refl;
          closes = refl;
        }

        nothing : Answers (reply (s, unknown_command)) (perform m unknown)
        nothing = stays unknown_command
