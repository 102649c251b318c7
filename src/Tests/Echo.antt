-- ===== src/Tests/Echo.antt =====
-- The echo client and server of kv-server on a short input.
use os333_iit_bombay_labs.Prelude.{
  ℕ, ◌≡◌, refl, true, false, Option, some, none, List, [], ◌∷◌, length, replicate, map, arith,
}
use os333_iit_bombay_labs.Prelude.Text.{Text, codes, c_string}
use os333_iit_bombay_labs.Echo.{
  reply, answer, again, stops, blocked, to_server, client_main, serve_client, server_main,
}
use os333_iit_bombay_labs.Echo.Epoll.{
  Entry, registered, replied, message, Event, Listening, epoll_main, listen_on, poll_loop,
  handle_events, handle_event, accept_client, answer_client,
}
use os333_iit_bombay_labs.Echo.Epoll.Conversation.{about, conversations, each_client_answered}
use os333_iit_bombay_labs.Echo.Messages.{joined, IsText, calls_for}
use os333_iit_bombay_labs.Echo.Delivery.{every_line_answered}

abbrev typed : Text
typed = codes "ab\ncd"

-- The end of the connection is answered as well.
answer_end :
    serve_client
      ((some (codes "ab"), some 18) ∷ (some [], some 18) ∷ [])
      (record { printed = []; replies = 0 })
    ≡ (record { printed = codes "ab" ∷ [] ∷ []; replies = 2 }, stops)
unfolding serve_client answer c_string
answer_end = refl

typed-IsText : IsText typed
typed-IsText = ground arith

every_line_answered_example :
    (lines : List Text) × (joined lines ≡ typed)
    × (client_main to_server
          (record { host_given = true; opened = true; host_found = true; connected = true })
          6
          (record { stdin = typed; remote = record { printed = []; replies = 0 }; screen = [] })
        ≡ (
          record {
            stdin = [];
            remote = record { printed = lines; replies = length lines };
            screen = replicate (length lines) reply;
          },
          blocked,
        ))
    × (server_main
          (record { port_given = true; socket_opened = true; bound = true; accepted = true })
          (map calls_for lines)
        ≡ (record { printed = lines; replies = length lines }, again))
every_line_answered_example = every_line_answered typed 6 typed-IsText (omega arith)

-- Clients 4 and 5 are accepted, 5 sends before 4, and an event of 4 has nothing to read.
abbrev accepts : ℕ → Event
accepts n = record {
  fd = 3;
  has_input = true;
  newsockfd = some n;
  added = true;
  received = none;
  written = true;
}

abbrev sends : ℕ → Text → Event
sends n text = record {
  fd = n;
  has_input = true;
  newsockfd = none;
  added = true;
  received = some text;
  written = true;
}

abbrev polls : List (Option (List Event))
polls =
    some (accepts 4 ∷ accepts 5 ∷ [])
    ∷ some
        (sends 5 (codes "x") ∷ sends 4 (codes "y") ∷ record (sends 4 []) { has_input = false } ∷ [])
    ∷ []

abbrev listening : Listening
listening = record { port_given = true; sockfd = some 3; bound = true; added = true }

abbrev entries : List Entry
entries =
    registered 4
    ∷ registered 5
    ∷ message 5 (codes "x")
    ∷ replied 5
    ∷ message 4 (codes "y")
    ∷ replied 4
    ∷ []

poll_run : epoll_main listening polls ≡ (entries, again)
unfolding epoll_main listen_on poll_loop handle_events handle_event accept_client answer_client
    c_string
poll_run = refl

each_client_answered_example : about 4 entries ≡ conversations 4 polls
each_client_answered_example =
    each_client_answered 3 4 polls entries (λ e. omega (arith, e)) poll_run
