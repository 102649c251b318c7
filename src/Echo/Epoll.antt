-- ===== src/Echo/Epoll.antt =====
-- kv-server/epoll-server.c: one loop that accepts clients and answers whichever has sent a message. What the calls of
-- the kernel return enters as their results.
pub mod Conversation
use os333_iit_bombay_labs.Prelude.{
  ℕ, Bool, true, false, Option, none, some, List, [], ◌∷◌, ◌++◌, ◌==◌, if◌then◌else◌,
}
use os333_iit_bombay_labs.Prelude.Text.{Text, codes, c_string}
use os333_iit_bombay_labs.Echo.{Next, again, exits}

-- What the server does for a descriptor: it registers it, prints a message from it, or writes the reply to it.
pub data Entry : Type 0 where
  registered replied : ℕ → Entry
  message : ℕ → Text → Entry

-- An entry of `events`, with what the calls for it return: `accept` and `epoll_ctl`, or `read` and `write`.
-- `none`, and `false`, are results below 0.
pub record Event : Type 0 where
  pub fd : ℕ
  pub has_input : Bool
  pub newsockfd : Option ℕ
  pub added : Bool
  pub received : Option Text
  pub written : Bool

unfoldable pub accept_client : Option ℕ → Bool → List Entry → List Entry × Next
accept_client none added log = (log, exits (codes "ERROR on accept"))
accept_client (some fd) false log = (log, exits (codes "ERROR epoll ctl add"))
accept_client (some fd) true log = (log ++ registered fd ∷ [], again)

unfoldable pub answer_client : ℕ → Option Text → Bool → List Entry → List Entry × Next
answer_client fd none written log = (log, exits (codes "ERROR reading from socket"))
answer_client fd (some bytes) false log =
    (log ++ message fd (c_string bytes) ∷ [], exits (codes "ERROR writing to socket"))
answer_client fd (some bytes) true log =
    (log ++ message fd (c_string bytes) ∷ replied fd ∷ [], again)

unfoldable pub handle_event : ℕ → Event → List Entry → List Entry × Next
handle_event sockfd e log =
    if e.fd == sockfd
    then accept_client e.newsockfd e.added log
    else if e.has_input
    then answer_client e.fd e.received e.written log
    else (log, again)

-- The `for` loop over the events of one `epoll_wait`.
unfoldable pub handle_events : ℕ → List Event → List Entry → List Entry × Next
handle_events sockfd [] log = (log, again)
handle_events sockfd (e ∷ events) log =
    let (log', next) = handle_event sockfd e log in
    elim next [ again ↦ handle_events sockfd events log' | end ↦ (log', end) ]

-- The `while` loop, for the results of `epoll_wait` in their order, where `none` is -1.
unfoldable pub poll_loop : ℕ → List (Option (List Event)) → List Entry → List Entry × Next
poll_loop sockfd [] log = (log, again)
poll_loop sockfd (none ∷ polls) log = (log, exits (codes "ERROR epoll wait"))
poll_loop sockfd (some events ∷ polls) log =
    let (log', next) = handle_events sockfd events log in
    elim next [ again ↦ poll_loop sockfd polls log' | end ↦ (log', end) ]

-- The calls before the loop: whether a port is given, what `socket` returns, and whether `bind` and
-- `epoll_ctl` succeed.
pub record Listening : Type 0 where
  pub port_given : Bool
  pub sockfd : Option ℕ
  pub bound : Bool
  pub added : Bool

unfoldable pub listen_on : Option ℕ → Bool → Bool → List (Option (List Event)) → List Entry × Next
listen_on none bound added polls = ([], exits (codes "ERROR opening socket"))
listen_on (some sockfd) false added polls = ([], exits (codes "ERROR on binding"))
listen_on (some sockfd) true false polls = ([], exits (codes "ERROR epoll ctl"))
listen_on (some sockfd) true true polls = poll_loop sockfd polls []

unfoldable pub epoll_main : Listening → List (Option (List Event)) → List Entry × Next
epoll_main l polls =
    if l.port_given
    then listen_on l.sockfd l.bound l.added polls
    else ([], exits (codes "ERROR, no port provided\n"))
