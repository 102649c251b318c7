-- ===== src/Echo/Epoll/Conversation.antt =====
-- What one client of kv-server/epoll-server.c sees, whatever the others do.
use mathlib.Core.List.{append_assoc, append-nil}
use os333_iit_bombay_labs.Prelude.{
  ℕ, ◌≡◌, ◌≢◌, refl, sym, ap, ◌∙◌, inl, inr, Bool, true, false, Option, none, some, List, [], ◌∷◌,
  ◌++◌, ◌==◌, if◌then◌else◌, arith, Bool-cases,
}
use os333_iit_bombay_labs.Prelude.Text.{Text, c_string}
use os333_iit_bombay_labs.Echo.{Next, again, stops, blocked, exits}
use os333_iit_bombay_labs.Echo.Epoll.{
  Entry, registered, replied, message, Event, accept_client, answer_client, handle_event,
  handle_events, poll_loop, epoll_main, listen_on,
}

-- The messages from a descriptor and the replies to it.
abbrev pub about : ℕ → List Entry → List Entry
about fd [] = []
about fd (registered n ∷ log) = about fd log
about fd (replied n ∷ log) = let rest = about fd log in if n == fd then replied n ∷ rest else rest
about fd (message n text ∷ log) =
    let rest = about fd log in if n == fd then message n text ∷ rest else rest

about-append :
    (fd : ℕ) (log more : List Entry) → about fd (log ++ more) ≡ about fd log ++ about fd more
about-append fd [] more = refl
about-append fd (registered n ∷ log) more = about-append fd log more
about-append fd (replied n ∷ log) more = elim (Bool-cases (n == fd)) [
  | inl same ↦ rw (same) (ap (λ (r : List Entry). replied n ∷ r) (about-append fd log more))
  | inr other ↦ rw (other) (about-append fd log more)
]
about-append fd (message n text ∷ log) more = elim (Bool-cases (n == fd)) [
  | inl same ↦ rw (same) (ap (λ (r : List Entry). message n text ∷ r) (about-append fd log more))
  | inr other ↦ rw (other) (about-append fd log more)
]

-- A message and a reply for what one event of a client delivers.
abbrev pub exchange_for : ℕ → Option Text → List Entry
exchange_for fd none = []
exchange_for fd (some bytes) = message fd (c_string bytes) ∷ replied fd ∷ []

abbrev pub exchange : ℕ → Event → List Entry
exchange fd e = if e.fd == fd then (if e.has_input then exchange_for fd e.received else []) else []

abbrev pub conversation : ℕ → List Event → List Entry
conversation fd [] = []
conversation fd (e ∷ events) = exchange fd e ++ conversation fd events

abbrev pub conversations : ℕ → List (Option (List Event)) → List Entry
conversations fd [] = []
conversations fd (none ∷ polls) = []
conversations fd (some events ∷ polls) = conversation fd events ++ conversations fd polls

about_accepted :
    (fd : ℕ) (n : Option ℕ) (added : Bool) (log log' : List Entry)
    → accept_client n added log ≡ (log', again)
    → about fd log' ≡ about fd log
unfolding accept_client
about_accepted fd none added log log' e =
    absurd (ground (arith, ap (λ (r : List Entry × Next). r.1) e))
about_accepted fd (some n) false log log' e =
    absurd (ground (arith, ap (λ (r : List Entry × Next). r.1) e))
about_accepted fd (some n) true log log' e =
    ap (λ (r : List Entry × Next). about fd r.0) (sym e)
    ∙ about-append fd log (registered n ∷ [])
    ∙ append-nil (about fd log)

about_answered :
    (fd k : ℕ) (received : Option Text) (written : Bool) (log log' : List Entry)
    → answer_client k received written log ≡ (log', again)
    → about fd log' ≡ about fd log ++ (if k == fd then exchange_for fd received else [])
unfolding answer_client
about_answered fd k none written log log' e =
    absurd (ground (arith, ap (λ (r : List Entry × Next). r.1) e))
about_answered fd k (some bytes) false log log' e =
    absurd (ground (arith, ap (λ (r : List Entry × Next). r.1) e))
about_answered fd k (some bytes) true log log' e =
    ap (λ (r : List Entry × Next). about fd r.0) (sym e)
    ∙ about-append fd log (message k (c_string bytes) ∷ replied k ∷ [])
    ∙ ap (λ (r : List Entry). about fd log ++ r)
        (elim (Bool-cases (k == fd)) [
          | inl same ↦
              let eq : k ≡ fd = ground (arith, same) in
              rw (same) (ap (λ n. message n (c_string bytes) ∷ replied n ∷ []) eq)
          | inr other ↦ rw (other) refl
        ])

exchange_silent : (fd : ℕ) (e : Event) → e.has_input ≡ false → exchange fd e ≡ []
exchange_silent fd e silent = elim (Bool-cases (e.fd == fd)) [
  | inl same ↦ rw (same, silent) refl
  | inr other ↦ rw (other) refl
]

-- A loop that goes on has gone on in each round.
abbrev go_on : (List Entry → List Entry × Next) → List Entry × Next → List Entry × Next
go_on f r = elim r.1 [ again ↦ f r.0 | end ↦ (r.0, end) ]

went_on :
    (f : List Entry → List Entry × Next) (r : List Entry × Next) (log' : List Entry)
    → go_on f r ≡ (log', again)
    → (r ≡ (r.0, again)) × (f r.0 ≡ (log', again))
went_on f (log, again) log' e = (refl, e)
went_on f (log, stops) log' e = absurd (ground (arith, ap (λ (r : List Entry × Next). r.1) e))
went_on f (log, blocked) log' e = absurd (ground (arith, ap (λ (r : List Entry × Next). r.1) e))
went_on f (log, exits text) log' e = absurd (ground (arith, ap (λ (r : List Entry × Next). r.1) e))

module _ (sockfd fd : ℕ) (client : fd ≢ sockfd) where
  about-handle_event :
      (e : Event) (log log' : List Entry)
      → handle_event sockfd e log ≡ (log', again)
      → about fd log' ≡ about fd log ++ exchange fd e
  unfolding handle_event
  about-handle_event e log log' eq = elim (Bool-cases (e.fd == sockfd)) [
    | inl same ↦
        let other : (e.fd == fd) ≡ false = ground (arith, same, client) in
        rw (other) (
          about_accepted fd e.newsockfd e.added log log' (rw (same) at eq)
          ∙ sym (append-nil (about fd log)))
    | inr other ↦ elim (Bool-cases e.has_input) [
      | inl input ↦
          rw (input)
            (about_answered fd e.fd e.received e.written log log' (rw (other, input) at eq))
      | inr silent ↦
          let same_log : log ≡ log' =
            ap (λ (r : List Entry × Next). r.0) (rw (other, silent) at eq) in
          ap (about fd) (sym same_log)
          ∙ sym (
              ap (λ (r : List Entry). about fd log ++ r) (exchange_silent fd e silent)
              ∙ append-nil (about fd log))
    ]
  ]

  about-handle_events :
      (events : List Event) (log log' : List Entry)
      → handle_events sockfd events log ≡ (log', again)
      → about fd log' ≡ about fd log ++ conversation fd events
  unfolding handle_events
  about-handle_events [] log log' e =
      ap (λ (r : List Entry × Next). about fd r.0) (sym e) ∙ sym (append-nil (about fd log))
  about-handle_events (e ∷ events) log log' done =
      let next = (handle_event sockfd e log).0 in
      let (first, rest) =
        went_on (handle_events sockfd events) (handle_event sockfd e log) log' done in
      about-handle_events events next log' rest
      ∙ ap (λ (r : List Entry). r ++ conversation fd events) (about-handle_event e log next first)
      ∙ append_assoc (about fd log) (exchange fd e) (conversation fd events)

  about-poll_loop :
      (polls : List (Option (List Event))) (log log' : List Entry)
      → poll_loop sockfd polls log ≡ (log', again)
      → about fd log' ≡ about fd log ++ conversations fd polls
  unfolding poll_loop
  about-poll_loop [] log log' e =
      ap (λ (r : List Entry × Next). about fd r.0) (sym e) ∙ sym (append-nil (about fd log))
  about-poll_loop (none ∷ polls) log log' e =
      absurd (ground (arith, ap (λ (r : List Entry × Next). r.1) e))
  about-poll_loop (some events ∷ polls) log log' done =
      let next = (handle_events sockfd events log).0 in
      let (first, rest) =
        went_on (poll_loop sockfd polls) (handle_events sockfd events log) log' done in
      about-poll_loop polls next log' rest
      ∙ ap (λ (r : List Entry). r ++ conversations fd polls)
          (about-handle_events events log next first)
      ∙ append_assoc (about fd log) (conversation fd events) (conversations fd polls)

-- While the server of epoll-server.c goes on, what it has printed from a client and replied to it is, for each event with
-- which something could be read from this client, what was read and one reply, in their order, whatever other clients do.
pub each_client_answered :
    (sockfd fd : ℕ) (polls : List (Option (List Event))) (log : List Entry)
    → fd ≢ sockfd
    → epoll_main
        (record { port_given = true; sockfd = some sockfd; bound = true; added = true })
        polls
      ≡ (log, again)
    → about fd log ≡ conversations fd polls
unfolding epoll_main listen_on
each_client_answered sockfd fd polls log client e = about-poll_loop sockfd fd client polls [] log e
