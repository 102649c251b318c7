-- ===== src/Kv/Client/Rounds.antt =====
-- One round of the loop of kv-server/kv-client.c, in front of the server of kv-server/kv-server.c, is a turn of the dialogue.
use mathlib.Core.Path.{subst}
use mathlib.Core.List.{append-nil}
use os333_iit_bombay_labs.Prelude.{
  ◌≡◌, refl, sym, ap, inl, inr, true, not, Option, some, length, ltb, if◌then◌else◌, ◌>>=◌,
  Bool-cases, Option-cases,
}
use os333_iit_bombay_labs.Prelude.Int.{negsuc, eqb}
use os333_iit_bombay_labs.Prelude.Text.{Text, codes, text_eq, has_prefix}
use os333_iit_bombay_labs.Kv.{Store}
use os333_iit_bombay_labs.Kv.Refine.{KvMap, Refines}
use os333_iit_bombay_labs.Kv.Session.{Scan, respond}
use os333_iit_bombay_labs.Kv.Session.Laws.{perform, command_of, disconnect, respond-Answers}
use os333_iit_bombay_labs.Kv.Client.{
  Client, Ending, running, finished, failed, Input, ip_size, usage, print, is_negative,
  connect_to_server, is_command, disconnect_from_server, send_command, handle_connect, handle_input,
}
use os333_iit_bombay_labs.Kv.Client.Dialogue.{
  Request, request_of, Next, goes_on, ends, Turn, says, dialled, named, hung_up, asked, turn,
}
use os333_iit_bombay_labs.Kv.Client.Follows.{
  Fits, is_online, Agrees, Matches, Follows, if-Follows, opened_lem, by_sign, by_sign_lem,
  verbs_lem, tested, short_word,
}

-- The server, as what a client talks to.
module _ (scan : Scan) where
  abbrev pub store_service : Store → Text → Option (Store × Text)
  store_service s cmd = respond scan s cmd >>= λ r. some (r.after, r.written)

  -- It answers as the map does.
  served_as :
      (s : Store) (m : KvMap) (cmd : Text)
      → Refines s m
      → (s' : Store) × (store_service s cmd ≡ some (s', (perform m (command_of scan cmd)).written))
        × Refines s' (perform m (command_of scan cmd)).after
  served_as s m cmd r =
      let a = respond-Answers scan r cmd in
      (a.answer.after, rw (a.ran) (ap (λ t. some (a.answer.after, t)) a.written), a.after)

  -- The server takes "disconnect" for what it is.
  farewell : command_of scan (codes "disconnect") ≡ disconnect
  unfolding command_of has_prefix
  farewell = refl

  module _ (i : Input) (c : Client Store) (m : KvMap) (r : Refines c.remote m) where
    -- One line more, and nothing else.
    says-Agrees :
        (text : Text) (next : Next)
        → Agrees c.screen (print text c) (says (is_online c) m text next)
    says-Agrees text next = record { screen = refl; online = refl; map = r }

    signed-Follows : Follows c.screen (some (connect_to_server i c)) (by_sign i (is_online c) m)
    unfolding connect_to_server
    signed-Follows = elim (Bool-cases (eqb c.sockfd (negsuc 0))) [
      | inr busy ↦
          rw (busy, connect_to_server)
            (running _, refl, (refl, record { screen = refl; online = rw (busy) refl; map = r }))
      | inl fresh ↦ elim (Bool-cases (is_negative i.opened)) [
        | inl bad ↦
            rw (fresh, bad, connect_to_server)
              (failed _, refl, (refl, sym (append-nil c.screen), r))
        | inr good ↦ elim (Bool-cases i.connects) [
          | inl joined ↦
              rw (fresh, good, joined, connect_to_server)
                (
                  running _,
                  refl,
                  (
                    refl,
                    record { screen = refl; online = ap not (opened_lem i.opened good); map = r },
                  ),
                )
          | inr refused ↦
              rw (fresh, good, refused, connect_to_server)
                (running _, refl, (refl, record { screen = refl; online = refl; map = r }))
        ]
      ]
    ]

    connect-Follows : Follows c.screen (some (connect_to_server i c)) (dialled i (is_online c) m)
    connect-Follows =
        subst (λ t. Follows c.screen (some (connect_to_server i c)) t)
          (by_sign_lem i (is_online c) m) signed-Follows

    dial-Follows :
        Fits i
        → Follows c.screen
            (handle_connect store_service i c)
            (if named i then dialled i (is_online c) m else says (is_online c) m usage goes_on)
    unfolding handle_connect connect_to_server
    dial-Follows fits = elim (Option-cases i.ip) [
      | inl none_there ↦
          rw (none_there, handle_connect) (running _, refl, (refl, says-Agrees usage goes_on))
      | inr (ip, there) ↦
          let small : ltb (length ip) ip_size ≡ true = short_word i ip there fits in
          elim (Bool-cases i.port_given) [
            | inl port ↦ rw (there, handle_connect, small, port) connect-Follows
            | inr bare ↦
                rw (there, handle_connect, small, bare)
                  (running _, refl, (refl, says-Agrees usage goes_on))
          ]
    ]

    hang_up-Follows :
        (ending : Client Store → Ending Store) (next : Next)
        → ((c' : Client Store) (t : Turn)
            → t.next ≡ next
            → Agrees c.screen c' t
            → Matches c.screen (ending c') t)
        → Follows c.screen
            (disconnect_from_server store_service c >>= λ c'. some (ending c'))
            (hung_up (is_online c) m next)
    unfolding disconnect_from_server perform
    hang_up-Follows ending next close = elim (Bool-cases (eqb c.sockfd (negsuc 0))) [
      | inl offline ↦
          rw (offline, disconnect_from_server)
            (
              ending _,
              refl,
              close _ _ refl (record { screen = refl; online = rw (offline) refl; map = r }),
            )
      | inr linked ↦
          let (s', e, after) = served_as c.remote m (codes "disconnect") r in
          let same : Refines s' m = subst (λ k. Refines s' (perform m k).after) farewell after in
          rw (linked, disconnect_from_server, e)
            (ending _, refl, close _ _ refl (record { screen = refl; online = refl; map = same }))
    ]

    ask-Follows :
        Follows c.screen
          (send_command store_service i.line c >>= λ c'. some (running c'))
          (asked scan i.line (is_online c) m)
    unfolding send_command
    ask-Follows = elim (Bool-cases (eqb c.sockfd (negsuc 0))) [
      | inl offline ↦
          rw (offline, send_command)
            (running _, refl, (refl, record { screen = refl; online = rw (offline) refl; map = r }))
      | inr linked ↦
          let (s', e, after) = served_as c.remote m i.line r in
          rw (linked, send_command, e)
            (
              running _,
              refl,
              (refl, record { screen = refl; online = rw (linked) refl; map = after }),
            )
    ]

    pub handle_input-Follows :
        Fits i
        → Follows c.screen
            (handle_input store_service i c)
            (turn scan (request_of i.line) i (is_online c) m)
    unfolding handle_input
    handle_input-Follows fits =
        let f : Request → Turn = λ k. turn scan k i (is_online c) m in
        subst (λ b. Follows c.screen (handle_input store_service i c) (f (tested b i.line)))
          (verbs_lem i.line)
          (if-Follows c.screen (has_prefix (codes "connect") i.line) _ _ _ _ f (dial-Follows fits) (
            if-Follows c.screen (has_prefix (codes "disconnect") i.line) _ _ _ _ f
              (hang_up-Follows (λ c'. running c') goes_on (λ c' t e a. (e, a)))
              (if-Follows c.screen (is_command i.line) _ _ _ _ f ask-Follows (
                if-Follows c.screen (text_eq i.line (codes "exit")) _ _ _ _ f
                  (hang_up-Follows (λ c'. finished c') ends (λ c' t e a. (e, a)))
                  (running _, refl, (refl, says-Agrees _ goes_on))))))
