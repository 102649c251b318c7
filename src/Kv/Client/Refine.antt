-- ===== src/Kv/Client/Refine.antt =====
-- The client of kv-server/kv-client.c in front of the server of kv-server/kv-server.c, and the dialogue with the map.
use mathlib.Core.Path.{subst}
use mathlib.Core.List.{append_assoc, append-nil}
use os333_iit_bombay_labs.Prelude.{
  ◌≡◌, refl, sym, ap, ◌∙◌, Bool, Option, some, List, [], ◌∷◌, ◌++◌, All,
}
use os333_iit_bombay_labs.Prelude.Text.{Text}
use os333_iit_bombay_labs.Kv.{Store}
use os333_iit_bombay_labs.Kv.Refine.{KvMap, Refines}
use os333_iit_bombay_labs.Kv.Session.{Scan}
use os333_iit_bombay_labs.Kv.Client.{Client, Ending, running, finished, failed, Input, main_loop}
use os333_iit_bombay_labs.Kv.Client.Dialogue.{request_of, goes_on, Turn, turn, with_rest, dialogue}
use os333_iit_bombay_labs.Kv.Client.Follows.{Fits, is_online, Agrees, Matches, Follows}
use os333_iit_bombay_labs.Kv.Client.Rounds.{store_service, handle_input-Follows}

longer :
    (before now then_ prints more : List Text)
    → now ≡ before ++ prints
    → then_ ≡ now ++ more
    → then_ ≡ before ++ (prints ++ more)
longer before now then_ prints more a b =
    b ∙ ap (λ s. s ++ more) a ∙ append_assoc before prints more

module _ (scan : Scan) where
  -- What comes later, behind the lines printed before.
  behind :
      (before : List Text) (c : Client Store) (e : Ending Store) (t : Turn) (prints : List Text)
      → c.screen ≡ before ++ prints
      → Matches c.screen e t
      → Matches before e (record t { prints = prints ++ t.prints })
  behind before c (running c') t prints s (n, a) = (
    n,
    record {
      screen = longer before c.screen c'.screen prints t.prints s a.screen;
      online = a.online;
      map = a.map;
    },
  )
  behind before c (finished c') t prints s (n, a) = (
    n,
    record {
      screen = longer before c.screen c'.screen prints t.prints s a.screen;
      online = a.online;
      map = a.map;
    },
  )
  behind before c (failed c') t prints s (n, a, r) =
      (n, longer before c.screen c'.screen prints t.prints s a, r)

  later :
      (before : List Text) (c : Client Store) (t : Turn) (rest : Bool → KvMap → Turn)
      (o : Option (Ending Store))
      → t.next ≡ goes_on
      → Agrees before c t
      → Follows c.screen o (rest (is_online c) t.map)
      → Follows before o (with_rest scan t rest)
  later before c t rest o go a f =
      let (e, ran, m) = subst (λ b. Follows c.screen o (rest b t.map)) a.online f in
      rw (go) (e, ran, behind before c e (rest t.online t.map) t.prints a.screen m)

  goes :
      (inputs : List Input) (before : List Text) (t : Turn) (e : Ending Store)
      → Matches before e t
      → ((c' : Client Store) (m' : KvMap)
          → Refines c'.remote m'
          → Follows c'.screen
              (main_loop (store_service scan) inputs c')
              (dialogue scan inputs (is_online c') m'))
      → Follows before
          (elim e [
            | running c' ↦ main_loop (store_service scan) inputs c'
            | finished c' ↦ some (finished c')
            | failed c' ↦ some (failed c')
          ])
          (with_rest scan t (λ o m'. dialogue scan inputs o m'))
  goes inputs before t (running c') (go, a) k =
      later before c' t (λ o m'. dialogue scan inputs o m') _ go a (k c' t.map a.map)
  goes inputs before t (finished c') (n, a) k =
      rw (n)
        (finished c', refl, (refl, record { screen = a.screen; online = a.online; map = a.map }))
  goes inputs before t (failed c') (n, a, r) k = rw (n) (failed c', refl, (refl, a, r))

  -- For every sequence of lines whose address words are shorter than 100 bytes, the client in front of a store that refines
  -- a map never faults and is the dialogue with that map: the lines on its screen, whether it is connected, the map behind
  -- it, and whether it goes on, ends or exits because `socket` fails (where nothing is said of the connection).
  pub main_loop-Refines :
      (inputs : List Input) (c : Client Store) (m : KvMap)
      → All Fits inputs
      → Refines c.remote m
      → Follows c.screen
          (main_loop (store_service scan) inputs c)
          (dialogue scan inputs (is_online c) m)
  unfolding main_loop
  main_loop-Refines [] c m fits r = (
    running c,
    refl,
    (refl, record { screen = sym (append-nil c.screen); online = refl; map = r }),
  )
  main_loop-Refines (i ∷ inputs) c m fits r =
      let (e, ran, here) = handle_input-Follows scan i c m r (fits.0) in
      rw (ran, main_loop)
        (goes inputs c.screen (turn scan (request_of i.line) i (is_online c) m) e here
          (λ c' m' r'. main_loop-Refines inputs c' m' (fits.1) r'))
