-- ===== src/Kv/Session/Connections.antt =====
-- Whole connections to kv-server/kv-server.c, and one client after another.
use os333_iit_bombay_labs.Prelude.{
  ℕ, ◌≡◌, refl, ◌⊎◌, inl, inr, true, false, some, List, [], ◌∷◌, if◌then◌else◌, Bool-cases,
}
use os333_iit_bombay_labs.Prelude.Text.{Text}
use os333_iit_bombay_labs.Kv.{Store}
use os333_iit_bombay_labs.Kv.Refine.{KvMap, Refines}
use os333_iit_bombay_labs.Kv.Session.{Scan, respond, serve, accept_all}
use os333_iit_bombay_labs.Kv.Session.Laws.{Effect, perform, command_of, Answers, respond-Answers}

module _ (scan : Scan) where
  -- The answers that a map gives to the buffers of one client, up to the one that disconnects.
  unfoldable pub spec_serve : KvMap → List (List ℕ) → KvMap × List Text
  spec_serve m [] = (m, [])
  spec_serve m (buffer ∷ buffers) =
      let e = perform m (command_of scan buffer) in
      let rest = spec_serve e.after buffers in
      if e.closes then (e.after, e.written ∷ []) else (rest.0, e.written ∷ rest.1)

  unfoldable pub spec_accept_all : KvMap → List (List (List ℕ)) → KvMap × List (List Text)
  spec_accept_all m [] = (m, [])
  spec_accept_all m (client ∷ clients) =
      let (m', texts) = spec_serve m client in
      let (m'', more) = spec_accept_all m' clients in (m'', texts ∷ more)

  -- One connection does not fault, and answers as the map does.
  pub serve-Refines :
      (buffers : List (List ℕ)) {s : Store} {m : KvMap}
      → Refines s m
      → (s' : Store) × (serve scan s buffers ≡ some (s', (spec_serve m buffers).1))
        × Refines s' (spec_serve m buffers).0
  unfolding serve spec_serve
  serve-Refines [] {s} ref = (s, refl, ref)
  serve-Refines (buffer ∷ buffers) {s} {m} ref =
      next (λ s1 m1 r. serve-Refines buffers {s = s1} {m = m1} r) (respond-Answers scan ref buffer)
        (Bool-cases e.closes)
    where
      e : Effect
      e = perform m (command_of scan buffer)

      next :
          ((s1 : Store) (m1 : KvMap)
            → Refines s1 m1
            → (s' : Store) × (serve scan s1 buffers ≡ some (s', (spec_serve m1 buffers).1))
              × Refines s' (spec_serve m1 buffers).0)
          → Answers (respond scan s buffer) e
          → (e.closes ≡ true) ⊎ (e.closes ≡ false)
          → (s' : Store) × (serve scan s (buffer ∷ buffers)
              ≡ some (s', (spec_serve m (buffer ∷ buffers)).1))
            × Refines s' (spec_serve m (buffer ∷ buffers)).0
      next ih a (inl closed) =
          rw (a.ran, a.closes, closed, a.written) (a.answer.after, refl, a.after)
      next ih a (inr stays) =
          let (s', ran, after) = ih a.answer.after e.after a.after in
          rw (a.ran, a.closes, stays, a.written, ran) (s', refl, after)

  -- From its start the server never faults, whatever the clients send, and every byte that it
  -- writes is what the map answers; at the end the array holds the map.
  pub accept_all-Refines :
      (clients : List (List (List ℕ))) {s : Store} {m : KvMap}
      → Refines s m
      → (s' : Store) × (accept_all scan s clients ≡ some (s', (spec_accept_all m clients).1))
        × Refines s' (spec_accept_all m clients).0
  unfolding accept_all spec_accept_all
  accept_all-Refines [] {s} ref = (s, refl, ref)
  accept_all-Refines (client ∷ clients) {s} {m} ref =
      let (s', ran, after) = serve-Refines client ref in
      let (s'', ran', after') = accept_all-Refines clients after in
      rw (ran, ran') (s'', refl, after')
