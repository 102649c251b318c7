-- ===== src/Kv/Client/Follows.antt =====
-- When a run of kv-server/kv-client.c agrees with a turn of the dialogue, and the tests of both.
use mathlib.Core.Path.{subst}
use os333_iit_bombay_labs.Prelude.{
  ◌≡◌, refl, Bool, true, false, not, ◌||◌, Option, none, some, List, [], ◌++◌, ◌<◌, length, ltb,
  if◌then◌else◌, arith,
}
use os333_iit_bombay_labs.Prelude.Int.{ℤ, pos, negsuc, eqb}
use os333_iit_bombay_labs.Prelude.Text.{Text, codes, text_eq, has_prefix}
use os333_iit_bombay_labs.Kv.{Store}
use os333_iit_bombay_labs.Kv.Refine.{KvMap, Refines}
use os333_iit_bombay_labs.Kv.Client.{
  Client, Ending, running, finished, failed, Input, ip_size, is_negative, is_command,
}
use os333_iit_bombay_labs.Kv.Client.Dialogue.{
  dial, hang_up, ask, quit, strange, verbs, begins_with_any, Request, goes_on, ends, gives_up, Turn,
  says, dialled,
}

-- The address word fits into `ip`.
abbrev pub Fits : Input → Type 0
Fits i = elim i.ip [ none ↦ Unit {0} | some ip ↦ length ip < 100 ]

abbrev pub is_online : {S : Type 0} → Client S → Bool
is_online c = not (eqb c.sockfd (negsuc 0))

-- The client has printed what the turn says, and stands where it says.
pub record Agrees (before : List Text) (c : Client Store) (r : Turn) : Type 0 where
  pub screen : c.screen ≡ before ++ r.prints
  pub online : is_online c ≡ r.online
  pub map : Refines c.remote r.map

-- The same, with the way in which it ends. Where `socket` fails nothing more is said of the descriptor.
abbrev pub Matches : List Text → Ending Store → Turn → Type 0
Matches before (running c) r = (r.next ≡ goes_on) × Agrees before c r
Matches before (finished c) r = (r.next ≡ ends) × Agrees before c r
Matches before (failed c) r =
    (r.next ≡ gives_up) × (c.screen ≡ before ++ r.prints) × Refines c.remote r.map

abbrev pub Follows : List Text → Option (Ending Store) → Turn → Type 0
Follows before o r = (e : Ending Store) × (o ≡ some e) × Matches before e r

pub if-Follows :
    (before : List Text) (b : Bool) (o₁ o₂ : Option (Ending Store)) (k₁ k₂ : Request)
    (f : Request → Turn)
    → Follows before o₁ (f k₁)
    → Follows before o₂ (f k₂)
    → Follows before (if b then o₁ else o₂) (f (if b then k₁ else k₂))
if-Follows before true o₁ o₂ k₁ k₂ f h k = h
if-Follows before false o₁ o₂ k₁ k₂ f h k = k

pub opened_lem : (z : ℤ) → is_negative z ≡ false → eqb z (negsuc 0) ≡ false
opened_lem (pos n) h = refl
opened_lem (negsuc n) h = absurd (ground (arith, h))

-- What `dialled` says, with the test of the code.
abbrev pub by_sign : Input → Bool → KvMap → Turn
by_sign i true m = says true m (codes "Error: Already connected\n") goes_on
by_sign i false m =
    if is_negative i.opened
    then record { online = false; map = m; prints = []; next = gives_up }
    else if i.connects
    then says true m (codes "OK\n") goes_on
    else says false m (codes "Error: Connection failed\n") goes_on

pub by_sign_lem : (i : Input) (online : Bool) (m : KvMap) → by_sign i online m ≡ dialled i online m
by_sign_lem i true m = refl
by_sign_lem i false m = on_sign i.opened _ _
  where
    on_sign :
        (z : ℤ) (a b : Turn)
        → (if is_negative z then a else b) ≡ elim z [ pos _ ↦ b | negsuc _ ↦ a ]
    on_sign (pos n) a b = refl
    on_sign (negsuc n) a b = refl

-- The four words that the code tests for.
pub verbs_lem : (line : Text) → is_command line ≡ begins_with_any verbs line
verbs_lem line =
    last (has_prefix (codes "create") line) (has_prefix (codes "read") line)
      (has_prefix (codes "update") line) (has_prefix (codes "delete") line)
  where
    last : (a b c d : Bool) → (a || b || c || d) ≡ (a || (b || (c || (d || false))))
    last true b c d = refl
    last false true c d = refl
    last false false true d = refl
    last false false false true = refl
    last false false false false = refl

-- What a line asks for, given whether it is a command.
abbrev pub tested : Bool → Text → Request
tested command line =
    if has_prefix (codes "connect") line
    then dial
    else if has_prefix (codes "disconnect") line
    then hang_up
    else if command
    then ask
    else if text_eq line (codes "exit")
    then quit
    else strange

pub short_word : (i : Input) (ip : Text) → i.ip ≡ some ip → Fits i → ltb (length ip) ip_size ≡ true
short_word i ip there fits =
    let small : length ip < 100 =
      subst (λ o. elim o [ none ↦ Unit {0} | some t ↦ length t < 100 ]) there fits in
    ground (arith, small)
