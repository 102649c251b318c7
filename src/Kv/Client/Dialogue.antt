-- ===== src/Kv/Client/Dialogue.antt =====
-- What a user of kv-server/kv-client.c may expect: a dialogue with the map, in terms of whether there is a connection.
use os333_iit_bombay_labs.Prelude.{
  Bool, true, false, ◌||◌, none, some, List, [], ◌∷◌, ◌++◌, take, if◌then◌else◌,
}
use os333_iit_bombay_labs.Prelude.Int.{pos, negsuc}
use os333_iit_bombay_labs.Prelude.Text.{Text, codes, text_eq, has_prefix, c_string}
use os333_iit_bombay_labs.Kv.Refine.{KvMap}
use os333_iit_bombay_labs.Kv.Session.{Scan}
use os333_iit_bombay_labs.Kv.Session.Laws.{perform, command_of}
use os333_iit_bombay_labs.Kv.Client.{Input}

-- What a line asks for.
pub data Request : Type 0 where
  dial hang_up ask quit strange : Request

-- The words of a command that goes to the map.
abbrev pub verbs : List Text
verbs = codes "create" ∷ codes "read" ∷ codes "update" ∷ codes "delete" ∷ []

abbrev pub begins_with_any : List Text → Text → Bool
begins_with_any [] line = false
begins_with_any (word ∷ words) line = has_prefix word line || begins_with_any words line

abbrev pub request_of : Text → Request
request_of line =
    if has_prefix (codes "connect") line
    then dial
    else if has_prefix (codes "disconnect") line
    then hang_up
    else if begins_with_any verbs line
    then ask
    else if text_eq line (codes "exit")
    then quit
    else strange

pub data Next : Type 0 where
  goes_on ends gives_up : Next

-- Whether there is a connection, the map behind it, what is printed, and how it goes on.
pub record Turn : Type 0 where
  pub online : Bool
  pub map : KvMap
  pub prints : List Text
  pub next : Next

abbrev pub says : Bool → KvMap → Text → Next → Turn
says online m text next = record { online = online; map = m; prints = text ∷ []; next = next }

-- A connection is tried only where there is none, and a line that names an address and a port.
abbrev pub dialled : Input → Bool → KvMap → Turn
dialled i true m = says true m (codes "Error: Already connected\n") goes_on
dialled i false m =
    let tried : Turn =
      if i.connects
      then says true m (codes "OK\n") goes_on
      else says false m (codes "Error: Connection failed\n") goes_on in
    elim i.opened [
      | pos _ ↦ tried
      | negsuc _ ↦ record { online = false; map = m; prints = []; next = gives_up }
    ]

abbrev pub named : Input → Bool
named i = elim i.ip [ none ↦ false | some ip ↦ i.port_given ]

-- The end of a connection does not change the map.
abbrev pub hung_up : Bool → KvMap → Next → Turn
hung_up true m next = says false m (codes "OK\n") next
hung_up false m next = says false m (codes "Error: Not connected\n") next

module _ (scan : Scan) where
  -- A command reaches the map over a connection only, and its answer is printed, as much of it as one `read` takes.
  abbrev pub asked : Text → Bool → KvMap → Turn
  asked line true m =
      let e = perform m (command_of scan line) in
      says true e.after (c_string (take 1023 e.written)) goes_on
  asked line false m = says false m (codes "Error: Not connected\n") goes_on

  abbrev pub turn : Request → Input → Bool → KvMap → Turn
  turn dial i online m =
      if named i
      then dialled i online m
      else says online m (codes "Usage: connect <ip> <port>\n") goes_on
  turn hang_up i online m = hung_up online m goes_on
  turn ask i online m = asked i.line online m
  turn quit i online m = hung_up online m ends
  turn strange i online m = says online m (codes "Unknown command\n") goes_on

  abbrev pub with_rest : Turn → (Bool → KvMap → Turn) → Turn
  with_rest r rest = elim r.next [
    | goes_on ↦ (let more = rest r.online r.map in record more { prints = r.prints ++ more.prints })
    | ends ↦ r
    | gives_up ↦ r
  ]

  abbrev pub dialogue : List Input → Bool → KvMap → Turn
  dialogue [] online m = record { online = online; map = m; prints = []; next = goes_on }
  dialogue (i ∷ inputs) online m =
      with_rest (turn (request_of i.line) i online m) (λ o m'. dialogue inputs o m')
