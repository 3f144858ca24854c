-- ===== src/Gateway/Hub.antt =====
-- internal/gateway/hub.go: the connections over WebSocket and the events that they receive.
--
-- A client is an object in a heap, named by the number of its pointer; the map of clients is the list
-- of its keys, in the order in which Go happens to range over it. A channel is the list of what it
-- holds, oldest first. Each goroutine is a phase of the client that it belongs to. `none` is a panic.
pub mod Run
pub mod Fan
pub mod Invariant
pub mod Safety
pub mod Order
use nexus_dispatch.Prelude.{
  ℕ, Bool, true, false, ◌||◌, Option, none, some, List, [], ◌∷◌, ◌++◌, String, ◌==◌, length, ltb,
  eqb, if◌then◌else◌,
}

-- `wsMessage`
pub record Message : Type 0 where
  pub kind : String
  pub payload : String

-- `ServeWS` and then `readPump`: before the upgrade, waiting at `h.register <- c`, reading, waiting at
-- `c.hub.unregister <- c`, and returned.
pub data Reader : Type 0 where
  unborn joining reading leaving gone : Reader

-- `writePump`: not started, in its loop, and returned.
pub data Writer : Type 0 where
  idle running stopped : Writer

-- `client`, with the frames that were written to its connection.
pub record Client : Type 0 where
  pub user : String
  pub role : String
  pub send : List Message
  pub closed : Bool
  pub reader : Reader
  pub writer : Writer
  pub conn : List Message

abbrev pub Subs : Type 0
Subs = String → Option (List String)

pub record Hub : Type 0 where
  pub clients : List ℕ
  pub subs : Subs
  pub broadcast : List Message
  pub heap : ℕ → Client

abbrev pub member : ℕ → List ℕ → Bool
member c [] = false
member c (d ∷ ds) = eqb c d || member c ds

abbrev pub delete : ℕ → List ℕ → List ℕ
delete c [] = []
delete c (d ∷ ds) = if eqb c d then delete c ds else d ∷ delete c ds

abbrev pub contains : String → List String → Bool
contains t [] = false
contains t (x ∷ xs) = (x == t) || contains t xs

-- The object of one pointer is replaced.
unfoldable pub put : ℕ → Client → Hub → Hub
put c x h = record h { heap = λ d. if eqb d c then x else h.heap d }

-- An object that no goroutine has made yet.
abbrev pub blank : Client
blank = record {
  user = "";
  role = "";
  send = [];
  closed = false;
  reader = unborn;
  writer = idle;
  conn = [];
}

-- `NewHub`
unfoldable pub new_hub : Hub
new_hub = record { clients = []; subs = λ u. none; broadcast = []; heap = λ c. blank }

-- `subscribed`
unfoldable pub subscribed : Subs → String → String → Bool
subscribed subs user kind = elim (subs user) [
  | none ↦ true
  | some [] ↦ true
  | some (t ∷ ts) ↦ contains kind (t ∷ ts)
]

-- `SetSubs`
unfoldable pub set_subs : String → List String → Hub → Hub
set_subs user types h = record h { subs = λ u. if u == user then some types else h.subs u }

-- `close(c.send)`
unfoldable pub close_send : Client → Option Client
close_send x = if x.closed then none else some (record x { closed = true })

-- `c.send <- msg` with its `default`
unfoldable pub offer : Message → Client → Option Client
offer m x =
    if x.closed
    then none
    else some (if ltb (length x.send) 256 then record x { send = x.send ++ m ∷ [] } else x)

-- `Run`, case `<-h.register`
unfoldable pub register : ℕ → Hub → Hub
register c h = record h { clients = if member c h.clients then h.clients else c ∷ h.clients }

-- `Run`, case `<-h.unregister`
unfoldable pub unregister : ℕ → Hub → Option Hub
unregister c h =
    if member c h.clients
    then elim (close_send (h.heap c)) [
      | none ↦ none
      | some x ↦ some (put c x (record h { clients = delete c h.clients }))
    ]
    else some h

-- One round of the loop over the clients.
unfoldable pub visit : Message → ℕ → Hub → Option Hub
visit m c h =
    if subscribed h.subs (h.heap c).user m.kind
    then elim (offer m (h.heap c)) [ none ↦ none | some x ↦ some (put c x h) ]
    else some h

unfoldable pub fan_out : Message → List ℕ → Hub → Option Hub
fan_out m [] h = some h
fan_out m (c ∷ cs) h = elim (visit m c h) [ none ↦ none | some h' ↦ fan_out m cs h' ]

-- `Run`, case `<-h.broadcast`
unfoldable pub deliver : Message → Hub → Option Hub
deliver m h = fan_out m h.clients h

-- `Broadcast`, with what `json.Marshal` makes of the payload.
unfoldable pub broadcast : String → Option String → Hub → Hub
broadcast kind none h = h
broadcast kind (some b) h =
    if ltb (length h.broadcast) 1024
    then record h { broadcast = h.broadcast ++ record { kind = kind; payload = b } ∷ [] }
    else h

-- `Connections`
unfoldable pub connections : Hub → ℕ
connections h = length h.clients

-- `ServeWS` up to `h.register <- c`, with what `Upgrade` answers and the pointer of the new client.
unfoldable pub serve_ws : ℕ → Bool → String → String → Hub → Hub
serve_ws c upgraded user role h =
    if upgraded
    then put c
        (record {
          user = user;
          role = role;
          send = [];
          closed = false;
          reader = joining;
          writer = idle;
          conn = [];
        })
        h
    else h

-- One round of `writePump` at `<-c.send`, with whether the frame is written.
unfoldable pub write_next : Bool → Client → Client
write_next ok x = elim x.send [
  | [] ↦ if x.closed then record x { writer = stopped } else x
  | m ∷ ms ↦
      if ok
      then record x { send = ms; conn = x.conn ++ m ∷ [] }
      else record x { send = ms; writer = stopped }
]

-- One round of `writePump` at `<-ticker.C`.
unfoldable pub write_ping : Bool → Client → Client
write_ping ok x = if ok then x else record x { writer = stopped }
