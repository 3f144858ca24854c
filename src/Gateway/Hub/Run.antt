-- ===== src/Gateway/Hub/Run.antt =====
-- The goroutines of internal/gateway/hub.go, interleaved in any order.
use nexus_dispatch.Prelude.{ℕ, ◌≡◌, Bool, Option, some, List, [], ◌∷◌, ◌++◌, String}
use nexus_dispatch.Gateway.Hub.{
  Message, Reader, unborn, joining, reading, leaving, gone, running, Hub, put, new_hub, set_subs,
  register, unregister, deliver, broadcast, serve_ws, write_next, write_ping,
}

-- The pumps of a client start behind `h.register <- c`.
unfoldable pub go : ℕ → Hub → Hub
go c h = put c (record (h.heap c) { reader = reading; writer = running }) h

unfoldable pub read : Reader → ℕ → Hub → Hub
read r c h = put c (record (h.heap c) { reader = r }) h

unfoldable pub pop : List Message → Hub → Hub
pop ms h = record h { broadcast = ms }

-- One step, with the message that the loop takes from the queue in it, if it takes one. A step of
-- the loop that panics leads nowhere.
pub data Step (h : Hub) : List Message → Hub → Type 0 where
  serve :
      (c : ℕ) (upgraded : Bool) (user role : String)
      → (h.heap c).reader ≡ unborn
      → Step h [] (serve_ws c upgraded user role h)
  join : (c : ℕ) → (h.heap c).reader ≡ joining → Step h [] (go c (register c h))
  read_error : (c : ℕ) → (h.heap c).reader ≡ reading → Step h [] (read leaving c h)
  leave :
      (c : ℕ) {h' : Hub}
      → (h.heap c).reader ≡ leaving
      → unregister c h ≡ some h'
      → Step h [] (read gone c h')
  push : (kind : String) (payload : Option String) → Step h [] (broadcast kind payload h)
  take :
      (m : Message) {ms : List Message} {h' : Hub}
      → h.broadcast ≡ m ∷ ms
      → deliver m (pop ms h) ≡ some h'
      → Step h (m ∷ []) h'
  write :
      (c : ℕ) (ok : Bool)
      → (h.heap c).writer ≡ running
      → Step h [] (put c (write_next ok (h.heap c)) h)
  ping :
      (c : ℕ) (ok : Bool)
      → (h.heap c).writer ≡ running
      → Step h [] (put c (write_ping ok (h.heap c)) h)
  filter : (user : String) (types : List String) → Step h [] (set_subs user types h)

-- What the hub reaches from its start, with the messages that its loop has taken, oldest first.
pub data Reach : List Message → Hub → Type 0 where
  start : Reach [] new_hub
  later :
      {past ms : List Message} {h h' : Hub} → Reach past h → Step h ms h' → Reach (past ++ ms) h'
