-- ===== src/Gateway/Hub/Order.antt =====
-- What a connection receives, and in which order (internal/gateway/hub.go).
use mathlib.Core.List.Sublist
use mathlib.Core.List.{Sublist, nil-sublist, append-nil, append_assoc}
use mathlib.Core.Option.{some-injective}
use nexus_dispatch.Prelude.{
  ℕ, ◌≡◌, refl, sym, ◌∙◌, subst, Bool, true, false, ◌&&◌, ltb, length, Option, none, some, List, [],
  ◌∷◌, ◌++◌, String, inl, inr, Bool-cases, eqb,
}
use nexus_dispatch.Gateway.Hub.{
  Message, leaving, gone, Client, Subs, Hub, member, delete, put, subscribed, new_hub, set_subs,
  register, broadcast, serve_ws, write_next, write_ping,
}
use nexus_dispatch.Gateway.Hub.Run.{
  go, read, pop, Step, serve, join, read_error, leave, push, take, write, ping, filter, Reach,
  start, later,
}
use nexus_dispatch.Gateway.Hub.Fan.{received, offered}
use nexus_dispatch.Gateway.Hub.Invariant.{closed_hub}
use nexus_dispatch.Gateway.Hub.Safety.{unregister-closes, deliver-offers}

-- What was written to a client's connection, and then what waits for it.
abbrev pub feed : Client → List Message
feed x = x.conn ++ x.send

-- One client's feed is made of messages that the loop has taken, in their order.
abbrev pub Follows : List Message → Client → Type 0
Follows past x = Sublist (feed x) past

Follows-more : (past ms : List Message) (x : Client) → Follows past x → Follows (past ++ ms) x
Follows-more past ms x h =
    subst (λ (l : List Message). Sublist l (past ++ ms)) (append-nil _)
      (Sublist.append h (nil-sublist ms))

Follows-send :
    (past : List Message) (m : Message) (x : Client)
    → Follows past x
    → Follows (past ++ m ∷ []) (record x { send = x.send ++ m ∷ [] })
Follows-send past m x h =
    subst (λ (l : List Message). Sublist l (past ++ m ∷ [])) (append_assoc x.conn x.send (m ∷ []))
      (Sublist.append h (Sublist.refl (m ∷ [])))

without :
    (past k : List Message) (m : Message) (ms : List Message)
    → Sublist (k ++ m ∷ ms) past
    → Sublist (k ++ ms) past
without past k m ms h =
    Sublist.trans (Sublist.append (Sublist.refl k) (Sublist.cons m (Sublist.refl ms))) h

moved :
    (past k : List Message) (m : Message) (ms : List Message)
    → Sublist (k ++ m ∷ ms) past
    → Sublist (k ++ m ∷ [] ++ ms) past
moved past k m ms h = rw (append_assoc k (m ∷ []) ms) h

write_next_at :
    (past : List Message) (ok : Bool) (x : Client) (s : List Message)
    → x.send ≡ s
    → Sublist (x.conn ++ s) past
    → Follows past (write_next ok x)
unfolding write_next
write_next_at past ok x [] e h = elim (Bool-cases x.closed) [
  | inl c ↦ rw (write_next, e, c, e) h
  | inr c ↦ rw (write_next, e, c, e) h
]
write_next_at past true x (m ∷ ms) e h = rw (write_next, e) (moved past x.conn m ms h)
write_next_at past false x (m ∷ ms) e h = rw (write_next, e) (without past x.conn m ms h)

Follows-write_next :
    (past : List Message) (ok : Bool) (x : Client) → Follows past x → Follows past (write_next ok x)
Follows-write_next past ok x h = write_next_at past ok x x.send refl h

Follows-write_ping :
    (past : List Message) (ok : Bool) (x : Client) → Follows past x → Follows past (write_ping ok x)
unfolding write_ping
Follows-write_ping past true x h = h
Follows-write_ping past false x h = h

Follows-received :
    (past : List Message) (subs : Subs) (m : Message) (x : Client)
    → Follows past x
    → Follows (past ++ m ∷ []) (received subs m x)
Follows-received past subs m x h =
    elim (Bool-cases (subscribed subs x.user m.kind && ltb (length x.send) 256)) [
      | inl e ↦ rw e (Follows-send past m x h)
      | inr e ↦ rw e (Follows-more past (m ∷ []) x h)
    ]

abbrev pub Feeds : List Message → Hub → Type 0
Feeds past h = (c : ℕ) → Follows past (h.heap c)

Feeds-put :
    (past : List Message) (c : ℕ) (x : Client) (h : Hub)
    → Feeds past h
    → Follows past x
    → Feeds past (put c x h)
unfolding put
Feeds-put past c x h f k d = elim (Bool-cases (eqb d c)) [ inl e ↦ rw e k | inr e ↦ rw e (f d) ]

Feeds-broadcast :
    (past : List Message) (kind : String) (payload : Option String) (h : Hub)
    → Feeds past h
    → Feeds past (broadcast kind payload h)
unfolding broadcast
Feeds-broadcast past kind none h f = f
Feeds-broadcast past kind (some b) h f = elim (Bool-cases (ltb (length h.broadcast) 1024)) [
  | inl e ↦ rw e f
  | inr e ↦ rw e f
]

Feeds-offered :
    (past : List Message) (m : Message) (cs : List ℕ) (h : Hub)
    → Feeds past h
    → Feeds (past ++ m ∷ []) (offered m cs h)
Feeds-offered past m cs h f c = elim (Bool-cases (member c cs)) [
  | inl e ↦ rw e (Follows-received past h.subs m (h.heap c) (f c))
  | inr e ↦ rw e (Follows-more past (m ∷ []) (h.heap c) (f c))
]

Feeds-serve_ws :
    (past : List Message) (c : ℕ) (upgraded : Bool) (user role : String) (h : Hub)
    → Feeds past h
    → Feeds past (serve_ws c upgraded user role h)
unfolding serve_ws
Feeds-serve_ws past c true user role h f = Feeds-put past c _ h f (nil-sublist past)
Feeds-serve_ws past c false user role h f = f

Feeds-quiet : (past : List Message) (h : Hub) → Feeds past h → Feeds (past ++ []) h
Feeds-quiet past h f c = Follows-more past [] (h.heap c) (f c)

closed-Feeds :
    (past : List Message) (c : ℕ) (h : Hub)
    → Feeds past h
    → Feeds past (read gone c (closed_hub c h))
unfolding closed_hub read
closed-Feeds past c h f =
    let g : Feeds past
        (put c (record (h.heap c) { closed = true }) (record h { clients = delete c h.clients })) =
      Feeds-put past c _ _ f (f c) in
    Feeds-put past c _ _ g (g c)

Step-Feeds :
    {past ms : List Message} {h h' : Hub}
    → Reach past h
    → Step h ms h'
    → Feeds past h
    → Feeds (past ++ ms) h'
Step-Feeds {past} {h} r (serve c upgraded user role e) f =
    Feeds-quiet past (serve_ws c upgraded user role h)
      (Feeds-serve_ws past c upgraded user role h f)
Step-Feeds {past} {h} r (join c e) f =
    Feeds-quiet past (go c (register c h)) (unfold go register in Feeds-put past c _ _ f (f c))
Step-Feeds {past} {h} r (read_error c e) f =
    Feeds-quiet past (read leaving c h) (unfold read in Feeds-put past c _ h f (f c))
Step-Feeds {past} {h} r (leave c {h'} e p) f = Feeds-quiet past (read gone c h') (
    subst (λ k. Feeds past (read gone c k)) (some-injective _ _ (sym (unregister-closes r c e) ∙ p))
      (closed-Feeds past c h f))
Step-Feeds {past} {h} r (push kind payload) f =
    Feeds-quiet past (broadcast kind payload h) (Feeds-broadcast past kind payload h f)
Step-Feeds {past} {h} r (take m {ms} e p) f =
    subst (Feeds (past ++ m ∷ [])) (some-injective _ _ (sym (deliver-offers r m e) ∙ p))
      (Feeds-offered past m h.clients (pop ms h) (unfold pop in f))
Step-Feeds {past} {h} r (write c ok e) f =
    Feeds-quiet past (put c (write_next ok (h.heap c)) h)
      (Feeds-put past c _ h f (Follows-write_next past ok (h.heap c) (f c)))
Step-Feeds {past} {h} r (ping c ok e) f =
    Feeds-quiet past (put c (write_ping ok (h.heap c)) h)
      (Feeds-put past c _ h f (Follows-write_ping past ok (h.heap c) (f c)))
Step-Feeds {past} {h} r (filter user types) f =
    Feeds-quiet past (set_subs user types h) (unfold set_subs in f)

-- In every state that the hub reaches, what was written to the connection of a client, followed by
-- what waits in its channel, is a sublist of the messages that the loop has taken from its queue, in
-- their order.
pub Reach-Feeds : {past : List Message} {h : Hub} → Reach past h → Feeds past h
Reach-Feeds start = unfold new_hub in λ c. nil-sublist []
Reach-Feeds (later r s) = Step-Feeds r s (Reach-Feeds r)
