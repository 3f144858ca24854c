-- ===== src/Gateway/Hub/Invariant.antt =====
-- What holds of the hub at every moment: which clients are in the map, whose channel is closed, and
-- how much the channels hold (internal/gateway/hub.go).
use native.Mathlib.Decide.{ℕ_discrete}
use nexus_dispatch.Prelude.{
  ℕ, ◌≤◌, ◌≡◌, ◌≢◌, refl, sym, ap, ◌∙◌, subst, Bool, true, false, Option, none, some, List, [], ◌∷◌,
  String, inl, inr, Bool-cases, length, length-append, ltb, eqb, arith, if◌then◌else◌,
}
use nexus_dispatch.Gateway.Hub.{
  Message, Reader, unborn, joining, reading, leaving, gone, running, Client, Subs, Hub, member,
  delete, put, close_send, register, unregister, deliver, broadcast, serve_ws, write_next,
  write_ping,
}
use nexus_dispatch.Gateway.Hub.Run.{go, read}
use nexus_dispatch.Gateway.Hub.Fan.{Distinct, received, offered, fan_out-offered}

-- The clients that are in the map, by where their read pump stands.
abbrev pub is_listed : Reader → Bool
is_listed reading = true
is_listed leaving = true
is_listed _ = false

abbrev pub is_gone : Reader → Bool
is_gone gone = true
is_gone _ = false

-- What holds of one client, by whether it is in the map.
pub record IsFit (inside : Bool) (x : Client) : Type 0 where
  pub mapped : inside ≡ is_listed x.reader
  pub shut : x.closed ≡ is_gone x.reader
  pub room : length x.send ≤ 256

pub record IsValid (h : Hub) : Type 0 where
  pub distinct : Distinct h.clients
  pub fit : (c : ℕ) → IsFit (member c h.clients) (h.heap c)
  pub queue : length h.broadcast ≤ 1024

listed_stays : (r : Reader) → is_listed r ≡ true → is_gone r ≡ false
listed_stays r e = ground arith

-- The channel of a client in the map is open.
pub open_inside :
    {h : Hub} → IsValid h → (c : ℕ) → member c h.clients ≡ true → (h.heap c).closed ≡ false
open_inside v c e = (v.fit c).shut ∙ listed_stays _ (sym (v.fit c).mapped ∙ e)

-- The loop's case for a message.
pub deliver-offered :
    (m : Message) (h : Hub) → IsValid h → deliver m h ≡ some (offered m h.clients h)
unfolding deliver
deliver-offered m h v = fan_out-offered m h.clients h v.distinct (open_inside v)

heap-put_same : (c : ℕ) (x : Client) (h : Hub) → (put c x h).heap c ≡ x
unfolding put
heap-put_same c x h = ground arith

heap-put_other : (c d : ℕ) (x : Client) (h : Hub) → d ≢ c → (put c x h).heap d ≡ h.heap d
unfolding put
heap-put_other c d x h n = ground arith

IsFit-put :
    (h : Hub) (c : ℕ) (x : Client) (b : ℕ → Bool)
    → ((d : ℕ) → d ≢ c → IsFit (b d) (h.heap d))
    → IsFit (b c) x
    → (d : ℕ) → IsFit (b d) ((put c x h).heap d)
IsFit-put h c x b k fit d = elim (ℕ_discrete d c) [
  | yes e ↦ rw (e, heap-put_same c x h) fit
  | no n ↦ rw (heap-put_other c d x h n) (k d n)
]

member-delete :
    (c d : ℕ) (cs : List ℕ) → member d (delete c cs) ≡ (if eqb d c then false else member d cs)
member-delete c d [] = ground arith
member-delete c d (e ∷ es) = ground (arith, member-delete c d es)

Distinct-delete : (c : ℕ) (cs : List ℕ) → Distinct cs → Distinct (delete c cs)
Distinct-delete c [] k = tt
Distinct-delete c (e ∷ es) (n, d) = elim (Bool-cases (eqb c e)) [
  | inl p ↦ rw p (Distinct-delete c es d)
  | inr p ↦ rw p (ground (arith, member-delete c e es), Distinct-delete c es d)
]

pub IsValid-put :
    (c : ℕ) (x : Client) (h : Hub) → IsValid h → IsFit (member c h.clients) x → IsValid (put c x h)
IsValid-put c x h v fit = record {
  distinct = unfold put in v.distinct;
  fit = unfold put in IsFit-put h c x (λ d. member d h.clients) (λ d n. v.fit d) fit;
  queue = unfold put in v.queue;
}

eqb-ne : {c d : ℕ} → d ≢ c → eqb d c ≡ false
eqb-ne n = ground arith

-- Where a pump stands says whether the map has its client.
place :
    {h : Hub}
    → IsValid h
    → (c : ℕ) {r : Reader} → (h.heap c).reader ≡ r
    → member c h.clients ≡ is_listed r
place v c e = (v.fit c).mapped ∙ ap is_listed e

open_outside :
    {h : Hub} → IsValid h → (c : ℕ) → (h.heap c).reader ≡ joining → (h.heap c).closed ≡ false
open_outside v c e = (v.fit c).shut ∙ ap is_gone e

pub register-IsValid :
    (c : ℕ) (h : Hub) → IsValid h → (h.heap c).reader ≡ joining → IsValid (go c (register c h))
unfolding register go
register-IsValid c h v e = record {
  distinct = unfold put in rw (place v c e) (place v c e, v.distinct);
  fit =
      unfold put in
      rw (place v c e) (
        IsFit-put h c (record (h.heap c) { reader = reading; writer = running })
          (λ d. member d (c ∷ h.clients)) (λ d n. rw (eqb-ne n) (v.fit d))
          (record { mapped = ground arith; shut = open_outside v c e; room = (v.fit c).room }));
  queue = unfold put in v.queue;
}

pub serve_ws-IsValid :
    (c : ℕ) (upgraded : Bool) (user role : String) (h : Hub)
    → IsValid h
    → (h.heap c).reader ≡ unborn
    → IsValid (serve_ws c upgraded user role h)
unfolding serve_ws
serve_ws-IsValid c true user role h v e =
    IsValid-put c _ h v (record { mapped = place v c e; shut = refl; room = omega arith })
serve_ws-IsValid c false user role h v e = v

pub read-IsValid :
    (c : ℕ) (h : Hub) → IsValid h → (h.heap c).reader ≡ reading → IsValid (read leaving c h)
unfolding read
read-IsValid c h v e =
    IsValid-put c _ h v
      (record { mapped = place v c e; shut = open_inside v c (place v c e); room = (v.fit c).room })

-- The hub behind `close(c.send)`.
unfoldable pub closed_hub : ℕ → Hub → Hub
closed_hub c h =
    put c (record (h.heap c) { closed = true }) (record h { clients = delete c h.clients })

pub unregister-closed_hub :
    (c : ℕ) (h : Hub)
    → IsValid h
    → (h.heap c).reader ≡ leaving
    → unregister c h ≡ some (closed_hub c h)
unfolding unregister close_send closed_hub
unregister-closed_hub c h v e = rw (place v c e, open_inside v c (place v c e)) refl

pub closed_hub-IsValid : (c : ℕ) (h : Hub) → IsValid h → IsValid (read gone c (closed_hub c h))
unfolding closed_hub read
closed_hub-IsValid c h v = record {
  distinct = unfold put in Distinct-delete c h.clients v.distinct;
  fit =
      unfold put in
      IsFit-put (put c x rest) c (record ((put c x rest).heap c) { reader = gone })
        (λ d. member d (delete c h.clients))
        (λ d n. rw (heap-put_other c d x rest n, member-delete c d h.clients, eqb-ne n) (v.fit d))
        last;
  queue = unfold put in v.queue;
}
  where
    x : Client
    x = record (h.heap c) { closed = true }

    rest : Hub
    rest = record h { clients = delete c h.clients }

    last : IsFit (member c (delete c h.clients)) (record ((put c x rest).heap c) { reader = gone })
    last = rw (heap-put_same c x rest) (record {
      mapped = ground (arith, member-delete c c h.clients);
      shut = refl;
      room = (v.fit c).room;
    })

pub write_next-IsFit : (b : Bool) (ok : Bool) (x : Client) → IsFit b x → IsFit b (write_next ok x)
unfolding write_next
write_next-IsFit b ok x fit = record {
  mapped = ground arith;
  shut = ground arith;
  room = ground arith;
}

pub write_ping-IsFit : (b : Bool) (ok : Bool) (x : Client) → IsFit b x → IsFit b (write_ping ok x)
unfolding write_ping
write_ping-IsFit b ok x fit = record {
  mapped = ground arith;
  shut = ground arith;
  room = ground arith;
}

pub broadcast-IsValid :
    (kind : String) (payload : Option String) (h : Hub)
    → IsValid h
    → IsValid (broadcast kind payload h)
unfolding broadcast
broadcast-IsValid kind none h v = v
broadcast-IsValid kind (some b) h v = elim (Bool-cases (ltb (length h.broadcast) 1024)) [
  | inl e ↦ rw e (record {
    distinct = v.distinct;
    fit = v.fit;
    queue = ground (arith, length-append h.broadcast (record { kind = kind; payload = b } ∷ []));
  })
  | inr e ↦ rw e v
]

received-IsFit :
    (b : Bool) (subs : Subs) (m : Message) (x : Client) → IsFit b x → IsFit b (received subs m x)
received-IsFit b subs m x fit = record {
  mapped = ground arith;
  shut = ground arith;
  room = ground (arith, length-append x.send (m ∷ []));
}

pub offered-IsValid : (m : Message) (h : Hub) → IsValid h → IsValid (offered m h.clients h)
offered-IsValid m h v = record { distinct = v.distinct; fit = fit; queue = v.queue }
  where
    fit :
        (d : ℕ)
        → IsFit
            (member d h.clients)
            (if member d h.clients then received h.subs m (h.heap d) else h.heap d)
    fit d = elim (Bool-cases (member d h.clients)) [
      | inl e ↦ rw e (received-IsFit true h.subs m _ (subst (λ b. IsFit b (h.heap d)) e (v.fit d)))
      | inr e ↦ rw e (subst (λ b. IsFit b (h.heap d)) e (v.fit d))
    ]
