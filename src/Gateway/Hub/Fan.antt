-- ===== src/Gateway/Hub/Fan.antt =====
-- What the loop of `Run` over the clients does (internal/gateway/hub.go).
use mathlib.Core.Path.{fun_ext}
use nexus_dispatch.Prelude.{
  ℕ, ◌≡◌, refl, ap, ◌∙◌, true, false, ◌&&◌, some, List, [], ◌∷◌, ◌++◌, length, ltb, arith,
  if◌then◌else◌,
}
use nexus_dispatch.Gateway.Hub.{
  Message, Client, Subs, Hub, member, put, subscribed, offer, visit, fan_out,
}

-- What one message makes of a client that is in the map.
abbrev pub received : Subs → Message → Client → Client
received subs m x =
    if subscribed subs x.user m.kind && ltb (length x.send) 256
    then record x { send = x.send ++ m ∷ [] }
    else x

abbrev pub Distinct : List ℕ → Type 0
Distinct [] = Unit
Distinct (c ∷ cs) = (member c cs ≡ false) × Distinct cs

-- Every client of a list, and no other, has been offered the message.
abbrev pub offered : Message → List ℕ → Hub → Hub
offered m cs h = record h {
  heap = λ d. if member d cs then received h.subs m (h.heap d) else h.heap d;
}

put-same : (c : ℕ) (h : Hub) → put c (h.heap c) h ≡ h
unfolding put
put-same c h = ap (λ (f : ℕ → Client). record h { heap = f }) (fun_ext (λ d. ground arith))

closed-received : (subs : Subs) (m : Message) (x : Client) → (received subs m x).closed ≡ x.closed
closed-received subs m x = ground arith

visit_open :
    (m : Message) (c : ℕ) (h : Hub)
    → (h.heap c).closed ≡ false
    → visit m c h ≡ some (put c (received h.subs m (h.heap c)) h)
unfolding visit offer
visit_open m c h e = ground (arith, put-same c h)

put-received :
    (m : Message) (c : ℕ) (cs : List ℕ) (h : Hub)
    → member c cs ≡ false
    → offered m cs (put c (received h.subs m (h.heap c)) h) ≡ offered m (c ∷ cs) h
unfolding put
put-received m c cs h e =
    ap (λ (f : ℕ → Client). record h { heap = f }) (fun_ext (λ d. ground arith))

closed-put :
    (m : Message) (c e : ℕ) (h : Hub)
    → ((put c (received h.subs m (h.heap c)) h).heap e).closed ≡ (h.heap e).closed
unfolding put
closed-put m c e h = ground arith

closed_rest :
    (m : Message) (c : ℕ) (cs : List ℕ) (h : Hub)
    → ((e : ℕ) → member e (c ∷ cs) ≡ true → (h.heap e).closed ≡ false)
    → (e : ℕ) → member e cs ≡ true
    → ((put c (received h.subs m (h.heap c)) h).heap e).closed ≡ false
closed_rest m c cs h o e k = closed-put m c e h ∙ o e (ground arith)

fan_out_next :
    (m : Message) (c : ℕ) (cs : List ℕ) (h h' : Hub)
    → visit m c h ≡ some h'
    → fan_out m (c ∷ cs) h ≡ fan_out m cs h'
unfolding fan_out
fan_out_next m c cs h h' e = rw (fan_out, e) refl

-- With no client twice in the list and every channel in it open, the loop does not panic.
pub fan_out-offered :
    (m : Message) (cs : List ℕ) (h : Hub)
    → Distinct cs
    → ((c : ℕ) → member c cs ≡ true → (h.heap c).closed ≡ false)
    → fan_out m cs h ≡ some (offered m cs h)
unfolding fan_out
fan_out-offered m [] h d o = refl
fan_out-offered m (c ∷ cs) h (n, d) o =
    fan_out_next m c cs h _ (visit_open m c h (o c (ground arith)))
    ∙ fan_out-offered m cs _ d (closed_rest m c cs h o)
    ∙ ap some (put-received m c cs h n)
