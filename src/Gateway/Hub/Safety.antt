-- ===== src/Gateway/Hub/Safety.antt =====
-- What holds in every state that the hub reaches, and why its loop never panics
-- (internal/gateway/hub.go).
use mathlib.Core.Option.{some-injective}
use nexus_dispatch.Prelude.{ℕ, ◌≤◌, ◌≡◌, refl, sym, ◌∙◌, subst, some, List, ◌∷◌, length, arith}
use nexus_dispatch.Gateway.Hub.{Message, leaving, gone, Hub, new_hub, set_subs, unregister, deliver}
use nexus_dispatch.Gateway.Hub.Run.{
  read, pop, Step, serve, join, read_error, leave, push, take, write, ping, filter, Reach, start,
  later,
}
use nexus_dispatch.Gateway.Hub.Fan.{offered}
use nexus_dispatch.Gateway.Hub.Invariant.{
  IsValid, deliver-offered, IsValid-put, register-IsValid, serve_ws-IsValid, read-IsValid,
  closed_hub, unregister-closed_hub, closed_hub-IsValid, write_next-IsFit, write_ping-IsFit,
  broadcast-IsValid, offered-IsValid,
}

pop-IsValid :
    {h : Hub} {m : Message} {ms : List Message}
    → h.broadcast ≡ m ∷ ms
    → IsValid h
    → IsValid (pop ms h)
pop-IsValid {h} {m} {ms} e v =
    unfold pop in
    record {
      distinct = v.distinct;
      fit = v.fit;
      queue = shorter m ms (subst (λ (q : List Message). length q ≤ 1024) e v.queue);
    }
  where
    shorter : (x : Message) (ms : List Message) → length (x ∷ ms) ≤ 1024 → length ms ≤ 1024
    shorter x ms le = omega (arith, le)

-- Every step keeps the hub valid.
pub Step-IsValid : {h h' : Hub} {ms : List Message} → Step h ms h' → IsValid h → IsValid h'
Step-IsValid (serve c upgraded user role e) v = serve_ws-IsValid c upgraded user role _ v e
Step-IsValid (join c e) v = register-IsValid c _ v e
Step-IsValid (read_error c e) v = read-IsValid c _ v e
Step-IsValid {h} (leave c e p) v =
    subst (λ k. IsValid (read gone c k))
      (some-injective _ _ (sym (unregister-closed_hub c h v e) ∙ p)) (closed_hub-IsValid c h v)
Step-IsValid (push kind payload) v = broadcast-IsValid kind payload _ v
Step-IsValid {h} (take m {ms} e p) v =
    let w = pop-IsValid e v in
    subst IsValid (some-injective _ _ (sym (deliver-offered m (pop ms h) w) ∙ p))
      (offered-IsValid m _ w)
Step-IsValid {h} (write c ok e) v = IsValid-put c _ h v (write_next-IsFit _ ok _ (v.fit c))
Step-IsValid {h} (ping c ok e) v = IsValid-put c _ h v (write_ping-IsFit _ ok _ (v.fit c))
Step-IsValid {h} (filter user types) v =
    unfold set_subs in record { distinct = v.distinct; fit = v.fit; queue = v.queue }

new_hub-IsValid : IsValid new_hub
new_hub-IsValid =
    unfold new_hub in
    record {
      distinct = tt;
      fit = λ c. record { mapped = refl; shut = refl; room = omega arith };
      queue = omega arith;
    }

-- In every state that the hub reaches, the map holds no client twice and exactly those between
-- register and unregister, a channel is closed exactly when its client was unregistered, no channel
-- holds more than 256 messages, and the queue holds at most 1024.
pub Reach-IsValid : {past : List Message} {h : Hub} → Reach past h → IsValid h
Reach-IsValid start = new_hub-IsValid
Reach-IsValid (later r s) = Step-IsValid s (Reach-IsValid r)

-- In every state that the hub reaches, the client whose read pump asks to be unregistered is taken
-- from the map and its channel is closed, without a panic over a channel that is closed twice.
pub unregister-closes :
    {past : List Message} {h : Hub}
    → Reach past h
    → (c : ℕ) → (h.heap c).reader ≡ leaving
    → unregister c h ≡ some (closed_hub c h)
unregister-closes r c e = unregister-closed_hub c _ (Reach-IsValid r) e

-- In every state that the hub reaches, a message at the head of the queue is delivered without a
-- panic over a closed channel: each client in the map that is subscribed and has room gets it at the
-- end of its channel, every other client is left as it was.
pub deliver-offers :
    {past : List Message} {h : Hub}
    → Reach past h
    → (m : Message) {ms : List Message} → h.broadcast ≡ m ∷ ms
    → deliver m (pop ms h) ≡ some (offered m h.clients (pop ms h))
unfolding pop
deliver-offers r m e = deliver-offered m _ (pop-IsValid e (Reach-IsValid r))
