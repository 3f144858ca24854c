-- ===== src/Tests/Hubs.antt =====
-- The theorems on the hub, in states that it reaches.
use nexus_dispatch.Prelude.{◌≡◌, refl, true, some, List, []}
use nexus_dispatch.Gateway.Hub.{
  Message, Hub, put, new_hub, subscribed, offer, register, unregister, visit, fan_out, deliver,
  broadcast, serve_ws, write_next,
}
use nexus_dispatch.Gateway.Hub.Run.{
  go, read, pop, serve, join, read_error, push, take, write, Reach, start, later,
}
use nexus_dispatch.Gateway.Hub.Fan.{offered}
use nexus_dispatch.Gateway.Hub.Invariant.{IsValid, closed_hub}
use nexus_dispatch.Gateway.Hub.Safety.{unregister-closes, deliver-offers, Reach-IsValid}
use nexus_dispatch.Gateway.Hub.Order.{Feeds, Reach-Feeds}

record At : Type 0 where
  past : List Message
  hub : Hub
  reach : Reach past hub

-- Two clients are there, and one message waits.
unfoldable two_clients : At
unfolding new_hub serve_ws put go register broadcast
two_clients = record {
  past = _;
  hub = _;
  reach =
      later
        (later
          (later (later (later start (serve 0 true "ann" "USER" refl)) (join 0 refl))
            (serve 1 true "bob" "DRIVER" refl))
          (join 1 refl))
        (push "ride" (some "{}"));
}

-- One of them has read the end of its connection.
unfoldable one_leaves : At
unfolding two_clients new_hub serve_ws put go register broadcast read
one_leaves = record { past = _; hub = _; reach = later two_clients.reach (read_error 0 refl) }

-- The message was taken, and written to the other connection.
unfoldable news_sent : At
unfolding two_clients new_hub serve_ws put go register broadcast read pop deliver fan_out visit
    offer subscribed write_next
news_sent = record {
  past = _;
  hub = _;
  reach =
      later (later two_clients.reach (take (record { kind = "ride"; payload = "{}" }) refl refl))
        (write 1 true refl);
}

unregister-closes_example : unregister 0 one_leaves.hub ≡ some (closed_hub 0 one_leaves.hub)
unfolding one_leaves two_clients new_hub serve_ws put go register broadcast read
unregister-closes_example = unregister-closes one_leaves.reach 0 refl

deliver-offers_example :
    deliver (record { kind = "ride"; payload = "{}" }) (pop [] one_leaves.hub)
    ≡ some (
        offered
          (record { kind = "ride"; payload = "{}" })
          one_leaves.hub.clients
          (pop [] one_leaves.hub))
unfolding one_leaves two_clients new_hub serve_ws put go register broadcast read
deliver-offers_example =
    deliver-offers one_leaves.reach (record { kind = "ride"; payload = "{}" }) refl

Reach-IsValid_example : IsValid news_sent.hub
Reach-IsValid_example = Reach-IsValid news_sent.reach

Reach-Feeds_example : Feeds news_sent.past news_sent.hub
Reach-Feeds_example = Reach-Feeds news_sent.reach
