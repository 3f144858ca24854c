-- ===== src/Bootstrap.antt =====
-- internal/server/server.go: how a service opens its listeners, serves and stops. `net.Listen` is a
-- parameter: whether an address can be listened on, by the addresses that the process listens on already.
-- Left out are logs, tracing's start, and what the handlers of the admin server answer.
pub mod Starts
use nexus_dispatch.Prelude.{
  Bool, true, false, not, ◌&&◌, ◌||◌, List, [], ◌∷◌, ◌++◌, String, ◌==◌, if◌then◌else◌,
}
use nexus_dispatch.Config.{Config}

-- `Deps`, by which of its parts are there.
pub record Deps : Type 0 where
  pub config : Config
  pub tracer : Bool
  pub register_grpc : Bool
  pub extra_http : Bool
  pub on_shutdown : Bool

-- What `Run` does, in order.
pub data Action : Type 0 where
  register_services register_health : Action
  listen : String → Action
  stop_grpc : Action
  serve_grpc serve_admin serve_http : Action
  signal : Action
  shutdown_http shutdown_admin not_serving graceful_stop shutdown_tracer on_shutdown : Action

-- What `Run` returns: nil, or the address at which it could not listen.
pub data Result : Type 0 where
  stopped : Result
  grpc_failed admin_failed http_failed : String → Result

abbrev only : Bool → Action → List Action
only b a = if b then a ∷ [] else []

-- Whether the public server is started.
unfoldable pub wants_http : Deps → Bool
wants_http d = not (d.config.http_addr == "") && (d.extra_http || d.register_grpc)

unfoldable pub prepare : Deps → List Action
prepare d = only d.register_grpc register_services ++ register_health ∷ []

-- From the start of the servers to the end.
unfoldable pub serve_and_stop : Deps → Bool → List Action
serve_and_stop d http =
    serve_grpc ∷ serve_admin ∷ only http serve_http
    ++ signal ∷ only http shutdown_http
    ++ shutdown_admin ∷ not_serving ∷ graceful_stop ∷ only d.tracer shutdown_tracer
    ++ only d.on_shutdown on_shutdown

module _ (can_listen : List String → String → Bool) where
  -- `Run`, the third listener and what follows
  unfoldable pub open_http : Deps → List Action × Result
  open_http d =
      let c = d.config in
      if wants_http d
      then if can_listen (c.admin_addr ∷ c.grpc_addr ∷ []) c.http_addr
        then (listen c.http_addr ∷ serve_and_stop d true, stopped)
        else (stop_grpc ∷ [], http_failed c.http_addr)
      else (serve_and_stop d false, stopped)

  abbrev before : List Action → List Action × Result → List Action × Result
  before done p = (done ++ p.0, p.1)

  -- `Run`
  unfoldable pub run : Deps → List Action × Result
  run d =
      let c = d.config in
      let rest = open_http d in
      if can_listen [] c.grpc_addr
      then if can_listen (c.grpc_addr ∷ []) c.admin_addr
        then before (prepare d ++ listen c.grpc_addr ∷ listen c.admin_addr ∷ []) rest
        else (prepare d ++ listen c.grpc_addr ∷ stop_grpc ∷ [], admin_failed c.admin_addr)
      else (prepare d, grpc_failed c.grpc_addr)
