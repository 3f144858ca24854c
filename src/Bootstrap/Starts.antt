-- ===== src/Bootstrap/Starts.antt =====
-- When a service starts (internal/server/server.go with internal/config/config.go).
use nexus_dispatch.Prelude.{
  ◌≡◌, ◌⊎◌, ◌↔◌, refl, sym, ap, ◌∙◌, Bool, true, false, List, [], ◌∷◌, String, ==-refl, arith,
}
use nexus_dispatch.Config.{Environment, Config, default_port, load, get_env}
use nexus_dispatch.Bootstrap.{Deps, stopped, grpc_failed, admin_failed, wants_http, open_http, run}

-- The service has a port of its own among the defaults.
abbrev pub HasPort : String → Type 0
HasPort service = (default_port service "9000" ≡ default_port service "9100")

get_env-unset :
    (env : Environment) (k default : String) → env.getenv k ≡ "" → get_env env k default ≡ default
unfolding get_env
get_env-unset env k default e = rw (get_env, e, ==-refl "") refl

module _ (can_listen : List String → String → Bool) where
  -- Both listeners ask for one address.
  run_same :
      (d : Deps) (a : String)
      → d.config.grpc_addr ≡ a
      → d.config.admin_addr ≡ a
      → can_listen (a ∷ []) a ≡ false
      → ((run can_listen d).1 ≡ grpc_failed a) ⊎ ((run can_listen d).1 ≡ admin_failed a)
  unfolding run
  run_same d a e f h = ground arith

  -- A service whose default port is one for all its addresses does not start with the gRPC and the
  -- admin address unset in the environment, where an address cannot be listened on twice: one of the
  -- two listeners fails.
  pub run-default :
      (env : Environment) (service : String) (d : Deps)
      → HasPort service
      → can_listen (default_port service "9000" ∷ []) (default_port service "9000") ≡ false
      → d.config ≡ load env service
      → env.getenv "GRPC_ADDR" ≡ ""
      → env.getenv "ADMIN_ADDR" ≡ ""
      → ((run can_listen d).1 ≡ grpc_failed (default_port service "9000"))
        ⊎ ((run can_listen d).1 ≡ admin_failed (default_port service "9000"))
  unfolding load
  run-default env service d p h e f g =
      run_same d (default_port service "9000")
        (ap (λ (c : Config). c.grpc_addr) e ∙ get_env-unset env "GRPC_ADDR" _ f)
        (ap (λ (c : Config). c.admin_addr) e ∙ get_env-unset env "ADMIN_ADDR" _ g ∙ sym p) h

  -- A service runs until it is stopped exactly where each listener that it wants can be opened.
  pub run-stopped :
      (d : Deps)
      → let c = d.config in
        ((run can_listen d).1 ≡ stopped) ↔ (
          (can_listen [] c.grpc_addr ≡ true)
          × (can_listen (c.grpc_addr ∷ []) c.admin_addr ≡ true)
          × ((wants_http d ≡ false)
              ⊎ (can_listen (c.admin_addr ∷ c.grpc_addr ∷ []) c.http_addr ≡ true)))
  unfolding run open_http
  run-stopped d = (λ e. (ground arith, ground arith, ground arith), λ h. ground arith)
