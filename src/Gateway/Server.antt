-- ===== src/Gateway/Server.antt =====
-- The routes, the token check and the middleware of internal/gateway/server.go, with the rate limits of
-- internal/redis/store.go. `http.ServeMux` is a parameter: of the patterns that are registered it picks
-- the one for a method and a path, or refuses the request by itself.
pub mod Guards
pub mod Logins
pub mod Statuses
pub mod Throttle
use nexus_dispatch.Prelude.{
  ℕ, Bool, true, false, not, ◌&&◌, ◌||◌, Option, none, some, List, [], ◌∷◌, map, String, ◌==◌, ◌<>◌,
  if◌then◌else◌,
}
use nexus_dispatch.Redis.{Redis}
use nexus_dispatch.Outcome.{Link, Outcome, ok, err, panic}
use nexus_dispatch.Hot.Store.{rate_allow}
use nexus_dispatch.Auth.{
  Role, role_user, role_driver, role_admin, Jwt, TokenManager, verify, Claims, Context, background,
  context_with_claims, require_role,
}
use nexus_dispatch.Gateway.Http.{
  Request, Decoder, Answer, Response, write_error, extract_token, client_ip,
}
use nexus_dispatch.Gateway.Api.{
  Services, Moment, Limits, World, handle_login, handle_register_driver, handle_driver_status,
  handle_driver_location, handle_create_ride, handle_get_ride, handle_cancel_ride,
  handle_nearby_drivers, handle_ws, handle_health, handle_ready, handle_metrics,
}

-- The handlers, by the name of their method.
pub data Handler : Type 0 where
  login health ready metrics : Handler
  register_driver driver_status driver_location create_ride get_ride cancel_ride : Handler
  nearby_drivers ws : Handler

-- A pattern with its handler, and the roles that `requireAuth` is given.
pub record Route : Type 0 where
  pub pattern : String
  pub roles : Option (List Role)
  pub handler : Handler

abbrev public : String → Handler → Route
public pattern h = record { pattern = pattern; roles = none; handler = h }

abbrev guarded : String → List Role → Handler → Route
guarded pattern roles h = record { pattern = pattern; roles = some roles; handler = h }

abbrev drivers : List Role
drivers = role_driver ∷ role_admin ∷ []

abbrev users : List Role
users = role_user ∷ role_admin ∷ []

-- `Routes`, with the roles of each line read as the slice that `requireAuth` takes.
unfoldable pub routes : List Route
routes =
    public "POST /api/v1/auth/login" login
    ∷ public "GET /health" health
    ∷ public "GET /ready" ready
    ∷ public "GET /metrics" metrics
    ∷ guarded "POST /api/v1/drivers" drivers register_driver
    ∷ guarded "PATCH /api/v1/drivers/{id}/status" drivers driver_status
    ∷ guarded "POST /api/v1/drivers/{id}/location" drivers driver_location
    ∷ guarded "POST /api/v1/rides" users create_ride
    ∷ guarded "GET /api/v1/rides/{id}" users get_ride
    ∷ guarded "POST /api/v1/rides/{id}/cancel" users cancel_ride
    ∷ guarded "GET /api/v1/drivers/nearby" users nearby_drivers
    ∷ guarded "GET /api/v1/ws" (role_user ∷ role_driver ∷ role_admin ∷ []) ws
    ∷ []

-- What `http.ServeMux` does with a request: a route, with the value of `{id}`, or a status of its own.
pub data Pick : Type 0 where
  chosen : Route → String → Pick
  refused : ℕ → Pick

abbrev pub Mux : Type 0
Mux = List Route → String → String → Pick

-- A response with the headers that the middleware sets.
pub record Sent (Doc : Type 0) : Type 0 where
  pub headers : List (String × String)
  pub response : Response Doc

-- The headers of `middleware`.
unfoldable pub headers_for : Moment → Request → List (String × String)
headers_for t r =
    ("X-Request-Id", if r.request_id == "" then "req-" <> t.stamp else r.request_id)
    ∷ ("X-Content-Type-Options", "nosniff")
    ∷ ("X-Frame-Options", "DENY")
    ∷ ("Content-Security-Policy", "default-src 'none'")
    ∷ []

-- A request is turned away only by an answer of Redis that says so.
abbrev pub denied : Outcome Bool → Bool
denied (ok allowed) = not allowed
denied (err e) = false
denied panic = false

abbrev pub beside : {B W C : Type 0} → B → W × C → B × W × C
beside db p = (db, p.0, p.1)

abbrev pub with_headers :
    {B W Doc : Type 0} → List (String × String) → B × W × Response Doc → B × W × Sent Doc
with_headers hs p = (p.0, p.1, record { headers = hs; response = p.2 })

module _ (R : Redis) (J : Jwt) {S Doc : Type 0} (V : Services S Doc) (D : Decoder) (mux : Mux)
    (not_routed : ℕ → Response Doc) (cfg : Limits) (tokens : TokenManager) where
  -- The handler of a route.
  unfoldable pub run_handler :
      Handler → Moment → String → Context → Request → World S → World S × Response Doc
  run_handler login t id ctx r w = handle_login J V D cfg tokens t.now r w
  run_handler health t id ctx r w = handle_health J V D w
  run_handler ready t id ctx r w = handle_ready J V D t.ping_link w
  run_handler metrics t id ctx r w = handle_metrics J V D w
  run_handler register_driver t id ctx r w = handle_register_driver J V D r w
  run_handler driver_status t id ctx r w = handle_driver_status J V D id r w
  run_handler driver_location t id ctx r w = handle_driver_location J V D id r w
  run_handler create_ride t id ctx r w = handle_create_ride J V D ctx r w
  run_handler get_ride t id ctx r w = handle_get_ride J V D id w
  run_handler cancel_ride t id ctx r w = handle_cancel_ride J V D id ctx r w
  run_handler nearby_drivers t id ctx r w = handle_nearby_drivers J V D r w
  run_handler ws t id ctx r w = handle_ws J V D t ctx w

  -- `requireAuth` behind the check of the token.
  unfoldable pub admit :
      List Role
      → Handler
      → Moment
      → String
      → Request
      → Claims
      → R.Db
      → World S
      → R.Db × World S × Response Doc
  admit roles h t id r c db w =
      let asked =
        rate_allow R t.user_link "user" c.user_id cfg.user_rate_capacity cfg.user_rate_refill 1
          t.now db in
      if require_role (context_with_claims background c) roles
      then if denied asked.1
        then (asked.0, w, write_error 429 "rate_limited")
        else beside asked.0 (run_handler h t id (context_with_claims background c) r w)
      else (db, w, write_error 403 "forbidden")

  -- `requireAuth` with what `Verify` makes of the token.
  unfoldable pub with_claims :
      Option Claims
      → List Role
      → Handler
      → Moment
      → String
      → Request
      → R.Db
      → World S
      → R.Db × World S × Response Doc
  with_claims none roles h t id r db w = (db, w, write_error 401 "invalid_token")
  with_claims (some c) roles h t id r db w = admit roles h t id r c db w

  -- `requireAuth`
  unfoldable pub require_auth :
      List Role
      → Handler
      → Moment
      → String
      → Request
      → R.Db
      → World S
      → R.Db × World S × Response Doc
  require_auth roles h t id r db w =
      if extract_token r == ""
      then (db, w, write_error 401 "missing_token")
      else with_claims (verify J tokens t.now (extract_token r)) roles h t id r db w

  -- A handler behind the roles of its route, if it has any.
  unfoldable pub run_route :
      Option (List Role)
      → Handler
      → Moment
      → String
      → Request
      → R.Db
      → World S
      → R.Db × World S × Response Doc
  run_route none h t id r db w = beside db (run_handler h t id background r w)
  run_route (some roles) h t id r db w = require_auth roles h t id r db w

  unfoldable pub serve_pick :
      Pick → Moment → Request → R.Db → World S → R.Db × World S × Response Doc
  serve_pick (refused code) t r db w = (db, w, not_routed code)
  serve_pick (chosen route id) t r db w = run_route route.roles route.handler t id r db w

  -- The mux that `Routes` builds.
  unfoldable pub serve_route : Moment → Request → R.Db → World S → R.Db × World S × Response Doc
  serve_route t r db w = serve_pick (mux routes r.method r.path) t r db w

  -- `middleware`
  unfoldable pub serve : Moment → Request → R.Db → World S → R.Db × World S × Sent Doc
  serve t r db w =
      let asked =
        rate_allow R t.ip_link "ip" (client_ip r) cfg.ip_rate_capacity cfg.ip_rate_refill 1 t.now
          db in
      if r.path == "/health" || r.path == "/metrics"
      then with_headers (headers_for t r) (serve_route t r db w)
      else if denied asked.1
      then with_headers (headers_for t r) (asked.0, w, write_error 429 "rate_limited")
      else with_headers (headers_for t r) (serve_route t r asked.0 w)
