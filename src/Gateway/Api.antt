-- ===== src/Gateway/Api.antt =====
-- The handlers of internal/gateway/server.go. The services behind the gateway are a parameter: the client
-- interfaces of the source, each call a function of the state of the services.
use nexus_dispatch.Prelude.{
  ℕ, ◌/◌, Bool, true, ◌||◌, Option, none, some, String, ◌==◌, ◌<>◌, if◌then◌else◌,
}
use nexus_dispatch.Prelude.Int.{ℤ, pos}
use nexus_dispatch.Redis.{Float}
use nexus_dispatch.Outcome.{Link, ok, err, panic, ask}
use nexus_dispatch.Auth.{
  Role, role_user, role_driver, role_admin, Jwt, TokenManager, issue, Context, user_id_from_context,
  role_from_context,
}
use nexus_dispatch.Gateway.Hub.{Hub, serve_ws}
use nexus_dispatch.Gateway.Http.{
  Request, Decoder, max_body, token, registered, moved, located, stale, requested, document, nearby,
  health_ok, is_ready, not_found_page, upgraded, Response, write_json, write_error, query_float,
  query_int, to_float,
}

-- What a call of a service returns: a value, or an error.
pub data Result {ℓ} (A : Type ℓ) : Type ℓ where
  done : A → Result A
  refused : Result A

-- `DriverClient`, `RideClient`, `LocationClient` and `DispatchClient`, as far as they are called.
pub record Services (S Doc : Type 0) : Type 0 where
  pub register_driver :
      String
      → String
      → String
      → String
      → String
      → ℤ
      → Float
      → Float
      → S
      → S × Result (String × String)
  pub update_driver_status : String → String → S → S × Result (String × String)
  pub create_ride : String → Float → Float → Float → Float → ℤ → S → S × Result String
  pub get_ride : String → S → S × Result Doc
  pub cancel_ride : String → String → String → S → S × Result Doc
  pub update_location : String → Float → Float → ℤ → S → S × Result (Bool × String × String)
  pub find_candidates : Float → Float → Float → ℤ → S → S × Result (Doc × ℤ × ℤ)

-- What a request meets: the clock, in milliseconds and as the layout of a request's number prints it,
-- what becomes of the commands for Redis, whether package websocket upgrades the connection, the status
-- that it answers if it does not, and the pointer of a new client.
pub record Moment : Type 0 where
  pub now : ℕ
  pub stamp : String
  pub ip_link : Link
  pub user_link : Link
  pub ping_link : Link
  pub upgrades : Bool
  pub upgrade_error : ℕ
  pub pointer : ℕ

-- The parts of `Config` that the gateway reads; no rate is negative here.
pub record Limits : Type 0 where
  pub ip_rate_capacity : ℕ
  pub ip_rate_refill : ℕ
  pub user_rate_capacity : ℕ
  pub user_rate_refill : ℕ
  pub jwt_expiry : ℕ

-- The role that `handleLogin` gives.
unfoldable pub granted_role : String → Role
granted_role r = if r == role_user || r == role_driver || r == role_admin then r else role_user

-- What the handlers change: the services and the hub.
pub record World (S : Type 0) : Type 0 where
  pub services : S
  pub hub : Hub

-- What `Decode` leaves in a field when it fails.
abbrev text_or_empty : Option String → String
text_or_empty none = ""
text_or_empty (some s) = s

module _ (J : Jwt) {S Doc : Type 0} (V : Services S Doc) (D : Decoder) where
  -- A call of a service, and the response by its result.
  unfoldable pub answer_call :
      {A : Type 0}
      → (S → S × Result A)
      → Response Doc
      → (A → Response Doc)
      → World S
      → World S × Response Doc
  answer_call call wrong right w =
      let (s, res) = call w.services in
      (record w { services = s }, elim res [ done a ↦ right a | refused ↦ wrong ])

  -- The answer to a body that is not decoded.
  unfoldable pub bad_json : World S → World S × Response Doc
  bad_json w = (w, write_error 400 "bad_request")

  -- `handleLogin`
  unfoldable pub handle_login :
      Limits → TokenManager → ℕ → Request → World S → World S × Response Doc
  unfolding bad_json
  handle_login cfg tokens now r w = elim (D.login max_body r.body) [
    | none ↦ bad_json w
    | some body ↦ if body.email == "" then bad_json w else (
      w,
      elim (issue J tokens ("user-" <> body.email) (granted_role body.role) now) [
        | none ↦ write_error 500 "internal"
        | some tok ↦ write_json 200 (token tok (granted_role body.role) (cfg.jwt_expiry / 1000))
      ],
    )
  ]

  -- `handleRegisterDriver`
  unfoldable pub handle_register_driver : Request → World S → World S × Response Doc
  unfolding bad_json
  handle_register_driver r w = elim (D.driver max_body r.body) [
    | none ↦ bad_json w
    | some b ↦
        answer_call (V.register_driver b.name b.email b.make b.model b.plate b.seats b.lat b.lng)
          (write_error 500 "internal") (λ p. write_json 201 (registered p.0 p.1)) w
  ]

  -- `handleDriverStatus`
  unfoldable pub handle_driver_status : String → Request → World S → World S × Response Doc
  unfolding bad_json
  handle_driver_status id r w = elim (D.state max_body r.body) [
    | none ↦ bad_json w
    | some state ↦
        answer_call (V.update_driver_status id state) (write_error 422 "invalid_transition")
          (λ p. write_json 200 (moved p.0 p.1)) w
  ]

  -- `handleDriverLocation`
  unfoldable pub handle_driver_location : String → Request → World S → World S × Response Doc
  unfolding bad_json
  handle_driver_location id r w = elim (D.location max_body r.body) [
    | none ↦ bad_json w
    | some b ↦
        answer_call (V.update_location id b.lat b.lng b.seq) (write_error 500 "internal")
          (λ p. if p.0 then write_json 200 (located p.1) else write_json 409 (stale p.2)) w
  ]

  -- `handleCreateRide`
  unfoldable pub handle_create_ride : Context → Request → World S → World S × Response Doc
  unfolding bad_json
  handle_create_ride ctx r w = elim (D.ride max_body r.body) [
    | none ↦ bad_json w
    | some b ↦
        answer_call
          (V.create_ride (user_id_from_context ctx) b.pickup_lat b.pickup_lng b.dropoff_lat
            b.dropoff_lng b.radius_m)
          (write_error 500 "internal") (λ id. write_json 201 (requested id)) w
  ]

  -- `handleGetRide`
  unfoldable pub handle_get_ride : String → World S → World S × Response Doc
  handle_get_ride id w =
      answer_call (V.get_ride id) (write_error 404 "not_found") (λ d. write_json 200 (document d)) w

  -- `handleCancelRide`
  unfoldable pub handle_cancel_ride : String → Context → Request → World S → World S × Response Doc
  handle_cancel_ride id ctx r w =
      answer_call
        (V.cancel_ride id (user_id_from_context ctx) (text_or_empty (D.reason max_body r.body)))
        (write_error 422 "cannot_cancel") (λ d. write_json 200 (document d)) w

  -- `handleNearbyDrivers`
  unfoldable pub handle_nearby_drivers : Request → World S → World S × Response Doc
  handle_nearby_drivers r w =
      answer_call
        (V.find_candidates (query_float D r "lat") (query_float D r "lng")
          (to_float (query_int D r "radius_m" (pos 1000))) (query_int D r "limit" (pos 20)))
        (write_error 500 "internal") (λ p. write_json 200 (nearby p.0 p.1 p.2)) w

  -- `handleWS`; where the upgrade fails, package websocket answers
  unfoldable pub handle_ws : Moment → Context → World S → World S × Response Doc
  handle_ws t ctx w = (
    record w {
      hub = serve_ws t.pointer t.upgrades (user_id_from_context ctx) (role_from_context ctx) w.hub;
    },
    if t.upgrades then write_json 101 upgraded else write_error t.upgrade_error "upgrade",
  )

  -- `handleHealth`
  unfoldable pub handle_health : World S → World S × Response Doc
  handle_health w = (w, write_json 200 health_ok)

  -- `handleReady`
  unfoldable pub handle_ready : Link → World S → World S × Response Doc
  handle_ready l w = (
    w,
    elim (ask l true) [
      | ok a ↦ write_json 200 is_ready
      | err e ↦ write_error 503 "not_ready"
      | panic ↦ write_error 503 "not_ready"
    ],
  )

  -- `handleMetrics`
  unfoldable pub handle_metrics : World S → World S × Response Doc
  handle_metrics w = (w, write_json 404 not_found_page)
