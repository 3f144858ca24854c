-- ===== src/Gateway/Server/Guards.antt =====
-- What it takes to reach a handler (internal/gateway/server.go).
use nexus_dispatch.Prelude.{
  ℕ, ◌≡◌, refl, subst, ◌⊎◌, inl, inr, Bool, true, false, ◌&&◌, ◌||◌, Option, none, some, List, [],
  ◌∷◌, String, ◌==◌, arith, Bool-cases,
}
use nexus_dispatch.Redis.{Redis}
use nexus_dispatch.Outcome.{Outcome}
use nexus_dispatch.Hot.Store.{rate_allow}
use nexus_dispatch.Auth.{
  Role, Jwt, TokenManager, verify, Claims, Context, background, context_with_claims, require_role,
}
use nexus_dispatch.Auth.Laws.{OneOf, require_role_iff}
use nexus_dispatch.Gateway.Http.{Request, Decoder, Response, extract_token, client_ip}
use nexus_dispatch.Gateway.Api.{
  Services, Moment, Limits, World, handle_login, handle_health, handle_ready, handle_metrics,
  bad_json,
}
use nexus_dispatch.Gateway.Server.{
  Handler, login, health, ready, metrics, register_driver, driver_status, driver_location,
  create_ride, get_ride, cancel_ride, nearby_drivers, ws, Route, routes, Pick, chosen, refused, Mux,
  denied, with_claims, run_route, serve_pick, run_handler, admit, require_auth, serve_route, serve,
}

-- The route is one of a list.
abbrev pub Among : Route → List Route → Type 0
Among r [] = ⊥
Among r (x ∷ xs) = (r ≡ x) ⊎ Among r xs

-- What package http documents of a mux: it picks a route that was registered.
pub record IsMux (mux : Mux) : Type 0 where
  pub picks :
      (rs : List Route) (method path : String) (route : Route) (id : String)
      → mux rs method path ≡ chosen route id
      → Among route rs

-- The handlers that need no token.
abbrev is_public : Handler → Bool
is_public login = true
is_public health = true
is_public ready = true
is_public metrics = true
is_public _ = false

-- A route without roles has a handler that needs no token.
abbrev is_open : Route → Bool
is_open route = elim route.roles [ none ↦ is_public route.handler | some roles ↦ true ]

abbrev all_open : List Route → Bool
all_open [] = true
all_open (x ∷ xs) = is_open x && all_open xs

Among-is_open :
    (route : Route) (rs : List Route) → Among route rs → all_open rs ≡ true → is_open route ≡ true
Among-is_open route [] h e = elim h [ ]
Among-is_open route (x ∷ xs) (inl p) e = rw p (ground arith)
Among-is_open route (x ∷ xs) (inr h) e = Among-is_open route xs h (ground arith)

routes-public :
    (route : Route) → Among route routes → route.roles ≡ none → is_public route.handler ≡ true
unfolding routes
routes-public route h e =
    subst
      (λ (o : Option (List Role)).
        elim o [ none ↦ is_public route.handler | some roles ↦ true ] ≡ true)
      e (Among-is_open route routes h refl)

module _ (R : Redis) (J : Jwt) {S Doc : Type 0} (V : Services S Doc) (D : Decoder) (mux : Mux)
    (not_routed : ℕ → Response Doc) (cfg : Limits) (tokens : TokenManager) where
  login_quiet :
      (now : ℕ) (r : Request) (w : World S) → (handle_login J V D cfg tokens now r w).0 ≡ w
  unfolding handle_login bad_json
  login_quiet now r w = ground arith

  public_quiet :
      (h : Handler) (t : Moment) (id : String) (ctx : Context) (r : Request) (w : World S)
      → is_public h ≡ true
      → (run_handler R J V D mux not_routed cfg tokens h t id ctx r w).0 ≡ w
  unfolding run_handler handle_health handle_ready handle_metrics
  public_quiet login t id ctx r w p = login_quiet t.now r w
  public_quiet health t id ctx r w p = refl
  public_quiet ready t id ctx r w p = refl
  public_quiet metrics t id ctx r w p = refl
  public_quiet register_driver t id ctx r w p = ground arith
  public_quiet driver_status t id ctx r w p = ground arith
  public_quiet driver_location t id ctx r w p = ground arith
  public_quiet create_ride t id ctx r w p = ground arith
  public_quiet get_ride t id ctx r w p = ground arith
  public_quiet cancel_ride t id ctx r w p = ground arith
  public_quiet nearby_drivers t id ctx r w p = ground arith
  public_quiet ws t id ctx r w p = ground arith

  -- The handler of a route ran for the claims of the token that the request carries, which have one of the roles.
  pub record Entered (roles : List Role) (h : Handler) (id : String) (t : Moment) (r : Request)
      (w w' : World S) (res : Response Doc) : Type 0 where
    pub claims : Claims
    pub token_ok : verify J tokens t.now (extract_token r) ≡ some claims
    pub role_ok : OneOf claims.role roles
    pub ran :
        run_handler R J V D mux not_routed cfg tokens h t id
          (context_with_claims background claims)
          r
          w
        ≡ (w', res)

  abbrev TurnedAway : Response Doc → Type 0
  TurnedAway res = (res.status ≡ 401) ⊎ ((res.status ≡ 403) ⊎ (res.status ≡ 429))

  admit-cases :
      (roles : List Role) (h : Handler) (t : Moment) (id : String) (r : Request) (c : Claims)
      (db : R.Db) (w : World S)
      → verify J tokens t.now (extract_token r) ≡ some c
      → let out = admit R J V D mux not_routed cfg tokens roles h t id r c db w in
        Entered roles h id t r w out.1 out.2 ⊎ ((out.1 ≡ w) × TurnedAway out.2)
  unfolding admit
  admit-cases roles h t id r c db w e =
      elim (Bool-cases (require_role (context_with_claims background c) roles)) [
        | inl p ↦ elim (Bool-cases (denied (asked).1)) [
          | inl d ↦ rw (p, d) (inr (refl, inr (inr refl)))
          | inr d ↦
              rw (p, d)
                (inl (record {
                  claims = c;
                  token_ok = e;
                  role_ok = (require_role_iff background c roles).0 p;
                  ran = refl;
                }))
        ]
        | inr p ↦ rw p (inr (refl, inr (inl refl)))
      ]
    where
      asked : R.Db × Outcome Bool
      asked =
          rate_allow R t.user_link "user" c.user_id cfg.user_rate_capacity cfg.user_rate_refill 1
            t.now db

  with_claims-cases :
      (o : Option Claims) (roles : List Role) (h : Handler) (t : Moment) (id : String) (r : Request)
      (db : R.Db) (w : World S)
      → verify J tokens t.now (extract_token r) ≡ o
      → let out = with_claims R J V D mux not_routed cfg tokens o roles h t id r db w in
        Entered roles h id t r w out.1 out.2 ⊎ ((out.1 ≡ w) × TurnedAway out.2)
  unfolding with_claims
  with_claims-cases none roles h t id r db w e = inr (refl, inl refl)
  with_claims-cases (some c) roles h t id r db w e = admit-cases roles h t id r c db w e

  -- The handler runs for claims with one of the roles, or nothing is changed and the status is 401, 403
  -- or 429.
  pub require_auth-cases :
      (roles : List Role) (h : Handler) (t : Moment) (id : String) (r : Request) (db : R.Db)
      (w : World S)
      → let out = require_auth R J V D mux not_routed cfg tokens roles h t id r db w in
        Entered roles h id t r w out.1 out.2 ⊎ ((out.1 ≡ w) × TurnedAway out.2)
  unfolding require_auth
  require_auth-cases roles h t id r db w = elim (Bool-cases (extract_token r == "")) [
    | inl p ↦ rw p (inr (refl, inl refl))
    | inr p ↦ rw p (with_claims-cases _ roles h t id r db w refl)
  ]

  -- The route that the mux picked is guarded, and was entered with a token for it and with the id that
  -- the mux found in the path.
  abbrev pub Allowed : Moment → Request → World S → World S → Response Doc → Type 0
  Allowed t r w w' res =
      (route : Route) × (id : String) × Among route routes
      × (mux routes r.method r.path ≡ chosen route id)
      × ((roles : List Role) × (route.roles ≡ some roles)
          × Entered roles route.handler id t r w w' res)

  run_route-protects :
      (o : Option (List Role)) (route : Route) (t : Moment) (id : String) (r : Request) (db : R.Db)
      (w : World S)
      → Among route routes
      → mux routes r.method r.path ≡ chosen route id
      → route.roles ≡ o
      → let out = run_route R J V D mux not_routed cfg tokens o route.handler t id r db w in
        (out.1 ≡ w) ⊎ Allowed t r w out.1 out.2
  unfolding run_route
  run_route-protects none route t id r db w a m e =
      inl (public_quiet route.handler t id background r w (routes-public route a e))
  run_route-protects (some roles) route t id r db w a m e =
      elim (require_auth-cases roles route.handler t id r db w) [
        | inl entered ↦ inr (route, id, a, m, (roles, e, entered))
        | inr away ↦ inl away.0
      ]

  serve_pick-protects :
      (p : Pick) (t : Moment) (r : Request) (db : R.Db) (w : World S)
      → IsMux mux
      → mux routes r.method r.path ≡ p
      → let out = serve_pick R J V D mux not_routed cfg tokens p t r db w in
        (out.1 ≡ w) ⊎ Allowed t r w out.1 out.2
  unfolding serve_pick
  serve_pick-protects (refused code) t r db w m e = inl refl
  serve_pick-protects (chosen route id) t r db w m e =
      run_route-protects route.roles route t id r db w (m.picks routes r.method r.path route id e) e
        refl

  serve_route-protects :
      (t : Moment) (r : Request) (db : R.Db) (w : World S)
      → IsMux mux
      → let out = serve_route R J V D mux not_routed cfg tokens t r db w in
        (out.1 ≡ w) ⊎ Allowed t r w out.1 out.2
  unfolding serve_route
  serve_route-protects t r db w m = serve_pick-protects _ t r db w m refl

  -- Where the mux picks only routes that are registered, any request leaves the services and the hub
  -- as they were, or the route that the mux picked for it is guarded and it carries a token that
  -- verifies, at that time, to claims with one of the roles of that route, and the answer is what
  -- the handler of that route makes of those claims and of the id that the mux found.
  pub serve-protects :
      (t : Moment) (r : Request) (db : R.Db) (w : World S)
      → IsMux mux
      → let out = serve R J V D mux not_routed cfg tokens t r db w in
        (out.1 ≡ w) ⊎ Allowed t r w out.1 out.2.response
  unfolding serve
  serve-protects t r db w m = elim (Bool-cases (r.path == "/health" || r.path == "/metrics")) [
    | inl p ↦ rw p (serve_route-protects t r db w m)
    | inr p ↦ elim (Bool-cases (denied (asked).1)) [
      | inl d ↦ rw (p, d) (inl refl)
      | inr d ↦ rw (p, d) (serve_route-protects t r (asked).0 w m)
    ]
  ]
    where
      asked : R.Db × Outcome Bool
      asked =
          rate_allow R t.ip_link "ip" (client_ip r) cfg.ip_rate_capacity cfg.ip_rate_refill 1 t.now
            db
