-- ===== src/Gateway/Server/Statuses.antt =====
-- The statuses that internal/gateway/server.go answers.
use nexus_dispatch.Prelude.{
  ℕ, ◌≡◌, refl, sym, subst, ◌∙◌, ◌⊎◌, inl, inr, Bool, true, false, ◌||◌, Option, none, some, List,
  [], ◌∷◌, String, ◌==◌, eqb, arith, Bool-cases, if_true, if_false, if◌then◌else◌,
}
use nexus_dispatch.Redis.{Redis}
use nexus_dispatch.Outcome.{Link, Outcome, ask}
use nexus_dispatch.Hot.Store.{rate_allow}
use nexus_dispatch.Auth.{Role, Jwt, TokenManager, Claims, Context, background, context_with_claims}
use nexus_dispatch.Gateway.Http.{
  Request, Decoder, max_body, Response, write_error, extract_token, client_ip,
}
use nexus_dispatch.Gateway.Api.{
  Services, Result, done, refused as refused_call, Moment, Limits, World, answer_call, bad_json,
  handle_login, handle_register_driver, handle_driver_status, handle_driver_location,
  handle_create_ride, handle_get_ride, handle_cancel_ride, handle_nearby_drivers, handle_ws,
  handle_health, handle_ready, handle_metrics,
}
use nexus_dispatch.Gateway.Server.{
  Handler, login, health, ready, metrics, register_driver, driver_status, driver_location,
  create_ride, get_ride, cancel_ride, nearby_drivers, ws, Route, routes, Pick, chosen, refused, Mux,
  Sent, denied, run_handler, admit, with_claims, require_auth, run_route, serve_pick, serve_route,
  serve,
}

abbrev pub has : ℕ → List ℕ → Bool
has n [] = false
has n (x ∷ xs) = eqb n x || has n xs

-- The statuses of each handler.
abbrev pub statuses : Moment → Handler → List ℕ
statuses t login = 200 ∷ 400 ∷ 500 ∷ []
statuses t health = 200 ∷ []
statuses t ready = 200 ∷ 503 ∷ []
statuses t metrics = 404 ∷ []
statuses t register_driver = 201 ∷ 400 ∷ 500 ∷ []
statuses t driver_status = 200 ∷ 400 ∷ 422 ∷ []
statuses t driver_location = 200 ∷ 400 ∷ 409 ∷ 500 ∷ []
statuses t create_ride = 201 ∷ 400 ∷ 500 ∷ []
statuses t get_ride = 200 ∷ 404 ∷ []
statuses t cancel_ride = 200 ∷ 422 ∷ []
statuses t nearby_drivers = 200 ∷ 500 ∷ []
statuses t ws = 101 ∷ t.upgrade_error ∷ []

-- The status of what a handler answers is one of some.
record Within {S Doc : Type 0} (codes : List ℕ) (out : World S × Response Doc) : Type 0 where
  one : has out.1.status codes ≡ true

module _ (J : Jwt) {S Doc : Type 0} (V : Services S Doc) (D : Decoder) where
  answer_call-Within :
      {A : Type 0} (call : S → S × Result A) (wrong : Response Doc) (right : A → Response Doc)
      (w : World S) (codes : List ℕ)
      → has wrong.status codes ≡ true
      → ((a : A) → has (right a).status codes ≡ true)
      → Within codes (answer_call J V D call wrong right w)
  unfolding answer_call
  answer_call-Within {A} call wrong right w codes e f = record {
    one = by_result (call w.services).1;
  }
    where
      by_result :
          (res : Result A)
          → has
              (elim res as (λ _. Response Doc) [ done a ↦ right a | refused_call ↦ wrong ]).status
              codes
            ≡ true
      by_result (done a) = f a
      by_result refused_call = e

  decoded-Within :
      {B : Type 0} (o : Option B) (good : B → World S × Response Doc) (w : World S) (codes : List ℕ)
      → has 400 codes ≡ true
      → ((b : B) → Within codes (good b))
      → Within codes
          (elim o as (λ _. World S × Response Doc) [ none ↦ bad_json J V D w | some b ↦ good b ])
  unfolding bad_json
  decoded-Within none good w codes e f = record { one = e }
  decoded-Within (some b) good w codes e f = f b

  login-Within :
      (t : Moment) (cfg : Limits) (tokens : TokenManager) (now : ℕ) (r : Request) (w : World S)
      → Within (statuses t login) (handle_login J V D cfg tokens now r w)
  unfolding handle_login bad_json
  login-Within t cfg tokens now r w = record { one = ground arith }

  register_driver-Within :
      (t : Moment) (r : Request) (w : World S)
      → Within (statuses t register_driver) (handle_register_driver J V D r w)
  unfolding handle_register_driver
  register_driver-Within t r w =
      decoded-Within (D.driver max_body r.body) _ w _ refl
        (λ b. answer_call-Within _ _ _ w _ refl (λ a. refl))

  driver_status-Within :
      (t : Moment) (id : String) (r : Request) (w : World S)
      → Within (statuses t driver_status) (handle_driver_status J V D id r w)
  unfolding handle_driver_status
  driver_status-Within t id r w =
      decoded-Within (D.state max_body r.body) _ w _ refl
        (λ b. answer_call-Within _ _ _ w _ refl (λ a. refl))

  by_accepted :
      (b : Bool) (x y : Response Doc) (codes : List ℕ)
      → has x.status codes ≡ true
      → has y.status codes ≡ true
      → has (if b then x else y).status codes ≡ true
  by_accepted true x y codes p q = p
  by_accepted false x y codes p q = q

  driver_location-Within :
      (t : Moment) (id : String) (r : Request) (w : World S)
      → Within (statuses t driver_location) (handle_driver_location J V D id r w)
  unfolding handle_driver_location
  driver_location-Within t id r w = decoded-Within (D.location max_body r.body) _ w _ refl (λ b.
      answer_call-Within _ _ _ w _ refl
        (λ a. by_accepted a.0 _ _ (statuses t driver_location) refl refl))

  create_ride-Within :
      (t : Moment) (ctx : Context) (r : Request) (w : World S)
      → Within (statuses t create_ride) (handle_create_ride J V D ctx r w)
  unfolding handle_create_ride
  create_ride-Within t ctx r w =
      decoded-Within (D.ride max_body r.body) _ w _ refl
        (λ b. answer_call-Within _ _ _ w _ refl (λ a. refl))

  ready-Within :
      (t : Moment) (l : Link) (w : World S) → Within (statuses t ready) (handle_ready J V D l w)
  unfolding handle_ready ask
  ready-Within t l w = record { one = ground arith }

  ws-Within :
      (t : Moment) (ctx : Context) (w : World S) → Within (statuses t ws) (handle_ws J V D t ctx w)
  unfolding handle_ws
  ws-Within t ctx w = record { one = ground arith }

module _ (R : Redis) (J : Jwt) {S Doc : Type 0} (V : Services S Doc) (D : Decoder) (mux : Mux)
    (not_routed : ℕ → Response Doc) (cfg : Limits) (tokens : TokenManager) where
  run_handler-Within :
      (h : Handler) (t : Moment) (id : String) (ctx : Context) (r : Request) (w : World S)
      → Within (statuses t h) (run_handler R J V D mux not_routed cfg tokens h t id ctx r w)
  unfolding run_handler handle_health handle_metrics handle_get_ride handle_cancel_ride
      handle_nearby_drivers
  run_handler-Within login t id ctx r w = login-Within J V D t cfg tokens t.now r w
  run_handler-Within health t id ctx r w = record { one = refl }
  run_handler-Within ready t id ctx r w = ready-Within J V D t t.ping_link w
  run_handler-Within metrics t id ctx r w = record { one = refl }
  run_handler-Within register_driver t id ctx r w = register_driver-Within J V D t r w
  run_handler-Within driver_status t id ctx r w = driver_status-Within J V D t id r w
  run_handler-Within driver_location t id ctx r w = driver_location-Within J V D t id r w
  run_handler-Within create_ride t id ctx r w = create_ride-Within J V D t ctx r w
  run_handler-Within get_ride t id ctx r w = answer_call-Within J V D _ _ _ w _ refl (λ a. refl)
  run_handler-Within cancel_ride t id ctx r w = answer_call-Within J V D _ _ _ w _ refl (λ a. refl)
  run_handler-Within nearby_drivers t id ctx r w =
      answer_call-Within J V D _ _ _ w _ refl (λ a. refl)
  run_handler-Within ws t id ctx r w = ws-Within J V D t ctx w

  admit-has :
      (roles : List Role) (h : Handler) (t : Moment) (id : String) (r : Request) (c : Claims)
      (db : R.Db) (w : World S)
      → let out = admit R J V D mux not_routed cfg tokens roles h t id r c db w in
        has out.2.status (401 ∷ 403 ∷ 429 ∷ statuses t h) ≡ true
  unfolding admit
  admit-has roles h t id r c db w =
      ground (arith, (run_handler-Within h t id (context_with_claims background c) r w).one)

  with_claims-has :
      (o : Option Claims) (roles : List Role) (h : Handler) (t : Moment) (id : String) (r : Request)
      (db : R.Db) (w : World S)
      → let out = with_claims R J V D mux not_routed cfg tokens o roles h t id r db w in
        has out.2.status (401 ∷ 403 ∷ 429 ∷ statuses t h) ≡ true
  unfolding with_claims
  with_claims-has none roles h t id r db w = refl
  with_claims-has (some c) roles h t id r db w = admit-has roles h t id r c db w

  run_route-has :
      (o : Option (List Role)) (h : Handler) (t : Moment) (id : String) (r : Request) (db : R.Db)
      (w : World S)
      → let out = run_route R J V D mux not_routed cfg tokens o h t id r db w in
        has out.2.status (401 ∷ 403 ∷ 429 ∷ statuses t h) ≡ true
  unfolding run_route require_auth
  run_route-has none h t id r db w = ground (arith, (run_handler-Within h t id background r w).one)
  run_route-has (some roles) h t id r db w = elim (Bool-cases (extract_token r == "")) [
    | inl e ↦ subst Fine (sym (if_true _ _ e)) refl
    | inr e ↦ subst Fine (sym (if_false _ _ e)) (with_claims-has _ roles h t id r db w)
  ]
    where
      Fine : R.Db × World S × Response Doc → Type 0
      Fine out = has out.2.status (401 ∷ 403 ∷ 429 ∷ statuses t h) ≡ true

  -- How the request of a response was routed.
  abbrev pub Routed : Moment → Request → Response Doc → Type 0
  Routed t r res =
      ((code : ℕ) × (mux routes r.method r.path ≡ refused code) × (res ≡ not_routed code))
      ⊎ ((route : Route) × (id : String) × (mux routes r.method r.path ≡ chosen route id)
          × (has res.status (401 ∷ 403 ∷ 429 ∷ statuses t route.handler) ≡ true))

  serve_pick-Routed :
      (p : Pick) (t : Moment) (r : Request) (db : R.Db) (w : World S)
      → mux routes r.method r.path ≡ p
      → Routed t r (serve_pick R J V D mux not_routed cfg tokens p t r db w).2
  unfolding serve_pick
  serve_pick-Routed (refused code) t r db w e = inl (code, e, refl)
  serve_pick-Routed (chosen route id) t r db w e =
      inr (route, id, e, run_route-has route.roles route.handler t id r db w)

  -- Every response is the 429 of a rate limit, or what the mux answers to a request that it does not
  -- route, or has one of the statuses of the handler that the mux picked, or 401, 403 or 429.
  pub serve-Routed :
      (t : Moment) (r : Request) (db : R.Db) (w : World S)
      → let res = (serve R J V D mux not_routed cfg tokens t r db w).2.response in
        (res ≡ write_error 429 "rate_limited") ⊎ Routed t r res
  unfolding serve serve_route
  serve-Routed t r db w = elim (Bool-cases (r.path == "/health" || r.path == "/metrics")) [
    | inl p ↦ subst Fine (sym (if_true _ _ p)) (inr (serve_pick-Routed _ t r db w refl))
    | inr p ↦ elim (Bool-cases (denied (asked).1)) [
      | inl d ↦ subst Fine (sym (if_false _ _ p ∙ if_true _ _ d)) (inl refl)
      | inr d ↦
          subst Fine (sym (if_false _ _ p ∙ if_false _ _ d))
            (inr (serve_pick-Routed _ t r (asked).0 w refl))
    ]
  ]
    where
      asked : R.Db × Outcome Bool
      asked =
          rate_allow R t.ip_link "ip" (client_ip r) cfg.ip_rate_capacity cfg.ip_rate_refill 1 t.now
            db

      Fine : R.Db × World S × Sent Doc → Type 0
      Fine out = (out.2.response ≡ write_error 429 "rate_limited") ⊎ Routed t r out.2.response
