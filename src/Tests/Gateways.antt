-- ===== src/Tests/Gateways.antt =====
-- The theorems on the gateway, with a mux without wildcards, a signer of tokens and services that count
-- their calls.
use nexus_dispatch.Prelude.{
  ℕ, suc, ◌≡◌, ◌≤◌, ◌+◌, ◌-◌, ◌*◌, ◌⊎◌, inl, inr, refl, true, none, some, List, [], ◌∷◌, String,
  string_dec, before_last, ◌==◌, ◌<>◌, arith, Bool-cases, if◌then◌else◌,
}
use nexus_dispatch.Prelude.Int.{pos}
use nexus_dispatch.Redis.{int, micro}
use nexus_dispatch.Redis.Memory.{memory, memory-IsRedis, fresh}
use nexus_dispatch.Outcome.{up, down, call}
use nexus_dispatch.Hot.Store.{rate_allow}
use nexus_dispatch.Auth.{TokenManager, issue, claims_of, background, context_with_claims}
use nexus_dispatch.Gateway.Hub.{new_hub}
use nexus_dispatch.Gateway.Http.{Request, Decoder, Response, write_error}
use nexus_dispatch.Gateway.Api.{done, Services, Moment, Limits, World, granted_role, handle_login}
use nexus_dispatch.Gateway.Server.{
  Route, Pick, chosen, refused, Mux, create_ride, beside, run_handler, require_auth, serve,
}
use nexus_dispatch.Gateway.Server.Guards.{Among, IsMux, Allowed, serve-protects}
use nexus_dispatch.Gateway.Server.Statuses.{Routed, serve-Routed}
use nexus_dispatch.Gateway.Server.{serve_route, serve_pick, run_route, routes}
use nexus_dispatch.Hot.Store.{is_one}
use nexus_dispatch.Hot.Scripts.{token_bucket_script}
use nexus_dispatch.Gateway.Http.{client_ip}
use nexus_dispatch.Gateway.Server.Throttle.{
  Arrival, Lasts, last_time, total_passed, total_passed-le,
}
use nexus_dispatch.Hot.Keys.{rate_limit_key}
use nexus_dispatch.Hot.Bucket.{Holds}
use nexus_dispatch.Gateway.Server.Logins.{login-require_auth}
use nexus_dispatch.Tests.Tokens.{signer, signer-IsJwt, fits}
use nexus_dispatch.Tests.Slots.{differ}

pick : List Route → String → Pick
pick [] line = refused 404
pick (x ∷ xs) line = let rest = pick xs line in if x.pattern == line then chosen x "" else rest

exact : Mux
exact rs method path = pick rs (method <> " " <> path)

pick-Among :
    (rs : List Route) (line : String) (route : Route) (id : String)
    → pick rs line ≡ chosen route id
    → Among route rs
unfolding pick
pick-Among [] line route id e = ground arith
pick-Among (x ∷ xs) line route id e = elim (Bool-cases (x.pattern == line)) [
  | inl p ↦ inl (ground arith)
  | inr p ↦ inr (pick-Among xs line route id (ground arith))
]

exact-IsMux : IsMux exact
exact-IsMux =
    unfold exact in record { picks = λ rs method path route id e. pick-Among rs _ route id e }

abbrev calls : Services ℕ String
calls = record {
  register_driver = λ a b c d e f g h n. (suc n, done ("d", "OFFLINE"));
  update_driver_status = λ a b n. (suc n, done ("OFFLINE", b));
  create_ride = λ user a b c d e n. (suc n, done ("ride of " <> user));
  get_ride = λ id n. (suc n, done id);
  cancel_ride = λ id user reason n. (suc n, done id);
  update_location = λ id a b c n. (suc n, done (true, "cell", ""));
  find_candidates = λ a b c d n. (suc n, done ("", pos 0, pos 0));
}

abbrev decoder : Decoder
decoder = record {
  login = λ max s. some (record { email = s; role = "" });
  driver = λ max s. none;
  state = λ max s. some s;
  location = λ max s. none;
  ride = λ max s. some (record {
    pickup_lat = micro (pos 0);
    pickup_lng = micro (pos 0);
    dropoff_lat = micro (pos 0);
    dropoff_lng = micro (pos 0);
    radius_m = pos 0;
  });
  reason = λ max s. some s;
  float = λ s. none;
  int = λ s. none;
}

abbrev limits : Limits
limits = record {
  ip_rate_capacity = 300;
  ip_rate_refill = 5;
  user_rate_capacity = 60;
  user_rate_refill = 1;
  jwt_expiry = 86400000;
}

abbrev manager : TokenManager
manager = record { secret = "key"; issuer = "nexus-dispatch"; expiry = 86400000 }

abbrev moment : Moment
moment = record {
  now = 2000;
  stamp = "s";
  ip_link = down;
  user_link = down;
  ping_link = down;
  upgrades = true;
  upgrade_error = 400;
  pointer = 0;
}

abbrev to_login : Request
to_login = record {
  method = "POST";
  path = "/api/v1/auth/login";
  request_id = "";
  authorization = "";
  forwarded_for = "";
  remote_addr = "10.0.0.1:4000";
  query = λ k. "";
  body = "ann";
}

abbrev to_ride : Request
to_ride = record to_login { path = "/api/v1/rides"; authorization = "Bearer keyuser-ann" }

abbrev world : World ℕ
world = record { services = 0; hub = new_hub }

abbrev not_routed : ℕ → Response String
not_routed code = write_error code "mux"

serve-protects_example :
    let out =
      serve memory signer calls decoder exact not_routed limits manager moment to_ride fresh
        world in
    (out.1 ≡ world)
    ⊎ Allowed memory signer calls decoder exact not_routed limits manager moment to_ride world out.1
        out.2.response
serve-protects_example =
    serve-protects memory signer calls decoder exact not_routed limits manager moment to_ride fresh
      world exact-IsMux

serve-Routed_example :
    let res =
      (serve memory signer calls decoder exact not_routed limits manager moment to_ride fresh
        world).2.response in
    (res ≡ write_error 429 "rate_limited")
    ⊎ Routed memory signer calls decoder exact not_routed limits manager moment to_ride res
serve-Routed_example =
    serve-Routed memory signer calls decoder exact not_routed limits manager moment to_ride fresh
      world

login-require_auth_example :
    require_auth memory signer calls decoder exact not_routed limits manager
      ("USER" ∷ [])
      create_ride
      moment
      ""
      to_ride
      fresh
      world
    ≡ beside fresh (
        run_handler memory signer calls decoder exact not_routed limits manager create_ride moment
          ""
          (context_with_claims background (claims_of manager "user-ann" "USER" 0))
          to_ride
          world)
unfolding handle_login issue claims_of granted_role fits string_dec rate_allow call
login-require_auth_example =
    login-require_auth memory signer calls decoder exact not_routed limits manager signer-IsJwt 0
      to_login world (record { email = "ann"; role = "" }) "keyuser-ann" "USER" 86400 ("USER" ∷ [])
      create_ride moment "" to_ride fresh world refl refl refl (differ _ _ refl) (omega arith)
      (inl refl) refl

abbrev metered_db : memory.Db
metered_db =
    memory.hset (rate_limit_key "ip" "10.0.0.1") "ts" (int 1000)
      (memory.hset (rate_limit_key "ip" "10.0.0.1") "tokens" (int 1500) fresh)

metered_db-Holds :
    Holds memory memory-IsRedis (rate_limit_key "ip" "10.0.0.1") 300 5 120000 1500 1000 metered_db
unfolding string_dec rate_limit_key
metered_db-Holds = record { table = refl; tokens_field = refl; ts_field = refl }

abbrev burst : List Arrival
burst =
    (500, record moment { ip_link = up }, to_login)
    ∷ (600, record moment { ip_link = up; now = 2100 }, to_login)
    ∷ (600, record moment { ip_link = up; now = 2100 }, to_ride)
    ∷ []

total_passed-le_example :
    total_passed memory memory-IsRedis signer calls decoder exact not_routed limits manager
        "10.0.0.1" burst metered_db world
      * 1000
    ≤ 1500 + (last_time 1000 burst - 1000) * 5
unfolding Lasts serve serve_route serve_pick rate_allow call is_one token_bucket_script string_dec
    rate_limit_key client_ip handle_login run_route run_handler before_last exact pick routes
total_passed-le_example =
    total_passed-le memory memory-IsRedis signer calls decoder exact not_routed limits manager
      "10.0.0.1" burst 1500 1000 1000 metered_db world metered_db-Holds (omega arith)
      (omega arith, (refl, (omega arith, (refl, (omega arith, (refl, tt))))))
      (refl, (refl, (refl, tt)))
