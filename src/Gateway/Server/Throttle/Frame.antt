-- ===== src/Gateway/Server/Throttle/Frame.antt =====
-- What leaves the bucket of an address alone: the limits of users and of other addresses, and all that
-- runs behind them (internal/gateway/server.go).
use nexus_dispatch.Prelude.{
  arith, ◌∙◌, ℕ, ◌*◌, ◌≡◌, ◌≢◌, refl, inl, inr, Bool, Option, none, some, List, String, ◌==◌, ==-ne,
  Bool-cases, Option-cases, leb,
}
use nexus_dispatch.Redis.{int, field, Redis, IsRedis}
use nexus_dispatch.Outcome.{Link, Outcome, call-cases}
use nexus_dispatch.Hot.Keys.{rate_limit_key, rate_limit_key-ip_ne_user}
use nexus_dispatch.Hot.Scripts.{as_int, refilled, token_bucket_script}
use nexus_dispatch.Hot.Store.{rate_allow}
use nexus_dispatch.Auth.{
  Role, Jwt, TokenManager, Claims, background, context_with_claims, require_role,
}
use nexus_dispatch.Gateway.Http.{Request, Decoder, Response, extract_token}
use nexus_dispatch.Gateway.Api.{Services, Moment, Limits, World}
use nexus_dispatch.Gateway.Server.{
  Handler, Pick, chosen, refused, Mux, denied, admit, with_claims, require_auth, run_route,
  serve_pick, serve_route,
}

module _ (R : Redis) (L : IsRedis R) (k key : String) (ttl : ℕ) (ne : k ≢ key) where
  stored-read :
      (t now : ℕ) (db : R.Db)
      → R.read (R.expire key ttl (R.hset key "ts" (int now) (R.hset key "tokens" (int t) db))) k
        ≡ R.read db k
  stored-read t now db =
      let before = R.hset key "ts" (int now) (R.hset key "tokens" (int t) db) in
      let same : R.read (R.expire key ttl before) k ≡ R.read before k =
        ground (arith, L.read-expire key k ttl before, ne) in
      same ∙ simp (L.read-hset, ==-ne k key ne) refl

  -- The script leaves every other key alone.
  token_bucket_script-read :
      (capacity refill now requested : ℕ) (db : R.Db)
      → R.read (token_bucket_script R key capacity refill now requested ttl db).0 k ≡ R.read db k
  unfolding token_bucket_script
  token_bucket_script-read capacity refill now requested db =
      elim (Option-cases (
        refilled R capacity refill now (as_int (field (R.read db key) "tokens"))
          (as_int (field (R.read db key) "ts")))) [
            | inl e ↦ rw (token_bucket_script, e) refl
            | inr (n, e) ↦
                rw (token_bucket_script, e)
                  (elim (Bool-cases (leb (requested * 1000) n)) [
                    | inl f ↦ rw f (stored-read _ now db)
                    | inr f ↦ rw f (stored-read _ now db)
                  ])
          ]

pub rate_allow-read :
    (R : Redis) (L : IsRedis R) (k : String) (l : Link) (scope id : String)
    (capacity refill requested now : ℕ) (db : R.Db)
    → k ≢ rate_limit_key scope id
    → R.read (rate_allow R l scope id capacity refill requested now db).0 k ≡ R.read db k
unfolding rate_allow
rate_allow-read R L k l scope id capacity refill requested now db ne =
    call-cases (λ (d : R.Db). R.read d k ≡ R.read db k) l _ db refl
      (token_bucket_script-read R L k _ _ ne capacity refill now requested db)

abbrev pub address_key : String → String
address_key addr = rate_limit_key "ip" addr

-- The bucket of the address is the same in both databases.
abbrev pub Untouched : (R : Redis) → String → R.Db → R.Db → Type 0
Untouched R addr db db' = R.read db' (address_key addr) ≡ R.read db (address_key addr)

module _ (R : Redis) (L : IsRedis R) (J : Jwt) {S Doc : Type 0} (V : Services S Doc) (D : Decoder)
    (mux : Mux) (not_routed : ℕ → Response Doc) (cfg : Limits) (tokens : TokenManager)
    (addr : String) where
  -- Behind the limit of the address, no part of the gateway touches its bucket.
  admit-read :
      (roles : List Role) (h : Handler) (t : Moment) (id : String) (r : Request) (c : Claims)
      (db : R.Db) (w : World S)
      → Untouched R addr db (admit R J V D mux not_routed cfg tokens roles h t id r c db w).0
  unfolding admit
  admit-read roles h t id r c db w =
      elim (Bool-cases (require_role (context_with_claims background c) roles)) [
        | inl p ↦ elim (Bool-cases (denied (asked).1)) [
          | inl d ↦ rw (p, d) same
          | inr d ↦ rw (p, d) same
        ]
        | inr p ↦ rw p refl
      ]
    where
      asked : R.Db × Outcome Bool
      asked =
          rate_allow R t.user_link "user" c.user_id cfg.user_rate_capacity cfg.user_rate_refill 1
            t.now db

      same : Untouched R addr db (asked).0
      same =
          rate_allow-read R L (address_key addr) t.user_link "user" c.user_id _ _ 1 t.now db
            (rate_limit_key-ip_ne_user addr c.user_id)

  with_claims-read :
      (o : Option Claims) (roles : List Role) (h : Handler) (t : Moment) (id : String) (r : Request)
      (db : R.Db) (w : World S)
      → Untouched R addr db (with_claims R J V D mux not_routed cfg tokens o roles h t id r db w).0
  unfolding with_claims
  with_claims-read none roles h t id r db w = refl
  with_claims-read (some c) roles h t id r db w = admit-read roles h t id r c db w

  require_auth-read :
      (roles : List Role) (h : Handler) (t : Moment) (id : String) (r : Request) (db : R.Db)
      (w : World S)
      → Untouched R addr db (require_auth R J V D mux not_routed cfg tokens roles h t id r db w).0
  unfolding require_auth
  require_auth-read roles h t id r db w = elim (Bool-cases (extract_token r == "")) [
    | inl p ↦ rw p refl
    | inr p ↦ rw p (with_claims-read _ roles h t id r db w)
  ]

  serve_pick-read :
      (p : Pick) (t : Moment) (r : Request) (db : R.Db) (w : World S)
      → Untouched R addr db (serve_pick R J V D mux not_routed cfg tokens p t r db w).0
  unfolding serve_pick run_route
  serve_pick-read (refused code) t r db w = refl
  serve_pick-read (chosen route id) t r db w = elim (Option-cases route.roles) [
    | inl e ↦ rw e refl
    | inr (roles, e) ↦ rw e (require_auth-read roles route.handler t id r db w)
  ]

  pub serve_route-read :
      (t : Moment) (r : Request) (db : R.Db) (w : World S)
      → Untouched R addr db (serve_route R J V D mux not_routed cfg tokens t r db w).0
  unfolding serve_route
  serve_route-read t r db w = serve_pick-read _ t r db w
