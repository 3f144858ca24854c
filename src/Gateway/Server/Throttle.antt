-- ===== src/Gateway/Server/Throttle.antt =====
-- The rate limit of an address (`middleware` of internal/gateway/server.go) over the token bucket of
-- internal/redis/scripts.go.
pub mod Frame
use nexus_dispatch.Gateway.Server.Throttle.Frame.{
  address_key, Untouched, rate_allow-read, serve_route-read,
}
use nexus_dispatch.Prelude.{
  ℕ, ◌+◌, ◌-◌, ◌*◌, ◌≤◌, ◌≡◌, refl, sym, subst, inl, inr, Bool, false, not, ◌&&◌, ◌||◌, Option,
  List, [], ◌∷◌, String, ◌==◌, ==-refl, ==-ne, string_dec, eqb, arith, Bool-cases, if◌then◌else◌,
}
use nexus_dispatch.Prelude.Int.{ℤ}
use nexus_dispatch.Redis.{is_over, Redis, IsRedis}
use nexus_dispatch.Outcome.{up, Outcome, call}
use nexus_dispatch.Hot.Keys.{rate_limit_key-inj}
use nexus_dispatch.Hot.Store.{is_one, rate_allow}
use nexus_dispatch.Auth.{Jwt, TokenManager}
use nexus_dispatch.Gateway.Http.{Request, Decoder, Response, client_ip}
use nexus_dispatch.Gateway.Api.{Services, Moment, Limits, World}
use nexus_dispatch.Gateway.Server.{Mux, denied, serve}
use nexus_dispatch.Hot.Bucket.{Holds, granted, ask_for-Paid, time_splits}

-- A request behind a pause of Redis's clock, in milliseconds.
abbrev pub Arrival : Type 0
Arrival = ℕ × Moment × Request

-- The times of the requests do not go back, from a first time on, and Redis answers the limit of each
-- one's address.
abbrev pub InOrder : ℕ → List Arrival → Type 0
InOrder now [] = Unit
InOrder now ((pause, t, r) ∷ rs) = (now ≤ t.now) × ((t.ip_link ≡ up) × InOrder t.now rs)

abbrev pub last_time : ℕ → List Arrival → ℕ
last_time now [] = now
last_time now ((pause, t, r) ∷ rs) = last_time t.now rs

last_time-le : (now : ℕ) (rs : List Arrival) → InOrder now rs → now ≤ last_time now rs
last_time-le now [] o = omega arith
last_time-le now ((pause, t, r) ∷ rs) (le, (u, o)) = omega (arith, last_time-le t.now rs o)

module _ (R : Redis) (L : IsRedis R) (J : Jwt) {S Doc : Type 0} (V : Services S Doc) (D : Decoder)
    (mux : Mux) (not_routed : ℕ → Response Doc) (cfg : Limits) (tokens : TokenManager)
    (addr : String) where
  abbrev HoldsAt : ℕ → ℕ → R.Db → Type 0
  HoldsAt = Holds R L (address_key addr) cfg.ip_rate_capacity cfg.ip_rate_refill (2 * 60 * 1000)

  moved-Holds :
      (n ts : ℕ) (db db' : R.Db) → Untouched R addr db db' → HoldsAt n ts db → HoldsAt n ts db'
  moved-Holds n ts db db' e h = record {
    table = rw e h.table;
    tokens_field = rw e h.tokens_field;
    ts_field = rw e h.ts_field;
  }

  -- What a request may cost, and what is left of the bucket as of a time.
  record Spent (n ts now cost : ℕ) (db : R.Db) : Type 0 where
    left : ℕ
    at : ℕ
    still : HoldsAt left at db
    since : ts ≤ at
    until : at ≤ now
    balance : left + cost * 1000 ≤ n + (at - ts) * cfg.ip_rate_refill

  abbrev cost_of : Outcome Bool → ℕ
  cost_of o = if denied o then 0 else 1

  asked-Spent :
      (now n ts : ℕ) (db : R.Db)
      → HoldsAt n ts db
      → ts ≤ now
      → let asked = rate_allow R up "ip" addr cfg.ip_rate_capacity cfg.ip_rate_refill 1 now db in
        Spent n ts now (cost_of asked.1) asked.0
  unfolding rate_allow call is_one
  asked-Spent now n ts db h le =
      let paid =
        ask_for-Paid R L (address_key addr) cfg.ip_rate_capacity cfg.ip_rate_refill (2 * 60 * 1000)
          (record { now = now; tokens = 1 }) n ts db refl h in
      record {
        left = paid.left;
        at = now;
        still = paid.still;
        since = le;
        until = omega arith;
        balance = elim paid.answered [
          | inl e ↦ rw e (
              subst
                (λ (o : Option ℤ).
                  paid.left + granted o 1 * 1000 ≤ n + (now - ts) * cfg.ip_rate_refill)
                e paid.balance)
          | inr e ↦ rw e (
              subst
                (λ (o : Option ℤ).
                  paid.left + granted o 1 * 1000 ≤ n + (now - ts) * cfg.ip_rate_refill)
                e paid.balance)
        ];
      }

  -- The requests that the limit of the address counts.
  abbrev pub metered : Request → Bool
  metered r = client_ip r == addr && not (r.path == "/health" || r.path == "/metrics")

  abbrev pub passed : Request → ℕ → ℕ
  passed r code = if metered r then if eqb code 429 then 0 else 1 else 0

  passed-le_one : (r : Request) (code : ℕ) → passed r code ≤ 1
  passed-le_one r code = ground arith

  moved-Spent :
      (n ts now cost less : ℕ) (db db' : R.Db)
      → Untouched R addr db db'
      → less ≤ cost
      → Spent n ts now cost db
      → Spent n ts now less db'
  moved-Spent n ts now cost less db db' e le s = record {
    left = s.left;
    at = s.at;
    still = moved-Holds s.left s.at db db' e s.still;
    since = s.since;
    until = s.until;
    balance = omega (arith, s.balance, le);
  }

  unspent : (n ts now : ℕ) (db : R.Db) → HoldsAt n ts db → ts ≤ now → Spent n ts now 0 db
  unspent n ts now db h le = record {
    left = n;
    at = ts;
    still = h;
    since = omega arith;
    until = le;
    balance = omega arith;
  }

  abbrev asked : Moment → Request → R.Db → R.Db × Outcome Bool
  asked t r db =
      rate_allow R t.ip_link "ip" (client_ip r) cfg.ip_rate_capacity cfg.ip_rate_refill 1 t.now db

  -- What the limit takes from the bucket of the address.
  limit-Spent :
      (t : Moment) (r : Request) (n ts : ℕ) (db : R.Db)
      → HoldsAt n ts db
      → ts ≤ t.now
      → t.ip_link ≡ up
      → Spent n ts t.now
          (if client_ip r == addr then cost_of (asked t r db).1 else 0)
          (asked t r db).0
  limit-Spent t r n ts db h le u = elim (string_dec (client_ip r) addr) [
    | yes p ↦ rw (p, u, ==-refl) (asked-Spent t.now n ts db h le)
    | no ne ↦ rw (==-ne (client_ip r) addr ne) (
        moved-Spent n ts t.now 0 0 db _
          (rate_allow-read R L (address_key addr) t.ip_link "ip" (client_ip r) _ _ 1 t.now db
            (λ e. ne (sym (rate_limit_key-inj "ip" addr (client_ip r) e))))
          (omega arith) (unspent n ts t.now db h le))
  ]

  serve-Spent :
      (t : Moment) (r : Request) (n ts : ℕ) (db : R.Db) (w : World S)
      → HoldsAt n ts db
      → ts ≤ t.now
      → t.ip_link ≡ up
      → let out = serve R J V D mux not_routed cfg tokens t r db w in
        Spent n ts t.now (passed r out.2.response.status) out.0
  unfolding serve
  serve-Spent t r n ts db w h le u =
      elim (Bool-cases (r.path == "/health" || r.path == "/metrics")) [
        | inl p ↦ rw p (
            moved-Spent n ts t.now 0 _ db _
              (serve_route-read R L J V D mux not_routed cfg tokens addr t r db w) (ground arith)
              (unspent n ts t.now db h le))
        | inr p ↦ elim (Bool-cases (denied (asked t r db).1)) [
          | inl d ↦
              rw (p, d)
                (moved-Spent n ts t.now _ _ _ _ refl (ground arith)
                  (limit-Spent t r n ts db h le u))
          | inr d ↦
              rw (p, d)
                (moved-Spent n ts t.now _ _ _ _
                  (serve_route-read R L J V D mux not_routed cfg tokens addr t r _ w)
                  (ground (arith, d)) (limit-Spent t r n ts db h le u))
        ]
      ]

  -- How many of the requests that the limit counts are answered by other than 429.
  unfoldable pub total_passed : List Arrival → R.Db → World S → ℕ
  total_passed [] db w = 0
  total_passed ((pause, t, r) ∷ rs) db w =
      let (db', w', sent) = serve R J V D mux not_routed cfg tokens t r (R.wait pause db) w in
      passed r sent.response.status + total_passed rs db' w'

  -- No pause before a request reaches the deadline of the address's bucket.
  unfoldable pub Lasts : List Arrival → R.Db → World S → Type 0
  Lasts [] db w = Unit
  Lasts ((pause, t, r) ∷ rs) db w =
      let out = serve R J V D mux not_routed cfg tokens t r (R.wait pause db) w in
      (is_over (R.deadline db (address_key addr)) (R.now db + pause) ≡ false) × Lasts rs out.0 out.1

  wait-Holds :
      (n ts pause : ℕ) (db : R.Db)
      → is_over (R.deadline db (address_key addr)) (R.now db + pause) ≡ false
      → HoldsAt n ts db
      → HoldsAt n ts (R.wait pause db)
  wait-Holds n ts pause db e =
      moved-Holds n ts db (R.wait pause db)
        (ground (arith, L.read-wait pause (address_key addr) db, e))

  -- From any requests, of any addresses, that the gateway serves one after another in the order of
  -- their times, with pauses between them that do not reach the deadline of the address's bucket,
  -- while Redis answers the limits of addresses: those of the address, other than for /health and
  -- /metrics, that are not answered by 429 are at most what its bucket held and what the refill rate
  -- adds between the first time and the last.
  pub total_passed-le :
      (rs : List Arrival) (n ts now : ℕ) (db : R.Db) (w : World S)
      → Holds R L (address_key addr) cfg.ip_rate_capacity cfg.ip_rate_refill (2 * 60 * 1000) n ts db
      → ts ≤ now
      → InOrder now rs
      → Lasts rs db w
      → total_passed rs db w * 1000 ≤ n + (last_time now rs - ts) * cfg.ip_rate_refill
  unfolding total_passed Lasts
  total_passed-le [] n ts now db w h le o k = omega arith
  total_passed-le ((pause, t, r) ∷ rs) n ts now db w h le (after, (u, o)) (alive, k) =
      let db' = R.wait pause db in
      let out = serve R J V D mux not_routed cfg tokens t r db' w in
      let s = serve-Spent t r n ts db' w (wait-Holds n ts pause db alive h) (omega arith) u in
      let rest = total_passed-le rs s.left s.at t.now out.0 out.1 s.still s.until o k in
      omega (
        arith,
        rest,
        s.balance,
        s.since,
        s.until,
        time_splits ts s.at (last_time t.now rs) cfg.ip_rate_refill s.since
            (omega (arith, s.until, last_time-le t.now rs o)),
      )
