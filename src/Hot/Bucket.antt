-- ===== src/Hot/Bucket.antt =====
-- The token bucket (`tokenBucketScript` of internal/redis/scripts.go): what a request is granted.
use nexus_dispatch.Prelude.{
  eqb, false, ℕ, zero, suc, ◌+◌, ◌-◌, ◌*◌, ◌≤◌, ◌≡◌, ◌≢◌, refl, ap, ◌⊎◌, true, Option, some, String,
  ==-refl, ==-ne, arith, leb, min, if◌then◌else◌, Bool-cases, inl, inr, leb→le,
}
use nexus_dispatch.Prelude.Int.{ℤ, pos}
use nexus_dispatch.Redis.{int, field, Redis, IsRedis}
use nexus_dispatch.Hot.Scripts.{token_bucket_script}
use nexus_dispatch.Hot.Slot.{is_hash}
use nexus_dispatch.Hot.Slot.Refines.{is_hash-put_field, field-put_field}

-- A request for some tokens at a time, in milliseconds.
pub record Request : Type 0 where
  pub now : ℕ
  pub tokens : ℕ

-- What a request gets by the script's answer.
abbrev pub granted : Option ℤ → ℕ → ℕ
granted (some (pos (suc zero))) n = n
granted _ n = 0

pub time_splits : (a b c f : ℕ) → a ≤ b → b ≤ c → (c - b) * f + (b - a) * f ≡ (c - a) * f
time_splits a b c f h k =
    let e : (c - b) + (b - a) ≡ c - a = omega arith in omega (arith, ap (λ (t : ℕ). t * f) e)

module _ (R : Redis) (L : IsRedis R) (key : String) (capacity refill ttl : ℕ) where
  -- The bucket holds this many thousandths of a token, as of a time.
  pub record Holds (tokens ts : ℕ) (db : R.Db) : Type 0 where
    pub table : is_hash (R.read db key) ≡ true
    pub tokens_field : field (R.read db key) "tokens" ≡ some (int tokens)
    pub ts_field : field (R.read db key) "ts" ≡ some (int ts)

  abbrev pub ask_for : Request → R.Db → R.Db × Option ℤ
  ask_for r db = token_bucket_script R key capacity refill r.now r.tokens ttl db

  abbrev stored : ℕ → ℕ → R.Db → R.Db
  stored t now db = R.expire key ttl (R.hset key "ts" (int now) (R.hset key "tokens" (int t) db))

  tokens_ne_ts : ◌≢◌ {A = String} "tokens" "ts"
  tokens_ne_ts e = cc

  ts_ne_tokens : ◌≢◌ {A = String} "ts" "tokens"
  ts_ne_tokens e = cc

  stored-Holds :
      (t now : ℕ) (db : R.Db)
      → eqb ttl 0 ≡ false
      → is_hash (R.read db key) ≡ true
      → Holds t now (stored t now db)
  stored-Holds t now db lives h =
      let h₁ = is_hash-put_field (R.read db key) h "tokens" (int t) in
      record {
        table = simp (L.read-expire, lives, L.read-hset, ==-refl) (is_hash-put_field _ h₁ _ _);
        tokens_field = simp (
          L.read-expire,
          lives,
          L.read-hset,
          ==-refl,
          field-put_field _ h₁,
          field-put_field _ h,
          ==-ne _ _ tokens_ne_ts,
        );
        ts_field = simp (L.read-expire, lives, L.read-hset, ==-refl, field-put_field _ h₁);
      }

  abbrev level : ℕ → ℕ → ℕ → ℕ
  level tokens ts now = min (capacity * 1000) (tokens + (now - ts) * refill)

  ask_for_lem :
      (r : Request) (tokens ts : ℕ) (db : R.Db)
      → Holds tokens ts db
      → let m = level tokens ts r.now in
        ask_for r db ≡ (
          if leb (r.tokens * 1000) m
          then (stored (m - r.tokens * 1000) r.now db, some (pos 1))
          else (stored m r.now db, some (pos 0)))
  unfolding token_bucket_script
  ask_for_lem r tokens ts db h = ground arith

  -- What one request leaves, and what it gets, come out of what was there.
  pub record Paid (r : Request) (tokens ts : ℕ) (out : R.Db × Option ℤ) : Type 0 where
    pub left : ℕ
    pub still : Holds left r.now out.0
    pub answered : (out.1 ≡ some (pos 1)) ⊎ (out.1 ≡ some (pos 0))
    pub balance : left + granted out.1 r.tokens * 1000 ≤ tokens + (r.now - ts) * refill

  pub ask_for-Paid :
      (r : Request) (tokens ts : ℕ) (db : R.Db)
      → eqb ttl 0 ≡ false
      → Holds tokens ts db
      → Paid r tokens ts (ask_for r db)
  ask_for-Paid r tokens ts db lives h =
      let m = level tokens ts r.now in
      rw (ask_for_lem r tokens ts db h) (elim (Bool-cases (leb (r.tokens * 1000) m)) [
        | inl e ↦ rw e (record {
          left = m - r.tokens * 1000;
          still = stored-Holds _ r.now db lives h.table;
          answered = inl refl;
          balance = omega (arith, leb→le _ _ e);
        })
        | inr e ↦ rw e (record {
          left = m;
          still = stored-Holds m r.now db lives h.table;
          answered = inr refl;
          balance = omega arith;
        })
      ])
