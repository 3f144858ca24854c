-- ===== src/Hot/Schema/Written.antt =====
-- The scripts of internal/redis/scripts.go, and what else a call of the store writes, leave each key with a
-- value of its type.
use nexus_dispatch.Prelude.{
  ℕ, zero, suc, ◌*◌, ◌≡◌, refl, inl, inr, ◌⊎◌, Bool, true, false, none, some, List, [], ◌∷◌, String,
  ◌==◌, Bool-cases, Option-cases, if◌then◌else◌,
}
use nexus_dispatch.Prelude.Int.{ℤ}
use nexus_dispatch.Redis.{
  Float, micro, Datum, Value, absent, str, hash, text, int, real, as_str, field, Redis, IsRedis,
}
use nexus_dispatch.Hot.Keys.{
  IsPlain, driver_key, driver_loc_key, driver_lease_key, driver_seq_key, cell_key, geo_key,
  ride_key, rate_limit_key,
}
use nexus_dispatch.Hot.Scripts.{
  ◌▷◌, as_int, exists_key, write_location, apply_location_script, reserve_script, release_script,
  refilled, token_bucket_script,
}
use nexus_dispatch.Hot.Store.{hset_all}
use nexus_dispatch.Hot.Schema.{profile, position, lease, guard, ride, bucket, HasKind, number}
use nexus_dispatch.Hot.Schema.Typed.{
  Typed, hset-Typed, set_ex-Typed, del-Typed, sadd-Typed, srem-Typed, geo_add-Typed, expire-Typed,
}

pub guard_cases :
    (v : Value) → HasKind number v → (as_str v ≡ none) ⊎ ((n : ℕ) × (as_str v ≡ some (int n)))
guard_cases absent h = inl refl
guard_cases (str (int n)) h = inr (n, refl)
guard_cases (str (text s)) h = absurd h
guard_cases (str (real x)) h = absurd h
guard_cases (hash x) h = absurd h
guard_cases (Value.set x) h = absurd h
guard_cases (Value.geo x) h = absurd h

module _ (R : Redis) (L : IsRedis R) where
  pub if-Typed :
      (b : Bool) (db db' : R.Db) → Typed R db → Typed R db' → Typed R (if b then db else db')
  if-Typed true db db' h h' = h
  if-Typed false db db' h h' = h'

  either-Typed :
      {A : Type 0} (b : Bool) (x y : R.Db × A)
      → Typed R x.0
      → Typed R y.0
      → Typed R (if b then x else y).0
  either-Typed true x y h h' = h
  either-Typed false x y h h' = h'

  -- The position of a driver is written, and its old cell left.
  abbrev pub tracked : String → String → ℕ → Float → Float → ℕ → ℕ → R.Db → R.Db
  tracked id new seq lat lng ts ttl db =
      db
      ▷ R.set_ex (driver_seq_key id) (int seq) 3600
      ▷ R.hset (driver_loc_key id) "lat" (real lat)
      ▷ R.hset (driver_loc_key id) "lng" (real lng)
      ▷ R.hset (driver_loc_key id) "cell" (text new)
      ▷ R.hset (driver_loc_key id) "seq" (int seq)
      ▷ R.hset (driver_loc_key id) "ts" (int ts)
      ▷ R.expire (driver_loc_key id) (ttl * 1000)

  abbrev pub left : String → String → String → R.Db → R.Db
  left id old new db = if cell_key old == cell_key new then db else R.srem (cell_key old) id db

  tracked-Typed :
      (id new : String) (seq : ℕ) (lat lng : Float) (ts ttl : ℕ) (db : R.Db)
      → Typed R db
      → Typed R (tracked id new seq lat lng ts ttl db)
  tracked-Typed id new seq lat lng ts ttl db h =
      let put = λ (f : String) (v : Datum) (d : R.Db) (k : Typed R d).
        hset-Typed R L (position id) f v d tt refl k in
      expire-Typed R L (driver_loc_key id) (ttl * 1000) _ (
        put "ts" (int ts) _ (
          put "seq" (int seq) _ (
            put "cell" (text new) _ (
              put "lng" (real lng) _
                (put "lat" (real lat) _ (set_ex-Typed R L (guard id) (int seq) 3599 db tt tt h))))))

  pub left-Typed :
      (id old new : String) (seq : ℕ) (lat lng : Float) (ts ttl : ℕ) (db : R.Db)
      → Typed R db
      → Typed R (left id old new (tracked id new seq lat lng ts ttl db))
  left-Typed id old new seq lat lng ts ttl db h =
      let there = tracked-Typed id new seq lat lng ts ttl db h in
      if-Typed (cell_key old == cell_key new) _ _ there (srem-Typed R L old id _ there)

  write_location-Typed :
      (id old new : String) (seq : ℕ) (lat lng : Float) (ts ttl : ℕ) (db : R.Db)
      → Typed R db
      → Typed R (
          write_location R
            (driver_seq_key id)
            (driver_loc_key id)
            (cell_key old)
            (cell_key new)
            geo_key
            seq
            lat
            lng
            new
            ts
            ttl
            id
            db)
  unfolding write_location
  write_location-Typed id old new seq lat lng ts ttl db h =
      geo_add-Typed R L id (lng, lat) _
        (sadd-Typed R L new id _ (left-Typed id old new seq lat lng ts ttl db h))

  pub apply_location_script-Typed :
      (id old new : String) (seq : ℕ) (lat lng : Float) (ts ttl : ℕ) (db : R.Db)
      → Typed R db
      → Typed R
          (apply_location_script R
            (driver_seq_key id)
            (driver_loc_key id)
            (cell_key old)
            (cell_key new)
            geo_key
            seq
            lat
            lng
            new
            ts
            ttl
            id
            db).0
  unfolding apply_location_script
  apply_location_script-Typed id old new seq lat lng ts ttl db h =
      let w = write_location-Typed id old new seq lat lng ts ttl db h in
      elim (guard_cases (R.read db (driver_seq_key id)) (h.typed (guard id) tt)) [
        | inl e ↦ rw (apply_location_script, e) w
        | inr (last, e) ↦ rw (apply_location_script, e) (either-Typed _ _ _ h w)
      ]

  pub reserve_script-Typed :
      (id for_ride held : String) (ttl : ℕ) (db : R.Db)
      → IsPlain id
      → Typed R db
      → Typed R (reserve_script R (driver_lease_key id) (driver_key id) for_ride held ttl db).0
  unfolding reserve_script
  reserve_script-Typed id for_ride held zero db p h =
      elim (Bool-cases (exists_key (R.read db (driver_lease_key id)))) [
        | inl e ↦ rw (reserve_script, e) (either-Typed _ _ _ h h)
        | inr e ↦ rw (reserve_script, e) (either-Typed _ _ _ h h)
      ]
  reserve_script-Typed id for_ride held (suc t) db p h =
      let leased = set_ex-Typed R L (lease id) (text held) t db tt tt h in
      elim (Bool-cases (exists_key (R.read db (driver_lease_key id)))) [
        | inl e ↦ rw (reserve_script, e) (either-Typed _ _ _ leased h)
        | inr e ↦
            rw (reserve_script, e)
              (either-Typed _ _ _ h (
                hset-Typed R L (profile id) "reserved_ride" (text for_ride) _ p refl
                  (hset-Typed R L (profile id) "state" (text "RESERVED") _ p refl leased)))
      ]

  pub release_script-Typed :
      (id expected target : String) (db : R.Db)
      → IsPlain id
      → Typed R db
      → Typed R (release_script R (driver_lease_key id) (driver_key id) expected target db).0
  unfolding release_script
  release_script-Typed id expected target db p h =
      either-Typed _ _ _
        (hset-Typed R L (profile id) "state" (text target) _ p refl
          (del-Typed R L (lease id) db tt h))
        h

  pub token_bucket_script-Typed :
      (scope id : String) (capacity refill now requested ttl : ℕ) (db : R.Db)
      → Typed R db
      → Typed R
          (token_bucket_script R (rate_limit_key scope id) capacity refill now requested ttl db).0
  unfolding token_bucket_script
  token_bucket_script-Typed scope id capacity refill now requested ttl db h =
      let b = R.read db (rate_limit_key scope id) in
      let store = λ (t : ℕ). expire-Typed R L (rate_limit_key scope id) ttl _ (
        hset-Typed R L (bucket scope id) "ts" (int now) _ tt refl
          (hset-Typed R L (bucket scope id) "tokens" (int t) db tt refl h)) in
      elim (Option-cases
        (refilled R capacity refill now (as_int (field b "tokens")) (as_int (field b "ts")))) [
          | inl e ↦ rw (token_bucket_script, e) h
          | inr (n, e) ↦ rw (token_bucket_script, e) (either-Typed _ _ _ (store _) (store _))
        ]

  pub hset_all-Typed :
      (id : String) (fs : List (String × Datum)) (db : R.Db)
      → Typed R db
      → Typed R (hset_all R (ride_key id) fs db)
  unfolding hset_all
  hset_all-Typed id [] db h = h
  hset_all-Typed id ((f, v) ∷ fs) db h =
      hset_all-Typed id fs _ (hset-Typed R L (ride id) f v db tt refl h)

  abbrev pub registered : String → String → String → ℤ → Float → Float → String → ℕ → R.Db → R.Db
  registered id nm state rating lat lng c now db =
      db
      ▷ R.hset (driver_key id) "id" (text id)
      ▷ R.hset (driver_key id) "name" (text nm)
      ▷ R.hset (driver_key id) "state" (text state)
      ▷ R.hset (driver_key id) "rating" (real (micro rating))
      ▷ R.hset (driver_loc_key id) "lat" (real lat)
      ▷ R.hset (driver_loc_key id) "lng" (real lng)
      ▷ R.hset (driver_loc_key id) "cell" (text c)
      ▷ R.hset (driver_loc_key id) "seq" (int 0)
      ▷ R.hset (driver_loc_key id) "ts" (int now)
      ▷ R.expire (driver_loc_key id) (120 * 1000)

  pub registered-Typed :
      (id nm state : String) (rating : ℤ) (lat lng : Float) (c : String) (now : ℕ) (db : R.Db)
      → IsPlain id
      → Typed R db
      → Typed R (registered id nm state rating lat lng c now db)
  registered-Typed id nm state rating lat lng c now db p h =
      let own = hset-Typed R L (profile id) "rating" (real (micro rating)) _ p refl (
        hset-Typed R L (profile id) "state" (text state) _ p refl (
          hset-Typed R L (profile id) "name" (text nm) _ p refl
            (hset-Typed R L (profile id) "id" (text id) db p refl h))) in
      let at = hset-Typed R L (position id) "cell" (text c) _ tt refl (
        hset-Typed R L (position id) "lng" (real lng) _ tt refl
          (hset-Typed R L (position id) "lat" (real lat) _ tt refl own)) in
      let seen =
        hset-Typed R L (position id) "ts" (int now) _ tt refl
          (hset-Typed R L (position id) "seq" (int 0) _ tt refl at) in
      expire-Typed R L (driver_loc_key id) (120 * 1000) _ seen
