-- ===== src/Hot/Store.antt =====
-- internal/redis/store.go. Every method takes, for each command that it sends, what becomes of that
-- command (`Link`); a method that writes returns the database too. Clock readings are arguments.
pub mod Search
use nexus_dispatch.Prelude.{
  ℕ, zero, suc, ◌*◌, Bool, true, false, ◌&&◌, ◌||◌, Option, none, some, List, [], ◌∷◌, String, ◌==◌,
  if◌then◌else◌,
}
use nexus_dispatch.Prelude.Int.{ℤ, pos, negsuc}
use nexus_dispatch.Redis.{
  Float, nan, micro, Datum, text, int, real, Fields, Value, absent, hash, as_str, field, Redis,
}
use nexus_dispatch.Outcome.{
  Error, Outcome, ok, err, panic, ◌>>=◌, Link, up, call, ask, malformed_lease, unreachable,
}
use nexus_dispatch.Geospatial.{Geodesy, cell_key as cell_of, default_resolution}
use nexus_dispatch.Hot.Keys.{
  driver_key, driver_loc_key, driver_lease_key, driver_seq_key, cell_key, geo_key, ride_key,
  rate_limit_key,
}
use nexus_dispatch.Hot.Scripts.{
  ◌▷◌, is_text, apply_location_script, reserve_script, release_script, token_bucket_script,
}
use nexus_dispatch.Hot.LeaseValue.{LeaseValue, lease_string, parse_lease_value}

-- The text of an answer, "" where there is none. What is read so was written as a text.
abbrev pub as_text : Option Datum → String
as_text (some (text s)) = s
as_text _ = ""

-- A result whose error the caller drops: the zero value stands for it.
abbrev pub or_zero {ℓ} : {A : Type ℓ} → A → Outcome A → A
or_zero z (ok a) = a
or_zero z _ = z

-- `ReserveResult`
pub data ReserveResult : Type 0 where
  reserved conflict not_available : ReserveResult

unfoldable pub reserve_result : ℤ → ReserveResult
reserve_result (pos (suc zero)) = reserved
reserve_result (pos zero) = conflict
reserve_result _ = not_available

-- `res == 1`
unfoldable pub is_one : ℤ → Bool
is_one (pos (suc zero)) = true
is_one _ = false

module _ (R : Redis) where
  unfoldable pub hset_all : String → List (String × Datum) → R.Db → R.Db
  hset_all key [] db = db
  hset_all key ((f, v) ∷ fs) db = hset_all key fs (R.hset key f v db)

  -- `SetState`
  unfoldable pub set_state : Link → String → String → R.Db → R.Db × Outcome (Unit {0})
  set_state l id state = call l λ d. (R.hset (driver_key id) "state" (text state) d, some tt)

  -- `GetState`
  unfoldable pub get_state : Link → String → R.Db → Outcome String
  get_state l id db = ask l (as_text (field (R.read db (driver_key id)) "state"))

  -- `Reserve`; `ttl` is in whole seconds
  unfoldable pub reserve :
      Link → String → String → LeaseValue → ℕ → R.Db → R.Db × Outcome ReserveResult
  reserve l driver ride lv ttl db =
      let (db', res) =
        (call l
          (reserve_script R (driver_lease_key driver) (driver_key driver) ride (lease_string lv)
            ttl)
          db) in
      (db', res >>= λ n. ok (reserve_result n))

  -- `Release`
  unfoldable pub release : Link → String → LeaseValue → String → R.Db → R.Db × Outcome Bool
  release l driver lv target db =
      let (db', res) =
        (call l
          (release_script R (driver_lease_key driver) (driver_key driver) (lease_string lv) target)
          db) in
      (db', res >>= λ n. ok (is_one n))

  -- `GetLease`
  unfoldable pub get_lease : Link → String → R.Db → Outcome (Option LeaseValue)
  get_lease l driver db = do
    v ← ask l (as_str (R.read db (driver_lease_key driver)))
    elim v [
      | none ↦ ok none
      | some (text s) ↦ parse_lease_value s >>= λ lv. ok (some lv)
      | some _ ↦ err malformed_lease
    ]

  -- `RateAllow`
  unfoldable pub rate_allow : Link → String → String → ℕ → ℕ → ℕ → ℕ → R.Db → R.Db × Outcome Bool
  rate_allow l scope id capacity refill requested now db =
      let (db', res) =
        (call l
          (token_bucket_script R (rate_limit_key scope id) capacity refill now requested
            (2 * 60 * 1000))
          db) in
      (db', res >>= λ n. ok (is_one n))

  -- `SetRide`; `ttl` is in milliseconds
  unfoldable pub set_ride :
      Link → String → List (String × Datum) → ℕ → R.Db → R.Db × Outcome (Unit {0})
  unfolding hset_all
  set_ride l id fields ttl =
      call l λ d. (d ▷ hset_all (ride_key id) fields ▷ R.expire (ride_key id) ttl, some tt)

  -- The map that HGETALL answers, none where it is empty.
  unfoldable pub hgetall : Value → Option Fields
  hgetall (hash m) = some m
  hgetall _ = none

  -- `GetRide`
  unfoldable pub get_ride : Link → String → R.Db → Outcome (Option Fields)
  unfolding hgetall
  get_ride l id db = ask l (hgetall (R.read db (ride_key id)))

  -- `RemoveDriver`
  unfoldable pub remove_driver : Link → Link → String → R.Db → R.Db × Outcome (Unit {0})
  remove_driver l₁ l₂ id db =
      let cell = or_zero "" (ask l₁ (as_text (field (R.read db (driver_loc_key id)) "cell"))) in
      call l₂
        (λ d. (
          d
              ▷ R.del (driver_key id)
              ▷ R.del (driver_loc_key id)
              ▷ R.del (driver_lease_key id)
              ▷ R.del (driver_seq_key id)
              ▷ (λ e. if cell == "" then e else R.srem (cell_key cell) id e)
              ▷ R.zrem geo_key id,
          some tt,
        ))
        db

module _ (R : Redis) (G : Geodesy) where
  profile : String → String → String → ℤ → Float → Float → String → ℕ → R.Db → R.Db
  profile id name state rating lat lng cell now db =
      db
      ▷ R.hset (driver_key id) "id" (text id)
      ▷ R.hset (driver_key id) "name" (text name)
      ▷ R.hset (driver_key id) "state" (text state)
      ▷ R.hset (driver_key id) "rating" (real (micro rating))
      ▷ R.hset (driver_loc_key id) "lat" (real lat)
      ▷ R.hset (driver_loc_key id) "lng" (real lng)
      ▷ R.hset (driver_loc_key id) "cell" (text cell)
      ▷ R.hset (driver_loc_key id) "seq" (int 0)
      ▷ R.hset (driver_loc_key id) "ts" (int now)
      ▷ R.expire (driver_loc_key id) (120 * 1000)
      ▷ R.sadd (cell_key cell) id
      ▷ R.geo_add geo_key (lng, lat) id

  -- `InitDriver`
  unfoldable pub init_driver :
      Link → String → String → String → ℤ → Float → Float → ℕ → R.Db → R.Db × Outcome (Unit {0})
  unfolding profile
  init_driver l id name state rating lat lng now db = elim (cell_of G lat lng default_resolution) [
    | ok cell ↦
        call l
          (λ d. (
            profile id name state rating lat lng cell now d,
            if R.geo_takes (lng, lat) then some tt else none,
          ))
          db
    | err e ↦ (db, err e)
    | panic ↦ (db, panic)
  ]

  -- `ApplyLocation`: the old cell is read first, outside of the script.
  unfoldable pub apply_location :
      Link → Link → String → Float → Float → ℕ → ℕ → R.Db → R.Db × Outcome Bool
  apply_location l₁ l₂ driver lat lng seq ts db = elim (cell_of G lat lng default_resolution) [
    | ok new_cell ↦
        let found =
          or_zero "" (ask l₁ (as_text (field (R.read db (driver_loc_key driver)) "cell"))) in
        let old_cell = if found == "" then new_cell else found in
        let (db', res) =
          (call l₂
            (apply_location_script R (driver_seq_key driver) (driver_loc_key driver)
              (cell_key old_cell) (cell_key new_cell) geo_key seq lat lng new_cell ts 120 driver)
            db) in
        (db', res >>= λ n. ok (is_one n))
    | err e ↦ (db, err e)
    | panic ↦ (db, panic)
  ]
