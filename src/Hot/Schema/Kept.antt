-- ===== src/Hot/Schema/Kept.antt =====
-- Every call of internal/redis/store.go leaves each key with a value of its type.
use nexus_dispatch.Prelude.{ℕ, ◌*◌, ◌≡◌, refl, List, [], ◌∷◌, All, String}
use nexus_dispatch.Prelude.Int.{ℤ}
use nexus_dispatch.Redis.{Float, text, Redis, IsRedis}
use nexus_dispatch.Outcome.{Outcome, ok, err, panic, Link, call-cases}
use nexus_dispatch.Geospatial.{Geodesy, cell_key as cell_of, default_resolution}
use nexus_dispatch.Hot.Keys.{IsPlain, ride_key}
use nexus_dispatch.Hot.LeaseValue.{lease_string}
use nexus_dispatch.Hot.Store
use nexus_dispatch.Hot.Schema.{profile, position, lease, guard}
use nexus_dispatch.Hot.Schema.Typed.{
  Typed, hset-Typed, del-Typed, sadd-Typed, srem-Typed, geo_add-Typed, zrem-Typed, expire-Typed,
  wait-Typed,
}
use nexus_dispatch.Hot.Calls.{
  Call, registers, locates, applies, removes, sets_state, reserves, releases, limits, writes_ride,
  waits, IsPlainCall, perform, perform_all,
}
use nexus_dispatch.Hot.Schema.Written.{
  if-Typed, apply_location_script-Typed, reserve_script-Typed, release_script-Typed,
  token_bucket_script-Typed, hset_all-Typed, registered-Typed,
}

module _ (R : Redis) (L : IsRedis R) where
  init_driver-Typed :
      (G : Geodesy) (l : Link) (id nm state : String) (rating : ℤ) (lat lng : Float) (now : ℕ)
      (db : R.Db)
      → IsPlain id
      → Typed R db
      → Typed R (Store.init_driver R G l id nm state rating lat lng now db).0
  unfolding Store.init_driver
  init_driver-Typed G l id nm state rating lat lng now db p h =
      by_cell (cell_of G lat lng default_resolution) refl
    where
      by_cell :
          (o : Outcome String)
          → cell_of G lat lng default_resolution ≡ o
          → Typed R (Store.init_driver R G l id nm state rating lat lng now db).0
      by_cell (err x) e = rw (Store.init_driver, e) h
      by_cell panic e = rw (Store.init_driver, e) h
      by_cell (ok c) e =
          rw (Store.init_driver, e)
            (call-cases (Typed R) l _ db h (
              geo_add-Typed R L id (lng, lat) _
                (sadd-Typed R L c id _
                  (registered-Typed R L id nm state rating lat lng c now db p h))))

  apply_location-Typed :
      (G : Geodesy) (l₁ l₂ : Link) (id : String) (lat lng : Float) (seq ts : ℕ) (db : R.Db)
      → Typed R db
      → Typed R (Store.apply_location R G l₁ l₂ id lat lng seq ts db).0
  unfolding Store.apply_location
  apply_location-Typed G l₁ l₂ id lat lng seq ts db h =
      by_cell (cell_of G lat lng default_resolution) refl
    where
      by_cell :
          (o : Outcome String)
          → cell_of G lat lng default_resolution ≡ o
          → Typed R (Store.apply_location R G l₁ l₂ id lat lng seq ts db).0
      by_cell (err x) e = rw (Store.apply_location, e) h
      by_cell panic e = rw (Store.apply_location, e) h
      by_cell (ok c) e =
          rw (Store.apply_location, e)
            (call-cases (Typed R) l₂ _ db h
              (apply_location_script-Typed R L id _ c seq lat lng ts 120 db h))

  remove_driver-Typed :
      (l₁ l₂ : Link) (id : String) (db : R.Db)
      → IsPlain id
      → Typed R db
      → Typed R (Store.remove_driver R l₁ l₂ id db).0
  unfolding Store.remove_driver
  remove_driver-Typed l₁ l₂ id db p h =
      let gone = del-Typed R L (guard id) _ tt (
        del-Typed R L (lease id) _ tt
          (del-Typed R L (position id) _ tt (del-Typed R L (profile id) db p h))) in
      call-cases (Typed R) l₂ _ db h
        (zrem-Typed R L id _ (if-Typed R L _ _ _ gone (srem-Typed R L _ id _ gone)))

  module _ (G : Geodesy) where
    pub perform-Typed :
        (c : Call) (db : R.Db) → IsPlainCall c → Typed R db → Typed R (perform R G c db)
    unfolding perform Store.set_state Store.reserve Store.release Store.rate_allow Store.set_ride
    perform-Typed (registers l id nm state rating lat lng now) db p h =
        init_driver-Typed G l id nm state rating lat lng now db p h
    perform-Typed (locates l₁ l₂ id lat lng seq ts) db p h =
        apply_location-Typed G l₁ l₂ id lat lng seq ts db h
    perform-Typed (applies l id old new lat lng seq ts) db p h =
        call-cases (Typed R) l _ db h
          (apply_location_script-Typed R L id old new seq lat lng ts 120 db h)
    perform-Typed (removes l₁ l₂ id) db p h = remove_driver-Typed l₁ l₂ id db p h
    perform-Typed (sets_state l id state) db p h =
        call-cases (Typed R) l _ db h (hset-Typed R L (profile id) "state" (text state) db p refl h)
    perform-Typed (reserves l id for_ride lv ttl) db p h =
        call-cases (Typed R) l _ db h
          (reserve_script-Typed R L id for_ride (lease_string lv) ttl db p h)
    perform-Typed (releases l id lv target) db p h =
        call-cases (Typed R) l _ db h (release_script-Typed R L id (lease_string lv) target db p h)
    perform-Typed (limits l scope id capacity refill requested now) db p h =
        call-cases (Typed R) l _ db h (
          token_bucket_script-Typed R L scope id capacity refill now requested (2 * 60 * 1000) db h)
    perform-Typed (writes_ride l id fields ttl) db p h =
        call-cases (Typed R) l _ db h
          (expire-Typed R L (ride_key id) ttl _ (hset_all-Typed R L id fields db h))
    perform-Typed (waits t) db p h = wait-Typed R L t db h

    -- Whatever calls of the store are made on plain ids, over any links and in any order, with waits
    -- between them: each key of a driver, a cell, a ride or a bucket is absent or holds a value of
    -- its type, if that was so before.
    pub perform_all-Typed :
        (cs : List Call) (db : R.Db)
        → All IsPlainCall cs
        → Typed R db
        → Typed R (perform_all R G cs db)
    unfolding perform_all
    perform_all-Typed [] db ps h = h
    perform_all-Typed (c ∷ cs) db (p, ps) h =
        perform_all-Typed cs (perform R G c db) ps (perform-Typed c db p h)
