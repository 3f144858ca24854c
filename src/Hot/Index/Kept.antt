-- ===== src/Hot/Index/Kept.antt =====
-- Every call of internal/redis/store.go keeps the index of drivers by cell.
use nexus_dispatch.Prelude.{
  eqb, ℕ, zero, suc, ◌*◌, ◌≡◌, refl, inl, inr, Bool, true, false, List, [], ◌∷◌, All, String,
  Bool-cases, Option-cases, if◌then◌else◌,
}
use nexus_dispatch.Prelude.Int.{ℤ}
use nexus_dispatch.Redis.{Float, Datum, text, int, field, Redis, IsRedis}
use nexus_dispatch.Outcome.{Outcome, ok, err, panic, Link, call-cases}
use nexus_dispatch.Geospatial.{Geodesy, cell_key as cell_of, default_resolution}
use nexus_dispatch.Hot.Keys.{
  IsPlain, driver_key, driver_loc_key, driver_lease_key, driver_seq_key, cell_key, geo_key,
  ride_key, rate_limit_key,
}
use nexus_dispatch.Hot.LeaseValue.{lease_string}
use nexus_dispatch.Hot.Scripts.{
  as_int, exists_key, apply_location_script, write_location, reserve_script, release_script,
  refilled, token_bucket_script,
}
use nexus_dispatch.Hot.Store
use nexus_dispatch.Hot.Store.{hset_all}
use nexus_dispatch.Hot.Schema.{guard}
use nexus_dispatch.Hot.Schema.Typed.{Typed}
use nexus_dispatch.Hot.Schema.Kept.{perform-Typed}
use nexus_dispatch.Hot.Schema.Written.{left-Typed, registered-Typed, guard_cases}
use nexus_dispatch.Hot.Calls.{
  Call, registers, locates, applies, removes, sets_state, reserves, releases, limits, writes_ride,
  waits, IsPlainCall, perform, perform_all,
}
use nexus_dispatch.Hot.Index.{Indexed}
use nexus_dispatch.Hot.Index.Frame.{
  Same, Same-refl, hset-Same, set_ex-Same, del-Same, expire-Same, profile-IsAside, lease-IsAside,
  ride-IsAside, bucket-IsAside,
}
use nexus_dispatch.Hot.Index.Removed.{unlisted-Indexed, wait-Indexed}
use nexus_dispatch.Hot.Index.Placed.{
  Same-Indexed, settled-Indexed, tracked-cell_at, tracked-Same, registered-cell_at, registered-Same,
}

either {ℓ} :
    {D A : Type 0} (P : D → Type ℓ) (b : Bool) (x y : D × A)
    → P x.0
    → P y.0
    → P (if b then x else y).0
either P true x y h h' = h
either P false x y h h' = h'

module _ (R : Redis) (L : IsRedis R) where
  -- The scripts that write to other keys of a driver.
  module _ (j : String) (db : R.Db) where
    reserve_script-Same :
        (id for_ride held : String) (ttl : ℕ)
        → IsPlain id
        → Same R j db
            (reserve_script R (driver_lease_key id) (driver_key id) for_ride held ttl db).0
    unfolding reserve_script
    reserve_script-Same id for_ride held zero p =
        let h = Same-refl R L j db in
        elim (Bool-cases (exists_key (R.read db (driver_lease_key id)))) [
          | inl e ↦ rw (reserve_script, e) (either (Same R j db) _ _ _ h h)
          | inr e ↦ rw (reserve_script, e) (either (Same R j db) _ _ _ h h)
        ]
    reserve_script-Same id for_ride held (suc t) p =
        let h = Same-refl R L j db in
        let a = profile-IsAside j id p in
        let leased =
          set_ex-Same R L j db (driver_lease_key id) (text held) t db (lease-IsAside j id) h in
        elim (Bool-cases (exists_key (R.read db (driver_lease_key id)))) [
          | inl e ↦ rw (reserve_script, e) (either (Same R j db) _ _ _ leased h)
          | inr e ↦
              rw (reserve_script, e)
                (either (Same R j db) _ _ _ h (
                  hset-Same R L j db (driver_key id) "reserved_ride" (text for_ride) _ a
                    (hset-Same R L j db (driver_key id) "state" (text "RESERVED") _ a leased)))
        ]

    release_script-Same :
        (id expected target : String)
        → IsPlain id
        → Same R j db (release_script R (driver_lease_key id) (driver_key id) expected target db).0
    unfolding release_script
    release_script-Same id expected target p =
        let h = Same-refl R L j db in
        either (Same R j db) _ _ _
          (hset-Same R L j db (driver_key id) "state" (text target) _ (profile-IsAside j id p)
            (del-Same R L j db (driver_lease_key id) db (lease-IsAside j id) h))
          h

    token_bucket_script-Same :
        (scope id : String) (capacity refill now requested ttl : ℕ)
        → Same R j db
            (token_bucket_script R (rate_limit_key scope id) capacity refill now requested ttl db).0
    unfolding token_bucket_script
    token_bucket_script-Same scope id capacity refill now requested ttl =
        let h = Same-refl R L j db in
        let key = rate_limit_key scope id in
        let a = bucket-IsAside j scope id in
        let b = R.read db key in
        let store = λ (t : ℕ). expire-Same R L j db key ttl _ a (
          hset-Same R L j db key "ts" (int now) _ a
            (hset-Same R L j db key "tokens" (int t) db a h)) in
        elim (Option-cases
          (refilled R capacity refill now (as_int (field b "tokens")) (as_int (field b "ts")))) [
            | inl e ↦ rw (token_bucket_script, e) h
            | inr (n, e) ↦
                rw (token_bucket_script, e) (either (Same R j db) _ _ _ (store _) (store _))
          ]

    hset_all-Same :
        (id : String) (fs : List (String × Datum)) (d : R.Db)
        → Same R j db d
        → Same R j db (hset_all R (ride_key id) fs d)
    unfolding hset_all
    hset_all-Same id [] d h = h
    hset_all-Same id ((f, v) ∷ fs) d h =
        hset_all-Same id fs _ (hset-Same R L j db (ride_key id) f v d (ride-IsAside j id) h)

  apply_location_script-Indexed :
      (id old new : String) (seq : ℕ) (lat lng : Float) (ts ttl : ℕ) (db : R.Db)
      → eqb (ttl * 1000) 0 ≡ false
      → Typed R db
      → Indexed R db
      → Indexed R
          (apply_location_script R
            (driver_seq_key id)
            (driver_loc_key id)
            (cell_key old)
            (cell_key new)
            geo_key
            seq
            lat
            lng
            new
            ts
            ttl
            id
            db).0
  unfolding apply_location_script write_location
  apply_location_script-Indexed id old new seq lat lng ts ttl db lives t h =
      let w =
        settled-Indexed R L id new lat lng db _ (left-Typed R L id old new seq lat lng ts ttl db t)
          (λ j ne. tracked-Same R L j id old new seq lat lng ts ttl db ne)
          (tracked-cell_at R L id old new seq lat lng ts ttl db lives t) h in
      elim (guard_cases (R.read db (driver_seq_key id)) (t.typed (guard id) tt)) [
        | inl e ↦ rw (apply_location_script, e) w
        | inr (last, e) ↦ rw (apply_location_script, e) (either (Indexed R) _ _ _ h w)
      ]

  module _ (G : Geodesy) where
    init_driver-Indexed :
        (l : Link) (id nm state : String) (rating : ℤ) (lat lng : Float) (now : ℕ) (db : R.Db)
        → IsPlain id
        → Typed R db
        → Indexed R db
        → Indexed R (Store.init_driver R G l id nm state rating lat lng now db).0
    unfolding Store.init_driver
    init_driver-Indexed l id nm state rating lat lng now db p t h =
        by_cell (cell_of G lat lng default_resolution) refl
      where
        by_cell :
            (o : Outcome String)
            → cell_of G lat lng default_resolution ≡ o
            → Indexed R (Store.init_driver R G l id nm state rating lat lng now db).0
        by_cell (err x) e = rw (Store.init_driver, e) h
        by_cell panic e = rw (Store.init_driver, e) h
        by_cell (ok c) e =
            rw (Store.init_driver, e)
              (call-cases (Indexed R) l _ db h (
                settled-Indexed R L id c lat lng db _
                  (registered-Typed R L id nm state rating lat lng c now db p t)
                  (λ j ne. registered-Same R L j id nm state rating lat lng c now db p ne)
                  (registered-cell_at R L id nm state rating lat lng c now db p t) h))

    apply_location-Indexed :
        (l₁ l₂ : Link) (id : String) (lat lng : Float) (seq ts : ℕ) (db : R.Db)
        → Typed R db
        → Indexed R db
        → Indexed R (Store.apply_location R G l₁ l₂ id lat lng seq ts db).0
    unfolding Store.apply_location
    apply_location-Indexed l₁ l₂ id lat lng seq ts db t h =
        by_cell (cell_of G lat lng default_resolution) refl
      where
        by_cell :
            (o : Outcome String)
            → cell_of G lat lng default_resolution ≡ o
            → Indexed R (Store.apply_location R G l₁ l₂ id lat lng seq ts db).0
        by_cell (err x) e = rw (Store.apply_location, e) h
        by_cell panic e = rw (Store.apply_location, e) h
        by_cell (ok c) e =
            rw (Store.apply_location, e)
              (call-cases (Indexed R) l₂ _ db h
                (apply_location_script-Indexed id _ c seq lat lng ts 120 db refl t h))

    remove_driver-Indexed :
        (l₁ l₂ : Link) (id : String) (db : R.Db)
        → IsPlain id
        → Indexed R db
        → Indexed R (Store.remove_driver R l₁ l₂ id db).0
    unfolding Store.remove_driver
    remove_driver-Indexed l₁ l₂ id db p h =
        call-cases (Indexed R) l₂ _ db h (unlisted-Indexed R L id _ _ db p h)

    perform-Indexed :
        (c : Call) (db : R.Db)
        → IsPlainCall c
        → Typed R db
        → Indexed R db
        → Indexed R (perform R G c db)
    unfolding perform Store.set_state Store.reserve Store.release Store.rate_allow Store.set_ride
    perform-Indexed (registers l id nm state rating lat lng now) db p t h =
        init_driver-Indexed l id nm state rating lat lng now db p t h
    perform-Indexed (locates l₁ l₂ id lat lng seq ts) db p t h =
        apply_location-Indexed l₁ l₂ id lat lng seq ts db t h
    perform-Indexed (applies l id old new lat lng seq ts) db p t h =
        call-cases (Indexed R) l _ db h
          (apply_location_script-Indexed id old new seq lat lng ts 120 db refl t h)
    perform-Indexed (removes l₁ l₂ id) db p t h = remove_driver-Indexed l₁ l₂ id db p h
    perform-Indexed (sets_state l id state) db p t h = call-cases (Indexed R) l _ db h (
        Same-Indexed R L
          (λ j.
            hset-Same R L j db (driver_key id) "state" (text state) db (profile-IsAside j id p)
              (Same-refl R L j db))
          h)
    perform-Indexed (reserves l id for_ride lv ttl) db p t h =
        call-cases (Indexed R) l _ db h
          (Same-Indexed R L (λ j. reserve_script-Same j db id for_ride (lease_string lv) ttl p) h)
    perform-Indexed (releases l id lv target) db p t h =
        call-cases (Indexed R) l _ db h
          (Same-Indexed R L (λ j. release_script-Same j db id (lease_string lv) target p) h)
    perform-Indexed (limits l scope id capacity refill requested now) db p t h =
        call-cases (Indexed R) l _ db h (
          Same-Indexed R L
            (λ j.
              token_bucket_script-Same j db scope id capacity refill now requested (2 * 60 * 1000))
            h)
    perform-Indexed (writes_ride l id fields ttl) db p t h = call-cases (Indexed R) l _ db h (
        Same-Indexed R L
          (λ j.
            expire-Same R L j db (ride_key id) ttl _ (ride-IsAside j id)
              (hset_all-Same j db id fields db (Same-refl R L j db)))
          h)
    perform-Indexed (waits n) db p t h = wait-Indexed R L n db h

    -- Whatever calls of the store are made on plain ids, over any links, in any order, with waits
    -- between them and with updates of positions whose old cell was read at any time before: each
    -- driver with a position is in the set of the cell of that position, and these sets have no
    -- deadline, if both held before and every key held a value of its type.
    pub perform_all-Indexed :
        (cs : List Call) (db : R.Db)
        → All IsPlainCall cs
        → Typed R db
        → Indexed R db
        → Indexed R (perform_all R G cs db)
    unfolding perform_all
    perform_all-Indexed [] db ps t h = h
    perform_all-Indexed (c ∷ cs) db (p, ps) t h =
        perform_all-Indexed cs (perform R G c db) ps (perform-Typed R L G c db p t)
          (perform-Indexed c db p t h)
