-- ===== src/Hot/Schema/Answers.antt =====
-- What ApplyLocation and Reserve (internal/redis/store.go) answer where every key holds a value of its type.
use nexus_dispatch.Prelude.{
  ℕ, ◌≡◌, ◌⊎◌, refl, ap, inl, inr, Bool, true, false, Option, some, List, All, String, Bool-cases,
  leb,
}
use nexus_dispatch.Prelude.Int.{ℤ, pos}
use nexus_dispatch.Redis.{Float, Redis, IsRedis}
use nexus_dispatch.Outcome.{Outcome, ok, ok_or, script_failed, ◌>>=◌, up, Link, call}
use nexus_dispatch.Geospatial.{Geodesy, cell_key as cell_of, default_resolution}
use nexus_dispatch.Hot.Keys.{driver_seq_key, driver_loc_key, cell_key, geo_key}
use nexus_dispatch.Hot.Scripts.{apply_location_script}
use nexus_dispatch.Hot.Store
use nexus_dispatch.Hot.Store.{is_one}
use nexus_dispatch.Hot.Schema.{guard}
use nexus_dispatch.Hot.Schema.Typed.{Typed}
use nexus_dispatch.Hot.Schema.Kept.{perform_all-Typed}
use nexus_dispatch.Hot.Schema.Written.{guard_cases}
use nexus_dispatch.Hot.Calls.{Call, IsPlainCall, perform_all}

module _ (R : Redis) (L : IsRedis R) (G : Geodesy) where
  script-answers :
      (id old new : String) (seq : ℕ) (lat lng : Float) (ts ttl : ℕ) (db : R.Db)
      → Typed R db
      → R.geo_takes (lng, lat) ≡ true
      → let code =
          (apply_location_script R
            (driver_seq_key id)
            (driver_loc_key id)
            (cell_key old)
            (cell_key new)
            geo_key
            seq
            lat
            lng
            new
            ts
            ttl
            id
            db).1 in
        (code ≡ some (pos 1)) ⊎ (code ≡ some (pos 0))
  unfolding apply_location_script
  script-answers id old new seq lat lng ts ttl db t takes =
      elim (guard_cases (R.read db (driver_seq_key id)) (t.typed (guard id) tt)) [
        | inl f ↦ inl (rw (apply_location_script, f, takes) refl)
        | inr (last, f) ↦ elim (Bool-cases (leb (R.lua_number seq) (R.lua_number last))) [
          | inl g ↦ inr (rw (apply_location_script, f, g) refl)
          | inr g ↦ inl (rw (apply_location_script, f, g, takes) refl)
        ]
      ]

  apply_location-answers :
      (l : Link) (id c : String) (lat lng : Float) (seq ts : ℕ) (db : R.Db)
      → Typed R db
      → R.geo_takes (lng, lat) ≡ true
      → cell_of G lat lng default_resolution ≡ ok c
      → (b : Bool) × ((Store.apply_location R G l up id lat lng seq ts db).1 ≡ ok b)
  unfolding Store.apply_location call is_one
  apply_location-answers l id c lat lng seq ts db t takes e =
      elim (script-answers id _ c seq lat lng ts 120 db t takes) [
        | inl g ↦ (true, rw (Store.apply_location, e) (ap answer g))
        | inr g ↦ (false, rw (Store.apply_location, e) (ap answer g))
      ]
    where
      answer : Option ℤ → Outcome Bool
      answer code = ok_or script_failed code >>= λ n. ok (is_one n)

  -- After any calls, an update at a position that has a cell and that GEOADD takes is answered, over a link that is up.
  apply_location-perform_all :
      (cs : List Call) (l : Link) (id c : String) (lat lng : Float) (seq ts : ℕ) (db : R.Db)
      → All IsPlainCall cs
      → Typed R db
      → R.geo_takes (lng, lat) ≡ true
      → cell_of G lat lng default_resolution ≡ ok c
      → (b : Bool) × ((Store.apply_location R G l up id lat lng seq ts (perform_all R G cs db)).1
          ≡ ok b)
  apply_location-perform_all cs l id c lat lng seq ts db ps t takes e =
      apply_location-answers l id c lat lng seq ts (perform_all R G cs db)
        (perform_all-Typed R L G cs db ps t) takes e
