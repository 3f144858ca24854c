-- ===== src/Hot/Index/Placed.antt =====
-- Where a driver's position is written, the driver joins the set of its cell (internal/redis/store.go and
-- internal/redis/scripts.go).
use nexus_dispatch.Prelude.{
  eqb, ℕ, ◌*◌, ◌≡◌, ◌≢◌, refl, sym, ap, ◌∙◌, inl, inr, Bool, true, false, some, String, ◌==◌,
  string_dec, ==-refl, ==-ne, arith, Bool-cases, subst, if◌then◌else◌,
}
use nexus_dispatch.Prelude.Int.{ℤ}
use nexus_dispatch.Redis.{
  Float, micro, Datum, text, int, real, Value, absent, str, hash, field, put_field, put_member,
  has_member, Redis, IsRedis,
}
use nexus_dispatch.Hot.Keys.{
  IsPlain, driver_key, driver_loc_key, driver_seq_key, cell_key, geo_key,
  driver_loc_key-ne-cell_key, driver_loc_key-ne-geo_key, cell_key-ne-geo_key, other_than,
  other_than_ne,
}
use nexus_dispatch.Hot.Schema.{position, cell, HasKind, table, members}
use nexus_dispatch.Hot.Schema.Typed.{Typed}
use nexus_dispatch.Hot.Schema.Written.{tracked, left, registered}
use nexus_dispatch.Hot.Index.{cell_at, is_in, Indexed}
use nexus_dispatch.Hot.Index.Frame.{
  Same, Same-refl, hset-Same, set_ex-Same, expire-Same, geo_add-Same, sadd-Same, srem-Same,
  profile-IsAside, position-IsAside, guard-IsAside,
}

put_in : (m : String) (v : Value) → HasKind members v → has_member (put_member m v) m ≡ true
put_in m absent h = ground arith
put_in m (Value.set s) h = ground arith
put_in m (str x) h = absurd h
put_in m (hash x) h = absurd h
put_in m (Value.geo x) h = absurd h

-- The cell of a hash into which the five fields of a position were put.
placed_cell :
    (v : Value) (lat lng seq ts : Datum) (c : String)
    → HasKind table v
    → field
        (put_field "ts" ts (
          put_field "seq" seq
            (put_field "cell" (text c) (put_field "lng" lng (put_field "lat" lat v)))))
        "cell"
      ≡ some (text c)
unfolding string_dec
placed_cell absent lat lng seq ts c h = refl
placed_cell (hash m) lat lng seq ts c h = refl
placed_cell (str x) lat lng seq ts c h = absurd h
placed_cell (Value.set x) lat lng seq ts c h = absurd h
placed_cell (Value.geo x) lat lng seq ts c h = absurd h

module _ (R : Redis) (L : IsRedis R) where
  pub Same-Indexed :
      {db db' : R.Db} → ((j : String) → Same R j db db') → Indexed R db → Indexed R db'
  Same-Indexed {db} {db'} s h = record {
    found = λ j c e.
        (s j).same_in c
        ∙ h.found j c (ap (λ (v : Value). field v "cell") (sym ((s j).same_at)) ∙ e);
    lasting = λ c. (s "").lasts c (h.lasting c);
  }

  -- A driver joins the set of its cell, and the points.
  abbrev settled : String → String → Float → Float → R.Db → R.Db
  settled id c lat lng d = R.geo_add geo_key (lng, lat) id (R.sadd (cell_key c) id d)

  settled-cell_at :
      (id c : String) (lat lng : Float) (d : R.Db)
      → cell_at R (settled id c lat lng d) id ≡ cell_at R d id
  settled-cell_at id c lat lng d = simp (
    L.read-geo_add,
    L.read-sadd,
    ==-ne _ _ (driver_loc_key-ne-geo_key id),
    ==-ne _ _ (driver_loc_key-ne-cell_key id c),
  )

  settled-is_in :
      (id c : String) (lat lng : Float) (d : R.Db)
      → Typed R d
      → is_in R (settled id c lat lng d) id c ≡ true
  settled-is_in id c lat lng d h =
      rw
        (
          L.read-geo_add geo_key id (cell_key c) (lng, lat) _,
          ==-ne _ _ (cell_key-ne-geo_key c),
          L.read-sadd (cell_key c) id (cell_key c) d,
          ==-refl (cell_key c),
        )
        (put_in id _ (h.typed (cell c) tt))

  pub settled-Indexed :
      (id c : String) (lat lng : Float) (db d : R.Db)
      → Typed R d
      → ((j : String) → j ≢ id → Same R j db d)
      → cell_at R d id ≡ some (text c)
      → Indexed R db
      → Indexed R (settled id c lat lng d)
  settled-Indexed id c lat lng db d t s at h =
      let same = λ (j : String) (ne : j ≢ id).
        geo_add-Same R L j db id (lng, lat) _ (sadd-Same R L j db c id d ne (s j ne)) in
      record {
        found = λ j b e. elim (string_dec j id) [
          | yes p ↦
              let own : cell_at R (settled id c lat lng d) id ≡ some (text c) =
                settled-cell_at id c lat lng d ∙ at in
              let eq : some (text c) ≡ some (text b) =
                sym own ∙ ap (cell_at R (settled id c lat lng d)) (sym p) ∙ e in
              let same_cell : c ≡ b = ground (arith, eq) in
              subst (λ (x : String). is_in R (settled id c lat lng d) x b ≡ true) (sym p)
                (subst (λ (x : String). is_in R (settled id c lat lng d) id x ≡ true) same_cell
                  (settled-is_in id c lat lng d t))
          | no ne ↦
              (same j ne).same_in b
              ∙ h.found j b (ap (λ (v : Value). field v "cell") (sym ((same j ne).same_at)) ∙ e)
        ];
        lasting = λ b. (same (other_than id) (other_than_ne id)).lasts b (h.lasting b);
      }

  pub tracked-cell_at :
      (id old new : String) (seq : ℕ) (lat lng : Float) (ts ttl : ℕ) (db : R.Db)
      → eqb (ttl * 1000) 0 ≡ false
      → Typed R db
      → cell_at R (left R L id old new (tracked R L id new seq lat lng ts ttl db)) id
        ≡ some (text new)
  tracked-cell_at id old new seq lat lng ts ttl db lives h =
      elim (Bool-cases (cell_key old == cell_key new)) [
        | inl e ↦ rw e written
        | inr e ↦ rw e (
            rw
              (
                L.read-srem (cell_key old) id (driver_loc_key id) _,
                ==-ne _ _ (driver_loc_key-ne-cell_key id old),
              )
              written)
      ]
    where
      placed :
          R.read (tracked R L id new seq lat lng ts ttl db) (driver_loc_key id)
          ≡ put_field "ts" (int ts) (
              put_field "seq" (int seq) (
                put_field "cell" (text new) (
                  put_field "lng"
                    (real lng)
                    (put_field "lat" (real lat) (R.read db (driver_loc_key id))))))
      placed = simp (
        L.read-expire,
        lives,
        L.read-hset,
        L.read-set_ex (driver_seq_key id) (driver_loc_key id) (int seq) 3599 db,
        ==-ne _ _ (guard-IsAside id id).no_position,
        ==-refl,
      )

      written : cell_at R (tracked R L id new seq lat lng ts ttl db) id ≡ some (text new)
      written = rw placed (placed_cell _ _ _ _ _ new (h.typed (position id) tt))

  pub tracked-Same :
      (j id old new : String) (seq : ℕ) (lat lng : Float) (ts ttl : ℕ) (db : R.Db)
      → j ≢ id
      → Same R j db (left R L id old new (tracked R L id new seq lat lng ts ttl db))
  tracked-Same j id old new seq lat lng ts ttl db ne =
      if-Same (cell_key old == cell_key new) _ _ there (srem-Same R L j db old id _ ne there)
    where
      if-Same :
          (b : Bool) (d d' : R.Db)
          → Same R j db d
          → Same R j db d'
          → Same R j db (if b then d else d')
      if-Same true d d' h h' = h
      if-Same false d d' h h' = h'

      put :
          (f : String) (v : Datum) (d : R.Db)
          → Same R j db d
          → Same R j db (R.hset (driver_loc_key id) f v d)
      put f v d = hset-Same R L j db (driver_loc_key id) f v d (position-IsAside j id ne)

      there : Same R j db (tracked R L id new seq lat lng ts ttl db)
      there = expire-Same R L j db (driver_loc_key id) (ttl * 1000) _ (position-IsAside j id ne) (
          put "ts" (int ts) _ (
            put "seq" (int seq) _ (
              put "cell" (text new) _ (
                put "lng" (real lng) _ (
                  put "lat" (real lat) _ (
                    set_ex-Same R L j db (driver_seq_key id) (int seq) 3599 db (guard-IsAside j id)
                      (Same-refl R L j db)))))))

  pub registered-cell_at :
      (id nm state : String) (rating : ℤ) (lat lng : Float) (c : String) (now : ℕ) (db : R.Db)
      → IsPlain id
      → Typed R db
      → cell_at R (registered R L id nm state rating lat lng c now db) id ≡ some (text c)
  registered-cell_at id nm state rating lat lng c now db p h =
      rw placed (placed_cell _ _ _ _ _ c (h.typed (position id) tt))
    where
      placed :
          R.read (registered R L id nm state rating lat lng c now db) (driver_loc_key id)
          ≡ put_field "ts" (int now) (
              put_field "seq" (int 0) (
                put_field "cell" (text c) (
                  put_field "lng"
                    (real lng)
                    (put_field "lat" (real lat) (R.read db (driver_loc_key id))))))
      placed =
          simp
            (L.read-expire, L.read-hset, ==-ne _ _ (profile-IsAside id id p).no_position, ==-refl)

  pub registered-Same :
      (j id nm state : String) (rating : ℤ) (lat lng : Float) (c : String) (now : ℕ) (db : R.Db)
      → IsPlain id
      → j ≢ id
      → Same R j db (registered R L id nm state rating lat lng c now db)
  registered-Same j id nm state rating lat lng c now db p ne =
      expire-Same R L j db (driver_loc_key id) (120 * 1000) _ (position-IsAside j id ne) (
        at "ts" (int now) _ (
          at "seq" (int 0) _ (
            at "cell" (text c) _ (
              at "lng" (real lng) _ (
                at "lat" (real lat) _ (
                  own "rating" (real (micro rating)) _ (
                    own "state" (text state) _
                      (own "name" (text nm) _ (own "id" (text id) _ (Same-refl R L j db))))))))))
    where
      own :
          (f : String) (v : Datum) (d : R.Db)
          → Same R j db d
          → Same R j db (R.hset (driver_key id) f v d)
      own f v d = hset-Same R L j db (driver_key id) f v d (profile-IsAside j id p)

      at :
          (f : String) (v : Datum) (d : R.Db)
          → Same R j db d
          → Same R j db (R.hset (driver_loc_key id) f v d)
      at f v d = hset-Same R L j db (driver_loc_key id) f v d (position-IsAside j id ne)
