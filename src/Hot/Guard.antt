-- ===== src/Hot/Guard.antt =====
-- The sequence guard of location updates (`applyLocationScript` of internal/redis/scripts.go).
use nexus_dispatch.Prelude.{
  none, ℕ, ◌^◌, ◌≤◌, ◌<◌, ◌≡◌, ◌≢◌, ◌⊎◌, inl, inr, refl, sym, false, ◌+◌, Option, some, List, [],
  ◌∷◌, String, string_dec, ◌==◌, ==-refl, ==-ne, arith, dec_lt, if◌then◌else◌,
}
use nexus_dispatch.Prelude.Int.{ℤ, pos}
use nexus_dispatch.Redis.{
  Float, Datum, text, int, real, Value, absent, str, hash, put_field, field, is_over, Redis,
  IsRedis,
}
use nexus_dispatch.Hot.Keys.{
  driver_seq_key, driver_loc_key, cell_key, geo_key, driver_seq_key-ne-driver_loc_key,
  driver_seq_key-ne-cell_key, driver_loc_key-ne-cell_key, driver_seq_key-ne-geo_key,
  driver_loc_key-ne-geo_key,
}
use nexus_dispatch.Hot.Scripts.{apply_location_script, write_location}

-- One update of a driver's position, with the cell that the caller read before it.
pub record Update : Type 0 where
  pub seq : ℕ
  pub lat : Float
  pub lng : Float
  pub old_cell : String
  pub new_cell : String
  pub ts : ℕ

-- An update arrives, or time goes by, in milliseconds.
pub data Event : Type 0 where
  arrives : Update → Event
  passes : ℕ → Event

abbrev pub IsTable : Value → Type 0
IsTable absent = Unit
IsTable (hash m) = Unit
IsTable _ = ⊥

IsTable-put_field : (v : Value) (f : String) (d : Datum) → IsTable v → IsTable (put_field f d v)
IsTable-put_field absent f d h = tt
IsTable-put_field (hash m) f d h = tt
IsTable-put_field (str x) f d h = h
IsTable-put_field (Value.set x) f d h = h
IsTable-put_field (Value.geo x) f d h = h

field-put_field :
    (v : Value) (f g : String) (d : Datum)
    → IsTable v
    → field (put_field f d v) g ≡ (if g == f then some d else field v g)
field-put_field absent f g d h = refl
field-put_field (hash m) f g d h = refl
field-put_field (str x) f g d h = absurd h
field-put_field (Value.set x) f g d h = absurd h
field-put_field (Value.geo x) f g d h = absurd h

module _ (R : Redis) (L : IsRedis R) (id : String) where
  -- The script on the keys that `ApplyLocation` passes for this driver.
  unfoldable pub deliver : Update → R.Db → R.Db × Option ℤ
  deliver u =
      apply_location_script R (driver_seq_key id) (driver_loc_key id) (cell_key u.old_cell)
        (cell_key u.new_cell) geo_key u.seq u.lat u.lng u.new_cell u.ts 120 id

  pub written : Update → R.Db → R.Db
  written u =
      write_location R (driver_seq_key id) (driver_loc_key id) (cell_key u.old_cell)
        (cell_key u.new_cell) geo_key u.seq u.lat u.lng u.new_cell u.ts 120 id

  table : Update → Value → Value
  table u v = put_field "ts" (int u.ts) (
      put_field "seq" (int u.seq) (
        put_field "cell" (text u.new_cell)
          (put_field "lng" (real u.lng) (put_field "lat" (real u.lat) v))))

  read-moved :
      (j : String) (u : Update) (db : R.Db)
      → ((c : String) → j ≢ cell_key c)
      → R.read
          (if cell_key u.old_cell == cell_key u.new_cell
            then db
            else R.srem (cell_key u.old_cell) id db)
          j
        ≡ R.read db j
  read-moved j u db c = ground (arith, c u.old_cell, L.read-srem (cell_key u.old_cell) id j db)

  read-written_seq :
      (u : Update) (db : R.Db) → R.read (written u db) (driver_seq_key id) ≡ str (int u.seq)
  unfolding written write_location
  read-written_seq u db = simp (
    L.read-geo_add,
    L.read-sadd,
    L.read-expire,
    L.read-hset,
    L.read-set_ex (driver_seq_key id) (driver_seq_key id) (int u.seq) 3599 db,
    read-moved (driver_seq_key id) u _ (driver_seq_key-ne-cell_key id),
    ==-ne _ _ (driver_seq_key-ne-geo_key id),
    ==-ne _ _ (driver_seq_key-ne-cell_key id u.new_cell),
    ==-ne _ _ (driver_seq_key-ne-driver_loc_key id id),
    ==-refl,
  )

  read-written_loc :
      (u : Update) (db : R.Db)
      → R.read (written u db) (driver_loc_key id) ≡ table u (R.read db (driver_loc_key id))
  unfolding written write_location table
  read-written_loc u db = simp (
    L.read-geo_add,
    L.read-sadd,
    L.read-expire,
    L.read-hset,
    L.read-set_ex (driver_seq_key id) (driver_loc_key id) (int u.seq) 3599 db,
    read-moved (driver_loc_key id) u _ (driver_loc_key-ne-cell_key id),
    ==-ne _ _ (driver_loc_key-ne-geo_key id),
    ==-ne _ _ (driver_loc_key-ne-cell_key id u.new_cell),
    ==-ne (driver_loc_key id) (driver_seq_key id)
        (λ e. driver_seq_key-ne-driver_loc_key id id (sym e)),
    ==-refl,
  )

  -- The driver's keys hold this update: its number in the guard, and its position.
  pub record Latest (u : Update) (db : R.Db) : Type 0 where
    pub guard : R.read db (driver_seq_key id) ≡ str (int u.seq)
    pub loc_table : IsTable (R.read db (driver_loc_key id))
    pub seq_field : field (R.read db (driver_loc_key id)) "seq" ≡ some (int u.seq)
    pub lat_field : field (R.read db (driver_loc_key id)) "lat" ≡ some (real u.lat)
    pub lng_field : field (R.read db (driver_loc_key id)) "lng" ≡ some (real u.lng)

  table-IsTable : (u : Update) (v : Value) → IsTable v → IsTable (table u v)
  unfolding table
  table-IsTable u v h = IsTable-put_field _ _ _ (
      IsTable-put_field _ _ _
        (IsTable-put_field _ _ _ (IsTable-put_field _ _ _ (IsTable-put_field v "lat" _ h))))

  table-fields :
      (u : Update) (v : Value)
      → IsTable v
      → (field (table u v) "seq" ≡ some (int u.seq))
        × (field (table u v) "lat" ≡ some (real u.lat))
        × (field (table u v) "lng" ≡ some (real u.lng))
  unfolding table string_dec
  table-fields u absent h = (refl, refl, refl)
  table-fields u (hash m) h = (refl, refl, refl)
  table-fields u (str x) h = absurd h
  table-fields u (Value.set x) h = absurd h
  table-fields u (Value.geo x) h = absurd h

  written-Latest :
      (u : Update) (db : R.Db) → IsTable (R.read db (driver_loc_key id)) → Latest u (written u db)
  written-Latest u db h = record {
    guard = read-written_seq u db;
    loc_table = rw (read-written_loc u db) (table-IsTable u _ h);
    seq_field = rw (read-written_loc u db) (table-fields u _ h).0;
    lat_field = rw (read-written_loc u db) (table-fields u _ h).1;
    lng_field = rw (read-written_loc u db) (table-fields u _ h).2;
  }

  abbrev pub IsExact : Update → Type 0
  IsExact u = u.seq ≤ 2 ^ 53

  -- One event after another, with what the store keeps of the answers left out.
  unfoldable pub deliver_all : List Event → R.Db → R.Db
  deliver_all [] db = db
  deliver_all (arrives u ∷ es) db = deliver_all es (deliver u db).0
  deliver_all (passes t ∷ es) db = deliver_all es (R.wait t db)

  -- No time that passes reaches the deadline of the guard, or that of the position.
  unfoldable pub Lasts : List Event → R.Db → Type 0
  Lasts [] db = Unit
  Lasts (arrives u ∷ es) db = Lasts es (deliver u db).0
  Lasts (passes t ∷ es) db =
      (is_over (R.deadline db (driver_seq_key id)) (R.now db + t) ≡ false)
      × (is_over (R.deadline db (driver_loc_key id)) (R.now db + t) ≡ false)
      × Lasts es (R.wait t db)

  wait-Latest :
      (b : Update) (t : ℕ) (db : R.Db)
      → is_over (R.deadline db (driver_seq_key id)) (R.now db + t) ≡ false
      → is_over (R.deadline db (driver_loc_key id)) (R.now db + t) ≡ false
      → Latest b db
      → Latest b (R.wait t db)
  wait-Latest b t db e f h =
      let same : R.read (R.wait t db) (driver_loc_key id) ≡ R.read db (driver_loc_key id) =
        ground (arith, L.read-wait t (driver_loc_key id) db, f) in
      record {
        guard = ground (arith, L.read-wait t (driver_seq_key id) db, e, h.guard);
        loc_table = rw same h.loc_table;
        seq_field = rw same h.seq_field;
        lat_field = rw same h.lat_field;
        lng_field = rw same h.lng_field;
      }

  pub deliver_newer :
      (b u : Update) (db : R.Db)
      → Latest b db
      → IsExact b
      → IsExact u
      → b.seq < u.seq
      → deliver u db ≡ (written u db, if R.geo_takes (u.lng, u.lat) then some (pos 1) else none)
  unfolding deliver apply_location_script written
  deliver_newer b u db h eb eu lt =
      ground (arith, L.lua_number_exact b.seq, L.lua_number_exact u.seq)

  pub deliver_stale :
      (b u : Update) (db : R.Db) → Latest b db → u.seq ≤ b.seq → deliver u db ≡ (db, some (pos 0))
  unfolding deliver apply_location_script
  deliver_stale b u db h le = ground (arith, L.lua_number_mono u.seq b.seq le)

  -- Where an update is among those that arrive, or the one that was there before.
  abbrev pub From : Update → Update → List Event → Type 0
  From w b [] = w ≡ b
  From w b (arrives u ∷ es) = (w ≡ u) ⊎ From w b es
  From w b (passes t ∷ es) = From w b es

  -- A property of each update that arrives.
  abbrev pub Arriving : (Update → Type 0) → List Event → Type 0
  Arriving P [] = Unit
  Arriving P (arrives u ∷ es) = P u × Arriving P es
  Arriving P (passes t ∷ es) = Arriving P es

  From-swap : (w b u : Update) (es : List Event) → From w u es → (w ≡ u) ⊎ From w b es
  From-swap w b u [] e = inl e
  From-swap w b u (arrives v ∷ es) (inl e) = inr (inl e)
  From-swap w b u (arrives v ∷ es) (inr f) = elim (From-swap w b u es f) [
    | inl e ↦ inl e
    | inr g ↦ inr (inr g)
  ]
  From-swap w b u (passes t ∷ es) f = From-swap w b u es f

  -- In whatever order updates of one driver arrive, late and repeated ones included, with time
  -- passing between them that reaches neither the deadline of the guard nor that of the position:
  -- the store ends with the position of an update whose number is the greatest of all that arrived
  -- and of the one that it held before. The numbers are those that Lua reads exactly, up to 2 ^ 53.
  pub deliver_all-Latest :
      (es : List Event) (b : Update) (db : R.Db)
      → Latest b db
      → IsExact b
      → Arriving IsExact es
      → Lasts es db
      → (w : Update) × Latest w (deliver_all es db)
        × (b.seq ≤ w.seq)
        × Arriving (λ u. u.seq ≤ w.seq) es
        × From w b es
  unfolding deliver_all Lasts
  deliver_all-Latest [] b db h eb e l = (b, h, omega arith, tt, refl)
  deliver_all-Latest (passes t ∷ es) b db h eb e (k, m, l) =
      deliver_all-Latest es b (R.wait t db) (wait-Latest b t db k m h) eb e l
  deliver_all-Latest (arrives u ∷ us) b db h eb (eu, es) l = elim (dec_lt b.seq u.seq) [
    | yes lt ↦
        let n = deliver_newer b u db h eb eu lt in
        let (w, k, le, all, from) =
          deliver_all-Latest us u (written u db) (written-Latest u db h.loc_table) eu es
            (rw n at l) in
        (w, rw n k, omega arith, (le, all), From-swap w b u us from)
    | no ge ↦
        let n = deliver_stale b u db h (omega arith) in
        let (w, k, le, all, from) = deliver_all-Latest us b db h eb es (rw n at l) in
        (w, rw n k, le, (omega arith, all), inr from)
  ]
