-- ===== src/Hot/Schema/Typed.antt =====
-- Every call of internal/redis/store.go leaves each key with a value of its type.
use nexus_dispatch.Prelude.{
  Bool, true, false, eqb, ◌&&◌, ℕ, suc, ◌+◌, ◌≡◌, inl, inr, String, ◌==◌, string_dec, ==-refl,
  ==-ne, Bool-cases, if◌then◌else◌,
}
use nexus_dispatch.Redis.{
  Float, Datum, Value, absent, str, hash, put_field, put_member, drop_member, put_point, drop_point,
  is_over, Redis, IsRedis,
}
use nexus_dispatch.Hot.Schema.{
  Kind, Key, cell, points, name, IsKey, table, members, places, kind, HasKind, name-kind,
}

-- Each key is absent or holds a value of its kind.
pub record Typed (R : Redis) (db : R.Db) : Type 0 where
  pub typed : (k : Key) → IsKey k → HasKind (kind k) (R.read db (name k))

module _ (R : Redis) (L : IsRedis R) where
  -- A change of the value at one key, which keeps the kind of that key.
  changed-Typed :
      (k : Key) (f : Value → Value) (db db' : R.Db)
      → IsKey k
      → ((j : String)
          → R.read db' j ≡ (if j == name k then f (R.read db (name k)) else R.read db j))
      → ((v : Value) → HasKind (kind k) v → HasKind (kind k) (f v))
      → Typed R db
      → Typed R db'
  changed-Typed k f db db' p e keeps h = record {
    typed = λ j q. elim (string_dec (name j) (name k)) [
      | yes same ↦
          rw (e (name j), same, ==-refl (name k), name-kind j k q p same) (keeps _ (h.typed k p))
      | no ne ↦ rw (e (name j), ==-ne (name j) (name k) ne) (h.typed j q)
    ];
  }

  put_field-HasKind :
      (f : String) (d : Datum) (v : Value) → HasKind table v → HasKind table (put_field f d v)
  put_field-HasKind f d absent h = tt
  put_field-HasKind f d (hash m) h = tt
  put_field-HasKind f d (str x) h = h
  put_field-HasKind f d (Value.set x) h = h
  put_field-HasKind f d (Value.geo x) h = h

  put_member-HasKind :
      (m : String) (v : Value) → HasKind members v → HasKind members (put_member m v)
  put_member-HasKind m absent h = tt
  put_member-HasKind m (Value.set s) h = tt
  put_member-HasKind m (str x) h = h
  put_member-HasKind m (hash x) h = h
  put_member-HasKind m (Value.geo x) h = h

  drop_member-HasKind :
      (m : String) (v : Value) → HasKind members v → HasKind members (drop_member m v)
  drop_member-HasKind m absent h = tt
  drop_member-HasKind m (Value.set s) h = tt
  drop_member-HasKind m (str x) h = h
  drop_member-HasKind m (hash x) h = h
  drop_member-HasKind m (Value.geo x) h = h

  put_point-HasKind :
      (m : String) (p : Float × Float) (v : Value)
      → HasKind places v
      → HasKind places (put_point m p v)
  put_point-HasKind m p absent h = tt
  put_point-HasKind m p (Value.geo g) h = tt
  put_point-HasKind m p (str x) h = h
  put_point-HasKind m p (hash x) h = h
  put_point-HasKind m p (Value.set x) h = h

  drop_point-HasKind : (m : String) (v : Value) → HasKind places v → HasKind places (drop_point m v)
  drop_point-HasKind m absent h = tt
  drop_point-HasKind m (Value.geo g) h = tt
  drop_point-HasKind m (str x) h = h
  drop_point-HasKind m (hash x) h = h
  drop_point-HasKind m (Value.set x) h = h

  pub hset-Typed :
      (k : Key) (f : String) (v : Datum) (db : R.Db)
      → IsKey k
      → kind k ≡ table
      → Typed R db
      → Typed R (R.hset (name k) f v db)
  hset-Typed k f v db p e =
      changed-Typed k (put_field f v) db _ p (λ j. L.read-hset (name k) j f v db)
        (rw e (put_field-HasKind f v))

  pub set_ex-Typed :
      (k : Key) (v : Datum) (t : ℕ) (db : R.Db)
      → IsKey k
      → HasKind (kind k) (str v)
      → Typed R db
      → Typed R (R.set_ex (name k) v (suc t) db)
  set_ex-Typed k v t db p h =
      changed-Typed k (λ _. str v) db _ p (λ j. L.read-set_ex (name k) j v t db) (λ _ _. h)

  pub del-Typed : (k : Key) (db : R.Db) → IsKey k → Typed R db → Typed R (R.del (name k) db)
  del-Typed k db p =
      changed-Typed k (λ _. absent) db _ p (λ j. L.read-del (name k) j db) (λ _ _. tt)

  pub sadd-Typed : (c m : String) (db : R.Db) → Typed R db → Typed R (R.sadd (name (cell c)) m db)
  sadd-Typed c m db =
      changed-Typed (cell c) (put_member m) db _ tt (λ j. L.read-sadd (name (cell c)) m j db)
        (put_member-HasKind m)

  pub srem-Typed : (c m : String) (db : R.Db) → Typed R db → Typed R (R.srem (name (cell c)) m db)
  srem-Typed c m db =
      changed-Typed (cell c) (drop_member m) db _ tt (λ j. L.read-srem (name (cell c)) m j db)
        (drop_member-HasKind m)

  pub geo_add-Typed :
      (m : String) (p : Float × Float) (db : R.Db)
      → Typed R db
      → Typed R (R.geo_add (name points) p m db)
  geo_add-Typed m p db =
      changed-Typed points (λ v. if R.geo_takes p then put_point m p v else v) db _ tt
        (λ j. L.read-geo_add (name points) m j p db) (λ v h. taken (R.geo_takes p) v h)
    where
      taken :
          (b : Bool) (v : Value)
          → HasKind places v
          → HasKind places (if b then put_point m p v else v)
      taken true v h = put_point-HasKind m p v h
      taken false v h = h

  pub zrem-Typed : (m : String) (db : R.Db) → Typed R db → Typed R (R.zrem (name points) m db)
  zrem-Typed m db =
      changed-Typed points (drop_point m) db _ tt (λ j. L.read-zrem (name points) m j db)
        (drop_point-HasKind m)

  pub expire-Typed : (k : String) (t : ℕ) (db : R.Db) → Typed R db → Typed R (R.expire k t db)
  expire-Typed k t db h = record {
    typed = λ j q.
        rw (L.read-expire k (name j) t db)
          (absent_or (eqb t 0 && name j == k) (kind j) (R.read db (name j)) (h.typed j q));
  }
    where
      absent_or :
          (b : Bool) (n : Kind) (v : Value) → HasKind n v → HasKind n (if b then absent else v)
      absent_or true n v h = tt
      absent_or false n v h = h

  pub wait-Typed : (t : ℕ) (db : R.Db) → Typed R db → Typed R (R.wait t db)
  wait-Typed t db h = record {
    typed = λ j q. elim (Bool-cases (is_over (R.deadline db (name j)) (R.now db + t))) [
      | inl e ↦ rw (L.read-wait t (name j) db, e) tt
      | inr e ↦ rw (L.read-wait t (name j) db, e) (h.typed j q)
    ];
  }
