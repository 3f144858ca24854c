-- ===== src/Hot/Index/Frame.antt =====
-- What one command to Redis leaves of the index of drivers by cell.
use nexus_dispatch.Prelude.{
  ℕ, suc, ◌≡◌, ◌≢◌, refl, sym, ◌∙◌, none, String, ◌==◌, string_dec, ==-refl, ==-ne, arith,
  if◌then◌else◌,
}
use nexus_dispatch.Redis.{
  Float, Datum, Value, absent, str, hash, put_member, drop_member, has_member, Redis, IsRedis,
}
use nexus_dispatch.Hot.Keys.{
  driver_loc_key, cell_key, driver_loc_key-inj, driver_loc_key-ne-driver_key,
  driver_loc_key-ne-cell_key,
}
use nexus_dispatch.Hot.Schema.{
  Key, profile, position, lease, guard, cell, points, ride, bucket, name, IsKey, kind, name-kind,
  same_letter,
}
use nexus_dispatch.Hot.Index.{is_in}

has_member-put_member :
    (m j : String) (v : Value) → j ≢ m → has_member (put_member m v) j ≡ has_member v j
has_member-put_member m j absent ne = ground (arith, ne)
has_member-put_member m j (Value.set s) ne = ground (arith, ne)
has_member-put_member m j (str x) ne = refl
has_member-put_member m j (hash x) ne = refl
has_member-put_member m j (Value.geo x) ne = refl

has_member-drop_member :
    (m j : String) (v : Value) → j ≢ m → has_member (drop_member m v) j ≡ has_member v j
has_member-drop_member m j absent ne = refl
has_member-drop_member m j (Value.set s) ne = ground (arith, ne)
has_member-drop_member m j (str x) ne = refl
has_member-drop_member m j (hash x) ne = refl
has_member-drop_member m j (Value.geo x) ne = refl

-- The key is neither a cell's nor the one of this driver's position.
pub record IsAside (j s : String) : Type 0 where
  pub no_position : driver_loc_key j ≢ s
  pub no_cell : (c : String) → cell_key c ≢ s

table-IsAside :
    (j : String) (k : Key)
    → IsKey k
    → kind k ≢ kind (cell j)
    → driver_loc_key j ≢ name k
    → IsAside j (name k)
table-IsAside j k p ne np = record {
  no_position = np;
  no_cell = λ c e. ne (sym (name-kind (cell c) k tt p e));
}

-- All about this driver is as it was, and no set of a cell gets a deadline.
pub record Same (R : Redis) (j : String) (db db' : R.Db) : Type 0 where
  pub same_at : R.read db' (driver_loc_key j) ≡ R.read db (driver_loc_key j)
  pub same_in : (c : String) → is_in R db' j c ≡ is_in R db j c
  pub lasts : (c : String) → R.deadline db (cell_key c) ≡ none → R.deadline db' (cell_key c) ≡ none

pub profile-IsAside : (j id : String) → IsKey (profile id) → IsAside j (name (profile id))
profile-IsAside j id p =
    table-IsAside j (profile id) p (λ e. cc) (driver_loc_key-ne-driver_key j id p)

pub position-IsAside : (j id : String) → j ≢ id → IsAside j (name (position id))
position-IsAside j id ne =
    table-IsAside j (position id) tt (λ e. cc) (λ e. ne (driver_loc_key-inj j id e))

pub lease-IsAside : (j id : String) → IsAside j (name (lease id))
lease-IsAside j id =
    table-IsAside j (lease id) tt (λ e. cc)
      (λ e. absurd (ground (arith, name-kind (position j) (lease id) tt tt e)))

pub guard-IsAside : (j id : String) → IsAside j (name (guard id))
guard-IsAside j id =
    table-IsAside j (guard id) tt (λ e. cc)
      (λ e. absurd (ground (arith, name-kind (position j) (guard id) tt tt e)))

pub points-IsAside : (j : String) → IsAside j (name points)
points-IsAside j =
    table-IsAside j points tt (λ e. cc)
      (λ e. absurd (ground (arith, name-kind (position j) points tt tt e)))

pub ride-IsAside : (j id : String) → IsAside j (name (ride id))
ride-IsAside j id =
    table-IsAside j (ride id) tt (λ e. cc)
      (λ e. absurd (ground (arith, same_letter (position j) (ride id) e)))

pub bucket-IsAside : (j scope id : String) → IsAside j (name (bucket scope id))
bucket-IsAside j scope id =
    table-IsAside j (bucket scope id) tt (λ e. cc)
      (λ e. absurd (ground (arith, same_letter (position j) (bucket scope id) e)))

module _ (R : Redis) (L : IsRedis R) (j : String) (db : R.Db) where
  pub Same-refl : Same R j db db
  Same-refl = record { same_at = refl; same_in = λ c. refl; lasts = λ c h. h }

  -- A change at one key that is neither.
  aside-Same :
      (s : String) (v : Value) (d d' : R.Db)
      → IsAside j s
      → ((k : String) → R.read d' k ≡ (if k == s then v else R.read d k))
      → ((k : String) → k ≢ s → R.deadline d' k ≡ R.deadline d k)
      → Same R j db d
      → Same R j db d'
  aside-Same s v d d' a e l h = record {
    same_at = rw (e (driver_loc_key j), ==-ne _ _ a.no_position) h.same_at;
    same_in = λ c. rw (e (cell_key c), ==-ne _ _ (a.no_cell c)) (h.same_in c);
    lasts = λ c k. rw (l (cell_key c) (a.no_cell c)) (h.lasts c k);
  }

  pub hset-Same :
      (s f : String) (v : Datum) (d : R.Db)
      → IsAside j s
      → Same R j db d
      → Same R j db (R.hset s f v d)
  hset-Same s f v d a =
      aside-Same s _ d _ a (λ k. L.read-hset s k f v d) (λ k _. L.deadline-hset s k f v d)

  pub set_ex-Same :
      (s : String) (v : Datum) (t : ℕ) (d : R.Db)
      → IsAside j s
      → Same R j db d
      → Same R j db (R.set_ex s v (suc t) d)
  set_ex-Same s v t d a =
      aside-Same s _ d _ a (λ k. L.read-set_ex s k v t d)
        (λ k ne. rw (L.deadline-set_ex s k v t d, ==-ne k s ne) refl)

  pub del-Same : (s : String) (d : R.Db) → IsAside j s → Same R j db d → Same R j db (R.del s d)
  del-Same s d a =
      aside-Same s _ d _ a (λ k. L.read-del s k d)
        (λ k ne. rw (L.deadline-del s k d, ==-ne k s ne) refl)

  pub expire-read :
      (s k : String) (t : ℕ) (d : R.Db) → k ≢ s → R.read (R.expire s t d) k ≡ R.read d k
  expire-read s k t d ne = ground (arith, L.read-expire s k t d, ne)

  pub expire-Same :
      (s : String) (t : ℕ) (d : R.Db) → IsAside j s → Same R j db d → Same R j db (R.expire s t d)
  expire-Same s t d a h = record {
    same_at = rw (expire-read s (driver_loc_key j) t d a.no_position) h.same_at;
    same_in = λ c. rw (expire-read s (cell_key c) t d (a.no_cell c)) (h.same_in c);
    lasts = λ c k. rw (L.deadline-expire s (cell_key c) t d (a.no_cell c)) (h.lasts c k);
  }

  pub geo_add-Same :
      (m : String) (p : Float × Float) (d : R.Db)
      → Same R j db d
      → Same R j db (R.geo_add (name points) p m d)
  geo_add-Same m p d h =
      let a = points-IsAside j in
      record {
        same_at = rw (L.read-geo_add _ m (driver_loc_key j) p d, ==-ne _ _ a.no_position) h.same_at;
        same_in =
            λ c. rw (L.read-geo_add _ m (cell_key c) p d, ==-ne _ _ (a.no_cell c)) (h.same_in c);
        lasts = λ c k. L.deadline-geo_add _ m (cell_key c) p d (h.lasts c k);
      }

  pub zrem-Same : (m : String) (d : R.Db) → Same R j db d → Same R j db (R.zrem (name points) m d)
  zrem-Same m d h =
      let a = points-IsAside j in
      record {
        same_at = rw (L.read-zrem _ m (driver_loc_key j) d, ==-ne _ _ a.no_position) h.same_at;
        same_in = λ c. rw (L.read-zrem _ m (cell_key c) d, ==-ne _ _ (a.no_cell c)) (h.same_in c);
        lasts = λ c k. L.deadline-zrem _ m (cell_key c) d (h.lasts c k);
      }

  -- Another driver joins or leaves the set of a cell.
  pub sadd-Same :
      (c m : String) (d : R.Db) → j ≢ m → Same R j db d → Same R j db (R.sadd (cell_key c) m d)
  sadd-Same c m d ne h = record {
    same_at =
        rw (L.read-sadd _ m (driver_loc_key j) d, ==-ne _ _ (driver_loc_key-ne-cell_key j c))
          h.same_at;
    same_in = λ b. elim (string_dec (cell_key b) (cell_key c)) [
      | yes e ↦
          rw (L.read-sadd (cell_key c) m (cell_key b) d, e, ==-refl (cell_key c))
            (has_member-put_member m j _ ne ∙ h.same_in c)
      | no n ↦ rw (L.read-sadd (cell_key c) m (cell_key b) d, ==-ne _ _ n) (h.same_in b)
    ];
    lasts = λ b k. L.deadline-sadd _ m (cell_key b) d (h.lasts b k);
  }

  pub srem-Same :
      (c m : String) (d : R.Db) → j ≢ m → Same R j db d → Same R j db (R.srem (cell_key c) m d)
  srem-Same c m d ne h = record {
    same_at =
        rw (L.read-srem _ m (driver_loc_key j) d, ==-ne _ _ (driver_loc_key-ne-cell_key j c))
          h.same_at;
    same_in = λ b. elim (string_dec (cell_key b) (cell_key c)) [
      | yes e ↦
          rw (L.read-srem (cell_key c) m (cell_key b) d, e, ==-refl (cell_key c))
            (has_member-drop_member m j _ ne ∙ h.same_in c)
      | no n ↦ rw (L.read-srem (cell_key c) m (cell_key b) d, ==-ne _ _ n) (h.same_in b)
    ];
    lasts = λ b k. L.deadline-srem _ m (cell_key b) d (h.lasts b k);
  }
