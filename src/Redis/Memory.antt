-- ===== src/Redis/Memory.antt =====
-- A database in memory, which meets the laws of the interface.
use mathlib.Core.Path.{fun_ext}
use nexus_dispatch.Prelude.{
  ℕ, ◌+◌, ◌*◌, ◌≡◌, refl, ap, true, false, Option, none, some, List, [], ◌∷◌, String, ◌==◌, ◌&&◌,
  eqb, ==-ne, arith, if◌then◌else◌,
}
use nexus_dispatch.Redis.{
  Float, Datum, Fields, Value, absent, str, hash, set, geo, update, put_field, put_member,
  drop_member, put_point, drop_point, has_member, is_over, listed, Redis, IsRedis,
}

pub data Cell : Type 0 where
  empty : Cell
  text : Datum → Cell
  table : Fields → Cell
  bag : List String → Cell
  points : (String → Option (Float × Float)) → Cell

abbrev value : Cell → Value
value empty = absent
value (text d) = str d
value (table m) = hash m
value (bag xs) = set (listed xs)
value (points g) = geo g

pub record Db : Type 0 where
  pub cell : String → Cell
  pub until : String → Option ℕ
  pub clock : ℕ

abbrev change : String → Cell → Db → Db
change k c db = record db { cell = update k c db.cell }

unfoldable pub erase : List String → String → List String
erase [] m = []
erase (x ∷ xs) m = let rest = erase xs m in if x == m then rest else x ∷ rest

abbrev write_field : String → Datum → Cell → Cell
write_field f v empty = table (update f (some v) (λ _. none))
write_field f v (table m) = table (update f (some v) m)
write_field f v other = other

abbrev write_member : String → Cell → Cell
write_member m empty = bag (m ∷ [])
write_member m (bag xs) = bag (m ∷ xs)
write_member m other = other

abbrev remove_member : String → Cell → Cell
remove_member m (bag xs) = bag (erase xs m)
remove_member m other = other

abbrev write_point : String → Float × Float → Cell → Cell
write_point m p empty = points (update m (some p) (λ _. none))
write_point m p (points g) = points (update m (some p) g)
write_point m p other = other

abbrev remove_point : String → Cell → Cell
remove_point m (points g) = points (update m none g)
remove_point m other = other

abbrev members : Cell → List String
members (bag xs) = xs
members other = []

abbrev pub memory : Redis
memory = record {
  Db = Db;
  read = λ db k. value (db.cell k);
  deadline = λ db. db.until;
  now = λ db. db.clock;
  set_ex = λ k v s db. record db {
    cell = update k (text v) db.cell;
    until = update k (some (db.clock + s * 1000)) db.until;
  };
  del = λ k db. record db { cell = update k empty db.cell; until = update k none db.until };
  hset = λ k f v db. change k (write_field f v (db.cell k)) db;
  expire = λ k t db. record {
    cell = λ j. if eqb t 0 && j == k then empty else db.cell j;
    until = update k (if eqb t 0 then none else some (db.clock + t)) db.until;
    clock = db.clock;
  };
  lua_number = λ n. n;
  geo_takes = λ p. true;
  sadd = λ k m db. change k (write_member m (db.cell k)) db;
  srem = λ k m db. change k (remove_member m (db.cell k)) db;
  geo_add = λ k p m db. change k (write_point m p (db.cell k)) db;
  zrem = λ k m db. change k (remove_point m (db.cell k)) db;
  smembers = λ db k. members (db.cell k);
  wait = λ t db.
      let over = λ (j : String). is_over (db.until j) (db.clock + t) in
      record {
        cell = λ j. if over j then empty else db.cell j;
        until = λ j. if over j then none else db.until j;
        clock = db.clock + t;
      };
}

abbrev pub fresh : memory.Db
fresh = record { cell = λ _. empty; until = λ _. none; clock = 0 }

listed-cons : (m : String) (xs : List String) → listed (m ∷ xs) ≡ update m true (listed xs)
unfolding listed
listed-cons m xs = fun_ext λ j. ground arith

listed-nil : listed [] ≡ (λ _. false)
unfolding listed
listed-nil = refl

listed-erase :
    (xs : List String) (m j : String) → listed (erase xs m) j ≡ update m false (listed xs) j
unfolding listed erase
listed-erase [] m j = ground arith
listed-erase (x ∷ xs) m j = ground (arith, listed-erase xs m j)

value-write_field :
    (f : String) (v : Datum) (c : Cell) → value (write_field f v c) ≡ put_field f v (value c)
value-write_field f v (table m) = refl
value-write_field f v _ = refl

value-write_member : (m : String) (c : Cell) → value (write_member m c) ≡ put_member m (value c)
value-write_member m empty = ap set (rw (listed-cons, listed-nil))
value-write_member m (bag xs) = ap set (listed-cons m xs)
value-write_member m _ = refl

value-remove_member : (m : String) (c : Cell) → value (remove_member m c) ≡ drop_member m (value c)
value-remove_member m (bag xs) = ap set (fun_ext (listed-erase xs m))
value-remove_member m _ = refl

value-write_point :
    (m : String) (p : Float × Float) (c : Cell)
    → value (write_point m p c) ≡ put_point m p (value c)
value-write_point m p (points g) = refl
value-write_point m p _ = refl

value-remove_point : (m : String) (c : Cell) → value (remove_point m c) ≡ drop_point m (value c)
value-remove_point m (points g) = refl
value-remove_point m _ = refl

listed-members : (c : Cell) (m : String) → listed (members c) m ≡ has_member (value c) m
unfolding listed
listed-members (bag xs) m = refl
listed-members _ m = refl

pub memory-IsRedis : IsRedis memory
memory-IsRedis = record {
  read-set_ex = λ k j v s db. ground arith;
  read-del = λ k j db. ground arith;
  read-hset = λ k j f v db. ground (arith, value-write_field f v (db.cell k));
  read-expire = λ k j t db. ground arith;
  read-sadd = λ k m j db. ground (arith, value-write_member m (db.cell k));
  read-srem = λ k m j db. ground (arith, value-remove_member m (db.cell k));
  read-geo_add = λ k m j p db. ground (arith, value-write_point m p (db.cell k));
  read-zrem = λ k m j db. ground (arith, value-remove_point m (db.cell k));
  read-wait = λ t j db. ground arith;
  deadline-set_ex = λ k j v s db. ground arith;
  deadline-hset = λ k j f v db. refl;
  deadline-del = λ k j db. ground arith;
  deadline-wait = λ t j db. ground arith;
  deadline-expire = λ k j t db ne. rw (==-ne j k ne) refl;
  deadline-sadd = λ k m j db h. h;
  deadline-srem = λ k m j db h. h;
  deadline-geo_add = λ k m j p db h. h;
  deadline-zrem = λ k m j db h. h;
  now-set_ex = λ k v s db. refl;
  now-hset = λ k f v db. refl;
  now-del = λ k db. refl;
  now-wait = λ t db. refl;
  listed-smembers = λ db k m. listed-members (db.cell k) m;
  lua_number_mono = λ m n h. h;
  lua_number_exact = λ n h. refl;
}
