-- ===== src/Redis.antt =====
-- The Redis server, which the repository uses and does not implement: an interface. A database maps
-- a key to a value, which may have a deadline, and the laws are what Redis documents of each
-- command. A hash field and a string hold a `Datum`: Redis stores the text of a number, and the
-- model stores the number that the text is read back as.
pub mod Memory
use nexus_dispatch.Prelude.{
  ℕ, suc, ◌+◌, ◌*◌, ◌^◌, ◌≤◌, ◌≡◌, ◌≢◌, Bool, true, false, ◌||◌, ◌&&◌, Option, none, some, List, [],
  ◌∷◌, String, ◌==◌, leb, eqb, if◌then◌else◌,
}
use nexus_dispatch.Prelude.Int.{ℤ}

-- A double, as far as the model reads it: a number of millionths, or not a number.
pub data Float : Type 0 where
  nan : Float
  micro : ℤ → Float

pub data Datum : Type 0 where
  text : String → Datum
  int : ℕ → Datum
  real : Float → Datum

abbrev pub Fields : Type 0
Fields = String → Option Datum

pub data Value : Type 0 where
  absent : Value
  str : Datum → Value
  hash : Fields → Value
  set : (String → Bool) → Value
  geo : (String → Option (Float × Float)) → Value

-- `f[k] = v` on a function
abbrev pub update {ℓ} : {A : Type ℓ} → String → A → (String → A) → String → A
update k v f j = if j == k then v else f j

-- A write to a hash; on a value of another type Redis answers WRONGTYPE and writes nothing.
abbrev pub put_field : String → Datum → Value → Value
put_field f v absent = hash (update f (some v) (λ _. none))
put_field f v (hash m) = hash (update f (some v) m)
put_field f v other = other

abbrev pub put_member : String → Value → Value
put_member m absent = set (update m true (λ _. false))
put_member m (set s) = set (update m true s)
put_member m other = other

abbrev pub drop_member : String → Value → Value
drop_member m (set s) = set (update m false s)
drop_member m other = other

abbrev pub put_point : String → Float × Float → Value → Value
put_point m p absent = geo (update m (some p) (λ _. none))
put_point m p (geo g) = geo (update m (some p) g)
put_point m p other = other

abbrev pub drop_point : String → Value → Value
drop_point m (geo g) = geo (update m none g)
drop_point m other = other

-- GET, HGET and SISMEMBER, from the value
abbrev pub as_str : Value → Option Datum
as_str (str d) = some d
as_str other = none

abbrev pub field : Value → String → Option Datum
field (hash m) f = m f
field other f = none

abbrev pub has_member : Value → String → Bool
has_member (set s) m = s m
has_member other m = false

-- Whether a key with this deadline is gone at a time.
abbrev pub is_over : Option ℕ → ℕ → Bool
is_over none t = false
is_over (some d) t = leb d t

unfoldable pub listed : List String → String → Bool
listed [] m = false
listed (x ∷ xs) m = m == x || listed xs m

-- Times are milliseconds. `set_ex k v s` is SET k v EX s, which wants a positive s. `expire k t` is
-- PEXPIRE k t, or EXPIRE of t / 1000. `lua_number` is the double that a script's `tonumber` makes of
-- a natural number: the nearest one, so it keeps the order and is exact up to 2 ^ 53. `geo_takes` is
-- GEOADD's test of a longitude and a latitude; where it fails the command changes nothing.
pub record Redis : Type 1 where
  pub Db : Type 0
  pub read : Db → String → Value
  pub deadline : Db → String → Option ℕ
  pub now : Db → ℕ
  pub set_ex : String → Datum → ℕ → Db → Db
  pub del : String → Db → Db
  pub hset : String → String → Datum → Db → Db
  pub expire : String → ℕ → Db → Db
  pub sadd : String → String → Db → Db
  pub srem : String → String → Db → Db
  pub geo_add : String → Float × Float → String → Db → Db
  pub zrem : String → String → Db → Db
  pub smembers : Db → String → List String
  pub wait : ℕ → Db → Db
  pub lua_number : ℕ → ℕ
  pub geo_takes : Float × Float → Bool

pub record IsRedis (R : Redis) : Type 0 where
  pub read-set_ex :
      (k j : String) (v : Datum) (s : ℕ) (db : R.Db)
      → R.read (R.set_ex k v (suc s) db) j ≡ (if j == k then str v else R.read db j)
  pub read-del :
      (k j : String) (db : R.Db) → R.read (R.del k db) j ≡ (if j == k then absent else R.read db j)
  pub read-hset :
      (k j f : String) (v : Datum) (db : R.Db)
      → R.read (R.hset k f v db) j ≡ (if j == k then put_field f v (R.read db k) else R.read db j)
  -- A term of 0 deletes the key.
  pub read-expire :
      (k j : String) (t : ℕ) (db : R.Db)
      → R.read (R.expire k t db) j ≡ (if eqb t 0 && j == k then absent else R.read db j)
  pub read-sadd :
      (k m j : String) (db : R.Db)
      → R.read (R.sadd k m db) j ≡ (if j == k then put_member m (R.read db k) else R.read db j)
  pub read-srem :
      (k m j : String) (db : R.Db)
      → R.read (R.srem k m db) j ≡ (if j == k then drop_member m (R.read db k) else R.read db j)
  pub read-geo_add :
      (k m j : String) (p : Float × Float) (db : R.Db)
      → R.read (R.geo_add k p m db) j ≡ (
          if j == k
          then (if R.geo_takes p then put_point m p (R.read db k) else R.read db k)
          else R.read db j)
  pub read-zrem :
      (k m j : String) (db : R.Db)
      → R.read (R.zrem k m db) j ≡ (if j == k then drop_point m (R.read db k) else R.read db j)
  -- Time takes away the values whose deadline it reaches, and nothing else.
  pub read-wait :
      (t : ℕ) (j : String) (db : R.Db)
      → R.read (R.wait t db) j
        ≡ (if is_over (R.deadline db j) (R.now db + t) then absent else R.read db j)
  pub deadline-set_ex :
      (k j : String) (v : Datum) (s : ℕ) (db : R.Db)
      → R.deadline (R.set_ex k v (suc s) db) j
        ≡ (if j == k then some (R.now db + suc s * 1000) else R.deadline db j)
  pub deadline-hset :
      (k j f : String) (v : Datum) (db : R.Db) → R.deadline (R.hset k f v db) j ≡ R.deadline db j
  pub deadline-del :
      (k j : String) (db : R.Db)
      → R.deadline (R.del k db) j ≡ (if j == k then none else R.deadline db j)
  pub deadline-wait :
      (t : ℕ) (j : String) (db : R.Db)
      → R.deadline (R.wait t db) j
        ≡ (if is_over (R.deadline db j) (R.now db + t) then none else R.deadline db j)
  -- The other commands set no deadline, but for EXPIRE on its key.
  pub deadline-expire :
      (k j : String) (t : ℕ) (db : R.Db) → j ≢ k → R.deadline (R.expire k t db) j ≡ R.deadline db j
  pub deadline-sadd :
      (k m j : String) (db : R.Db) → R.deadline db j ≡ none → R.deadline (R.sadd k m db) j ≡ none
  pub deadline-srem :
      (k m j : String) (db : R.Db) → R.deadline db j ≡ none → R.deadline (R.srem k m db) j ≡ none
  pub deadline-geo_add :
      (k m j : String) (p : Float × Float) (db : R.Db)
      → R.deadline db j ≡ none
      → R.deadline (R.geo_add k p m db) j ≡ none
  pub deadline-zrem :
      (k m j : String) (db : R.Db) → R.deadline db j ≡ none → R.deadline (R.zrem k m db) j ≡ none
  pub now-set_ex :
      (k : String) (v : Datum) (s : ℕ) (db : R.Db) → R.now (R.set_ex k v (suc s) db) ≡ R.now db
  pub now-hset : (k f : String) (v : Datum) (db : R.Db) → R.now (R.hset k f v db) ≡ R.now db
  pub now-del : (k : String) (db : R.Db) → R.now (R.del k db) ≡ R.now db
  pub now-wait : (t : ℕ) (db : R.Db) → R.now (R.wait t db) ≡ R.now db + t
  -- SMEMBERS lists the members, each of them and nothing else.
  pub listed-smembers :
      (db : R.Db) (k m : String) → listed (R.smembers db k) m ≡ has_member (R.read db k) m
  pub lua_number_mono : (m n : ℕ) → m ≤ n → R.lua_number m ≤ R.lua_number n
  pub lua_number_exact : (n : ℕ) → n ≤ 2 ^ 53 → R.lua_number n ≡ n
