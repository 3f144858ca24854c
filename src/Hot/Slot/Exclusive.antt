-- ===== src/Hot/Slot/Exclusive.antt =====
-- Many rides that try to reserve one driver (internal/redis/store.go, `Reserve`), in any order and
-- over any links.
use nexus_dispatch.Prelude.{
  ℕ, suc, ◌+◌, ◌≤◌, ◌≡◌, ◌≢◌, refl, sym, ap, ◌∙◌, true, Option, none, some, List, [], ◌∷◌, map, All,
  String, ◌⊎◌, inl, inr, Bool-cases, ==-ne, arith,
}
use mathlib.Core.Path.{ap₂}
use nexus_dispatch.Prelude.Int.{pos}
use nexus_dispatch.Redis.{Redis, IsRedis}
use nexus_dispatch.Outcome.{Outcome, ok, err, Link, up, down, cut, call, unreachable}
use nexus_dispatch.Hot.LeaseValue.{LeaseValue, lease_string}
use nexus_dispatch.Hot.Store.{ReserveResult, reserved, conflict, not_available, reserve_result}
use nexus_dispatch.Hot.Store
use nexus_dispatch.Hot.Scripts.{reserve_script}
use nexus_dispatch.Hot.Slot.{Slot, Represents, is_reservable}
use nexus_dispatch.Hot.Slot
use nexus_dispatch.Hot.Slot.Refines.{reserve_script-Represents}

pub record Attempt : Type 0 where
  pub link : Link
  pub ride : String
  pub lease : LeaseValue

abbrev pub lease_of : Attempt → String
lease_of a = lease_string a.lease

-- The leases of a list of attempts are pairwise different.
abbrev pub Distinct : List Attempt → Type 0
Distinct [] = Unit
Distinct (a ∷ rest) = All (λ b. lease_of b ≢ lease_of a) rest × Distinct rest

abbrev pub won : Outcome ReserveResult → ℕ
won (ok reserved) = 1
won _ = 0

abbrev pub wins : List (Outcome ReserveResult) → ℕ
wins [] = 0
wins (o ∷ os) = won o + wins os

-- What an attempt leaves in the slot: nothing where the script never ran.
abbrev reached : Link → String → Slot → Slot
reached up l s = (Slot.reserve l s).0
reached down l s = s
reached cut l s = (Slot.reserve l s).0

abbrev answer : Link → String → Slot → Outcome ReserveResult
answer up l s = ok (reserve_result (Slot.reserve l s).1)
answer _ l s = err unreachable

abbrev pub slot : Option String → Option String → Slot
slot l s = record { lease = l; state = s }

module _ (R : Redis) (L : IsRedis R) (driver : String) (t : ℕ) where
  -- The attempts one after the other.
  unfoldable pub race : List Attempt → R.Db → List (Outcome ReserveResult)
  race [] db = []
  race (a ∷ rest) db =
      let (db', res) = Store.reserve R a.link driver a.ride a.lease (suc t) db in
      res ∷ race rest db'

  abbrev step : Attempt → R.Db → R.Db
  step a db = (Store.reserve R a.link driver a.ride a.lease (suc t) db).0

  reserve-Represents :
      (l : Link) (ride : String) (lv : LeaseValue) (db : R.Db) (s : Slot)
      → Represents R db driver s
      → let r = Store.reserve R l driver ride lv (suc t) db in
        Represents R r.0 driver (reached l (lease_string lv) s)
        × (r.1 ≡ answer l (lease_string lv) s)
  unfolding Store.reserve call
  reserve-Represents up ride lv db s h =
      let (after, code) = reserve_script-Represents R L driver ride (lease_string lv) t db s h in
      (after, rw code)
  reserve-Represents down ride lv db s h = (h, refl)
  reserve-Represents cut ride lv db s h =
      ((reserve_script-Represents R L driver ride (lease_string lv) t db s h).0, refl)

  reserve_other :
      (l m : String) (st : Option String)
      → m ≢ l
      → Slot.reserve l (slot (some m) st) ≡ (slot (some m) st, pos 0)
  unfolding Slot.reserve
  reserve_other l m st d = rw (==-ne m l d)

  reached_other :
      (k : Link) (l m : String) (st : Option String)
      → m ≢ l
      → reached k l (slot (some m) st) ≡ slot (some m) st
  reached_other up l m st d = ap (λ r. r.0) (reserve_other l m st d)
  reached_other down l m st d = refl
  reached_other cut l m st d = ap (λ r. r.0) (reserve_other l m st d)

  answer_other :
      (k : Link) (l m : String) (st : Option String)
      → m ≢ l
      → won (answer k l (slot (some m) st)) ≡ 0
  unfolding reserve_result
  answer_other up l m st d = rw (reserve_other l m st d)
  answer_other down l m st d = refl
  answer_other cut l m st d = refl

  -- Behind a lease that none of them carries, no attempt wins.
  race-held :
      (rest : List Attempt) (m : String) (st : Option String) (db : R.Db)
      → Represents R db driver (slot (some m) st)
      → All (λ b. lease_of b ≢ m) rest
      → wins (race rest db) ≡ 0
  unfolding race
  race-held [] m st db h d = refl
  race-held (a ∷ rest) m st db h (d, ds) =
      let (after, res) = reserve-Represents a.link a.ride a.lease db _ h in
      omega (
        arith,
        ap won res,
        answer_other a.link (lease_of a) m st (λ e. d (sym e)),
        race-held rest m st (step a db)
            (rw (← reached_other a.link (lease_of a) m st (λ e. d (sym e))) after) ds,
      )

  -- The free slot: an attempt takes it, or leaves it as it is.
  answer_free :
      (k : Link) (l : String) (st : Option String)
      → ((reached k l (slot none st) ≡ slot (some l) (some "RESERVED"))
          × (won (answer k l (slot none st)) ≤ 1))
        ⊎ ((reached k l (slot none st) ≡ slot none st) × (won (answer k l (slot none st)) ≡ 0))
  unfolding Slot.reserve reserve_result
  answer_free up l st = elim (Bool-cases (is_reservable st)) [
    | inl e ↦ inl (rw e, rw e (omega arith))
    | inr e ↦ inr (rw e, rw e refl)
  ]
  answer_free down l st = inr (refl, refl)
  answer_free cut l st = elim (Bool-cases (is_reservable st)) [
    | inl e ↦ inl (rw e, omega arith)
    | inr e ↦ inr (rw e, refl)
  ]

  others :
      (rest : List Attempt) (m : String)
      → All (λ a. some m ≢ some (lease_of a)) rest
      → All (λ a. lease_of a ≢ m) rest
  others [] m n = tt
  others (a ∷ rest) m (n, ns) = (λ e. n (ap some (sym e)), others rest m ns)

  race-free :
      (rest : List Attempt) (st : Option String) (db : R.Db)
      → Represents R db driver (slot none st)
      → Distinct rest
      → wins (race rest db) ≤ 1
  unfolding race
  race-free [] st db h d = omega arith
  race-free (a ∷ rest) st db h (d, ds) =
      let (after, res) = reserve-Represents a.link a.ride a.lease db _ h in
      elim (answer_free a.link (lease_of a) st) [
        | inl (e, w) ↦ omega (
          arith,
          ap won res,
          race-held rest (lease_of a) (some "RESERVED") (step a db) (rw e at after) d,
        )
        | inr (e, w) ↦ omega (arith, ap won res, race-free rest st (step a db) (rw e at after) ds)
      ]

  -- Of any attempts on one driver, whose leases are pairwise different and none of which holds the
  -- driver already, in any order and over any links, at most one is told that it has reserved the
  -- driver.
  pub race-wins_le_one :
      (attempts : List Attempt) (db : R.Db) (s : Slot)
      → Represents R db driver s
      → Distinct attempts
      → All (λ a. s.lease ≢ some (lease_of a)) attempts
      → wins (race attempts db) ≤ 1
  race-wins_le_one attempts db s h d new = by_lease s.lease h new
    where
      by_lease :
          (l : Option String)
          → Represents R db driver (slot l s.state)
          → All (λ a. l ≢ some (lease_of a)) attempts
          → wins (race attempts db) ≤ 1
      by_lease none k n = race-free attempts s.state db k d
      by_lease (some m) k n = omega (arith, race-held attempts m s.state db k (others attempts m n))

  answer_conflict :
      (k : Link) (l m : String) (st : Option String)
      → k ≡ up
      → m ≢ l
      → answer k l (slot (some m) st) ≡ ok conflict
  unfolding reserve_result
  answer_conflict up l m st e d = rw (reserve_other l m st d)
  answer_conflict down l m st e d = cc
  answer_conflict cut l m st e d = cc

  abbrev pub conflicts : List Attempt → List (Outcome ReserveResult)
  conflicts = map (λ _. ok conflict)

  race-conflicts :
      (rest : List Attempt) (m : String) (st : Option String) (db : R.Db)
      → Represents R db driver (slot (some m) st)
      → All (λ b. (b.link ≡ up) × (lease_of b ≢ m)) rest
      → race rest db ≡ conflicts rest
  unfolding race
  race-conflicts [] m st db h d = refl
  race-conflicts (a ∷ rest) m st db h ((u, d), ds) =
      let (after, res) = reserve-Represents a.link a.ride a.lease db _ h in
      ap₂ ◌∷◌ (res ∙ answer_conflict a.link (lease_of a) m st u (λ e. d (sym e))) (
        race-conflicts rest m st (step a db)
          (rw (← reached_other a.link (lease_of a) m st (λ e. d (sym e))) after) ds)

  answer_taken :
      (k : Link) (l : String) (st : Option String)
      → k ≡ up
      → is_reservable st ≡ true
      → (reached k l (slot none st) ≡ slot (some l) (some "RESERVED"))
        × (answer k l (slot none st) ≡ ok reserved)
  unfolding Slot.reserve reserve_result
  answer_taken up l st e f = (rw f, rw f)
  answer_taken down l st e f = cc
  answer_taken cut l st e f = cc

  -- Where every command is answered and the driver is free (no lease, and AVAILABLE or RESERVED),
  -- the first attempt reserves the driver and each of the others, which carry other leases, is told
  -- of a conflict.
  pub race-first :
      (a : Attempt) (rest : List Attempt) (db : R.Db) (st : Option String)
      → Represents R db driver (slot none st)
      → is_reservable st ≡ true
      → a.link ≡ up
      → All (λ b. (b.link ≡ up) × (lease_of b ≢ lease_of a)) rest
      → race (a ∷ rest) db ≡ ok reserved ∷ conflicts rest
  unfolding race
  race-first a rest db st h f u d =
      let (after, res) = reserve-Represents a.link a.ride a.lease db _ h in
      let (taken, mine) = answer_taken a.link (lease_of a) st u f in
      ap₂ ◌∷◌ (res ∙ mine)
        (race-conflicts rest (lease_of a) (some "RESERVED") (step a db) (rw taken at after) d)

module _ (R : Redis) (driver : String) where
  -- A driver that is leased under another text cannot be reserved, whatever its state.
  pub reserve-leased :
      (ride l : String) (st : Option String) (lv : LeaseValue) (t : ℕ) (db : R.Db)
      → Represents R db driver (slot (some l) st)
      → lease_string lv ≢ l
      → Store.reserve R up driver ride lv t db ≡ (db, ok conflict)
  unfolding Store.reserve call reserve_result reserve_script
  reserve-leased ride l st lv t db h ne =
      rw (h.lease_key, ==-ne l (lease_string lv) (λ e. ne (sym e)))
