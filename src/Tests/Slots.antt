-- ===== src/Tests/Slots.antt =====
-- Leases on one driver, in the database in memory.
use nexus_dispatch.Prelude.{
  ◌≡◌, ◌≢◌, ◌≤◌, ◌==◌, ==-refl, Bool, refl, none, some, List, [], ◌∷◌, All, String, string_dec,
  arith, true, false,
}
use nexus_dispatch.Redis.{text}
use nexus_dispatch.Redis.Memory.{memory, memory-IsRedis, fresh}
use nexus_dispatch.Outcome.{ok, up, cut}
use nexus_dispatch.Hot.Keys.{driver_key, driver_lease_key, IsPlain, has_colon}
use nexus_dispatch.Hot.LeaseValue.{LeaseValue, lease_string, decimal, parse_lease_value}
use nexus_dispatch.Hot.LeaseValue.RoundTrip.{parse_lease_value-lease_string}
use nexus_dispatch.Hot.Scripts.{reserve_script, release_script}
use nexus_dispatch.Hot.Store
use nexus_dispatch.Hot.Slot.{Represents, reserve, release, is_reservable}
use nexus_dispatch.Hot.Slot.Refines.{reserve_script-Represents, release_script-Represents}
use nexus_dispatch.Hot.Slot.Exclusive.{slot, Attempt, race, wins, race-wins_le_one}
use nexus_dispatch.Hot.Slot.Held.{
  Op, reserves, sets_state, waits, IsForeign, run, Held, run-conflict,
}
use nexus_dispatch.Reservation.{Manager, Reservation, renew_loop}
use nexus_dispatch.Reservation.Renewal.{Fresh, rounds, renew_loop-Held, renew_loop-retakes}
use nexus_dispatch.Driver.Service.{Service}

abbrev pub lease₀ : LeaseValue
lease₀ = record { ride_id = "r0"; token = "t0"; version = 1 }

abbrev pub lease₁ : LeaseValue
lease₁ = record { ride_id = "r1"; token = "t1"; version = 2 }

abbrev pub text₀ : String
text₀ = lease_string lease₀

pub differ : (s t : String) → (s == t) ≡ false → s ≢ t
differ s t h e = clash (==-refl t) (rw e at h)
  where
    clash : {b : Bool} → b ≡ true → b ≡ false → ⊥
    clash p q = cc

pub lease₁-ne-lease₀ : lease_string lease₁ ≢ lease_string lease₀
unfolding lease_string decimal string_dec
lease₁-ne-lease₀ = differ _ _ refl

lease₀-ne-lease₁ : lease_string lease₀ ≢ lease_string lease₁
unfolding lease_string decimal string_dec
lease₀-ne-lease₁ = differ _ _ refl

-- A driver that is free, and one that ride r0 has leased.
abbrev pub free : memory.Db
free = memory.hset (driver_key "a") "state" (text "AVAILABLE") fresh

abbrev pub leased : memory.Db
leased =
    memory.hset (driver_key "a") "state" (text "RESERVED")
      (memory.set_ex (driver_lease_key "a") (text text₀) 15 fresh)

pub free-Represents : Represents memory free "a" (slot none (some "AVAILABLE"))
unfolding string_dec driver_key driver_lease_key
free-Represents = record { lease_key = refl; driver_hash = refl; state_field = refl }

pub leased-Represents : Represents memory leased "a" (slot (some text₀) (some "RESERVED"))
unfolding string_dec driver_key driver_lease_key
leased-Represents = record { lease_key = refl; driver_hash = refl; state_field = refl }

leased-until : memory.deadline leased (driver_lease_key "a") ≡ some 15000
unfolding string_dec driver_key driver_lease_key
leased-until = refl

leased-forever : memory.deadline leased (driver_key "a") ≡ none
unfolding string_dec driver_key driver_lease_key
leased-forever = refl

leased-Held : Held memory "a" text₀ 15000 leased
leased-Held = record {
  state = some "RESERVED";
  here = leased-Represents;
  until = leased-until;
  forever = leased-forever;
}

pub free-forever : memory.deadline free (driver_key "a") ≡ none
unfolding string_dec driver_key
free-forever = refl

pub available : is_reservable (some "AVAILABLE") ≡ true
unfolding string_dec
available = refl

reserved : is_reservable (some "RESERVED") ≡ true
unfolding string_dec
reserved = refl

a-IsPlain : IsPlain "a"
unfolding has_colon
a-IsPlain = refl

r1-IsPlain : IsPlain "r1"
unfolding has_colon
r1-IsPlain = refl

t1-IsPlain : IsPlain "t1"
unfolding has_colon
t1-IsPlain = refl

b-IsPlain : IsPlain "b"
unfolding has_colon
b-IsPlain = refl

reserve_script-Represents_example :
    let r = reserve_script memory (driver_lease_key "a") (driver_key "a") "r0" text₀ 15 free in
    let q = reserve text₀ (slot none (some "AVAILABLE")) in
    Represents memory r.0 "a" q.0 × (r.1 ≡ some q.1)
reserve_script-Represents_example =
    reserve_script-Represents memory memory-IsRedis "a" "r0" text₀ 14 free
      (slot none (some "AVAILABLE")) free-Represents

release_script-Represents_example :
    let r =
      release_script memory (driver_lease_key "a") (driver_key "a") text₀ "AVAILABLE" leased in
    let q = release text₀ "AVAILABLE" (slot (some text₀) (some "RESERVED")) in
    Represents memory r.0 "a" q.0 × (r.1 ≡ some q.1)
release_script-Represents_example =
    release_script-Represents memory memory-IsRedis "a" text₀ "AVAILABLE" leased
      (slot (some text₀) (some "RESERVED")) leased-Represents

b-ne-a : ◌≢◌ {A = String} "b" "a"
unfolding string_dec
b-ne-a = differ _ _ refl

parse_lease_value-lease_string_example : parse_lease_value (lease_string lease₁) ≡ ok lease₁
parse_lease_value-lease_string_example =
    parse_lease_value-lease_string lease₁ r1-IsPlain t1-IsPlain (omega arith)

abbrev attempt₀ : Attempt
attempt₀ = record { link = up; ride = "r0"; lease = lease₀ }

abbrev attempt₁ : Attempt
attempt₁ = record { link = up; ride = "r1"; lease = lease₁ }

race-wins_le_one_example :
    wins (race memory memory-IsRedis "a" 14 (attempt₀ ∷ attempt₁ ∷ []) free) ≤ 1
race-wins_le_one_example =
    race-wins_le_one memory memory-IsRedis "a" 14 (attempt₀ ∷ attempt₁ ∷ []) free
      (slot none (some "AVAILABLE")) free-Represents ((lease₁-ne-lease₀, tt), (tt, tt))
      ((λ e. cc), ((λ e. cc), tt))

-- Another ride tries, the state is overwritten, and ten seconds pass.
abbrev meanwhile : List Op
meanwhile = reserves cut "a" "r1" lease₁ 15 ∷ sets_state up "a" "AVAILABLE" ∷ waits 10000 ∷ []

foreign : All (IsForeign "a" text₀) meanwhile
foreign = ((a-IsPlain, lease₁-ne-lease₀), (a-IsPlain, (tt, tt)))

run-conflict_example :
    Held memory "a" text₀ 15000 (run memory meanwhile leased)
    × (Store.reserve memory up "a" "r1" lease₁ 15 (run memory meanwhile leased)
        ≡ (run memory meanwhile leased, ok Store.conflict))
run-conflict_example =
    run-conflict memory memory-IsRedis "a" text₀ 15000 a-IsPlain meanwhile leased "r1" lease₁ 15
      foreign (omega arith) leased-Held lease₁-ne-lease₀

abbrev manager : Manager
manager = record { ttl = 15; renew = 5; version = 0 }

abbrev held₀ : Reservation
held₀ = record { driver_id = "a"; ride_id = "r0"; lease = lease₀ }

abbrev held₁ : Reservation
held₁ = record { driver_id = "a"; ride_id = "r1"; lease = lease₁ }

renew_loop-Held_example : Fresh memory memory-IsRedis held₀ 15 (
    renew_loop memory
      (rounds memory memory-IsRedis (meanwhile ∷ meanwhile ∷ []))
      held₀
      manager
      leased)
renew_loop-Held_example =
    renew_loop-Held memory memory-IsRedis held₀ manager 14 (meanwhile ∷ meanwhile ∷ []) leased refl
      a-IsPlain ((foreign, omega arith), ((foreign, omega arith), tt)) leased-Held

renew_loop-retakes_example :
    Fresh memory memory-IsRedis held₁ 15
      (renew_loop memory ((up, λ x. x) ∷ (up, memory.wait 15000) ∷ []) held₁ manager leased)
unfolding leased-Held
renew_loop-retakes_example =
    renew_loop-retakes memory memory-IsRedis held₁ manager 14 15000 text₀ 15000 leased refl
      leased-Held reserved lease₀-ne-lease₁ (omega arith)

abbrev service : Service memory
service = record {
  hot = leased;
  drivers = λ _. none;
  has_db = false;
  has_producer = false;
  sent = [];
}
