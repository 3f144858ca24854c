-- ===== src/Reservation.antt =====
-- internal/reservation/manager.go: leases with versions, and the loop that renews them. The eight
-- random bytes of a token, in hex, are an argument; none where reading them fails. Durations are
-- whole seconds.
pub mod Renewal
use nexus_dispatch.Prelude.{
  ℕ, zero, suc, ◌+◌, ◌%◌, ◌^◌, Bool, true, false, Option, none, some, List, [], ◌∷◌, String,
}
use nexus_dispatch.Redis.{Redis}
use nexus_dispatch.Outcome.{
  Error, Outcome, ok, err, panic, Link, conflict, not_available, no_random,
}
use nexus_dispatch.Hot.LeaseValue.{LeaseValue}
use nexus_dispatch.Hot.Store

-- `Manager`: the version counter, and how long a lease holds.
pub record Manager : Type 0 where
  pub ttl : ℕ
  pub renew : ℕ
  pub version : ℕ  -- uint64

-- `Reservation`
pub record Reservation : Type 0 where
  pub driver_id : String
  pub ride_id : String
  pub lease : LeaseValue

-- `version.Add(1)`
abbrev pub next_version : ℕ → ℕ
next_version v = (v + 1) % 2 ^ 64

module _ (R : Redis) where
  taken : String → String → LeaseValue → Outcome Store.ReserveResult → Outcome Reservation
  taken driver ride lv (ok Store.reserved) =
      ok (record { driver_id = driver; ride_id = ride; lease = lv })
  taken driver ride lv (ok Store.conflict) = err conflict
  taken driver ride lv (ok Store.not_available) = err not_available
  taken driver ride lv (err e) = err e
  taken driver ride lv panic = panic

  -- `Manager.Reserve`
  unfoldable pub reserve :
      Link
      → Option String
      → String
      → String
      → Manager
      → R.Db
      → (Manager × R.Db) × Outcome Reservation
  unfolding taken
  reserve l none driver ride m db = ((m, db), err no_random)
  reserve l (some token) driver ride m db =
      let m' = record m { version = next_version m.version } in
      let lv : LeaseValue = record { ride_id = ride; token = token; version = m'.version } in
      let (db', res) = Store.reserve R l driver ride lv m.ttl db in
      ((m', db'), taken driver ride lv res)

  -- `Reservation.Release`: a lease that is gone is no error.
  unfoldable pub release : Link → Reservation → R.Db → R.Db × Outcome (Unit {0})
  release l r db =
      let (db', res) = Store.release R l r.driver_id r.lease "AVAILABLE" db in
      (db', elim res [ ok _ ↦ ok tt | err e ↦ err e | panic ↦ panic ])

  -- One tick of `renewLoop`: true where the loop goes on. Only an error ends it.
  unfoldable pub renew_tick : Link → Reservation → Manager → R.Db → R.Db × Bool
  renew_tick l r m db =
      let (db', res) = Store.reserve R l r.driver_id r.ride_id r.lease m.ttl db in
      (db', elim res [ ok _ ↦ true | err _ ↦ false | panic ↦ false ])

  -- What happens to the database once the loop has ended.
  unfoldable pub elapse : List (Link × (R.Db → R.Db)) → R.Db → R.Db
  elapse [] db = db
  elapse ((l, meanwhile) ∷ ticks) db = elapse ticks (meanwhile db)

  -- `renewLoop`: the ticks before the context ends, each with what befalls the database while the
  -- loop waits for it. Time goes on behind a loop that has ended.
  unfoldable pub renew_loop : List (Link × (R.Db → R.Db)) → Reservation → Manager → R.Db → R.Db
  unfolding elapse
  renew_loop [] r m db = db
  renew_loop ((l, meanwhile) ∷ ticks) r m db =
      let (db', more) = renew_tick l r m (meanwhile db) in
      let rest = renew_loop ticks r m db' in elim more [ true ↦ rest | false ↦ elapse ticks db' ]
