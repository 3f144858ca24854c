-- ===== src/Reservation/Renewal.antt =====
-- What renewal does to a lease that is still held, and to one that was lost
-- (internal/reservation/manager.go).
use nexus_dispatch.Prelude.{
  ℕ, suc, ◌+◌, ◌*◌, ◌<◌, ◌≤◌, ◌≡◌, ◌≢◌, refl, sym, ap, ◌∙◌, true, false, Option, none, some, List,
  [], ◌∷◌, map, All, String, ==-refl, ==-ne, string_dec, arith,
}
use nexus_dispatch.Prelude.Int.{pos}
use nexus_dispatch.Redis.{Redis, IsRedis, text}
use nexus_dispatch.Outcome.{ok, Link, up, call}
use nexus_dispatch.Hot.Keys.{
  IsPlain, driver_key, driver_lease_key, driver_lease_key-ne-driver_key_self,
}
use nexus_dispatch.Hot.LeaseValue.{LeaseValue, lease_string}
use nexus_dispatch.Hot.Store
use nexus_dispatch.Hot.Scripts.{reserve_script}
use nexus_dispatch.Hot.Slot.{Represents, is_reservable}
use nexus_dispatch.Hot.Slot
use nexus_dispatch.Hot.Slot.Refines.{set_ex-Represents, reserve_script-Represents}
use nexus_dispatch.Hot.Slot.Exclusive.{slot, reserve-leased}
use nexus_dispatch.Hot.Slot.Held.{Op, IsForeign, total_time, run, Held, run-Held}
use nexus_dispatch.Reservation.{
  Manager, Reservation, next_version, reserve, renew_tick, elapse, renew_loop,
}

module _ (R : Redis) (L : IsRedis R) where
  -- The lease of this reservation is held for a whole term from now.
  abbrev pub Fresh : Reservation → ℕ → R.Db → Type 0
  Fresh r t db = Held R r.driver_id (lease_string r.lease) (R.now db + t * 1000) db

  set_ex-Held :
      (id l : String) (t d : ℕ) (db : R.Db)
      → Held R id l d db
      → Held R id l (R.now db + suc t * 1000) (R.set_ex (driver_lease_key id) (text l) (suc t) db)
  set_ex-Held id l t d db h = record {
    state = h.state;
    here = set_ex-Represents R L id l t db (slot (some l) h.state) h.here;
    until =
        ground (arith, L.deadline-set_ex (driver_lease_key id) (driver_lease_key id) (text l) t db);
    forever = ground (
      arith,
      h.forever,
      L.deadline-set_ex (driver_lease_key id) (driver_key id) (text l) t db,
      driver_lease_key-ne-driver_key_self id,
    );
  }

  held_reserve :
      (id ride l : String) (t d : ℕ) (db : R.Db)
      → Held R id l d db
      → reserve_script R (driver_lease_key id) (driver_key id) ride l (suc t) db
        ≡ (R.set_ex (driver_lease_key id) (text l) (suc t) db, some (pos 1))
  unfolding reserve_script
  held_reserve id ride l t d db h = rw (h.here.lease_key, ==-refl l) refl

  renewed : Reservation → ℕ → R.Db → R.Db
  renewed r t db = R.set_ex (driver_lease_key r.driver_id) (text (lease_string r.lease)) (suc t) db

  renew_tick-held :
      (r : Reservation) (m : Manager) (t d : ℕ) (db : R.Db)
      → m.ttl ≡ suc t
      → Held R r.driver_id (lease_string r.lease) d db
      → renew_tick R up r m db ≡ (renewed r t db, true)
  unfolding renew_tick Store.reserve call renewed
  renew_tick-held r m t d db e h =
      rw (e, held_reserve r.driver_id r.ride_id (lease_string r.lease) t d db h) refl

  renewed-Fresh :
      (r : Reservation) (t d : ℕ) (db : R.Db)
      → Held R r.driver_id (lease_string r.lease) d db
      → Fresh r (suc t) (renewed r t db)
  unfolding renewed
  renewed-Fresh r t d db h =
      let l = lease_string r.lease in
      rw (L.now-set_ex (driver_lease_key r.driver_id) (text l) t db)
        (set_ex-Held r.driver_id l t d db h)

  renew_loop_next :
      (l : Link) (f : R.Db → R.Db) (ticks : List (Link × (R.Db → R.Db))) (r : Reservation)
      (m : Manager) (db db' : R.Db)
      → renew_tick R l r m (f db) ≡ (db', true)
      → renew_loop R ((l, f) ∷ ticks) r m db ≡ renew_loop R ticks r m db'
  unfolding renew_loop
  renew_loop_next l f ticks r m db db' e =
      ap
        (λ p. elim p.1 as (λ _. R.Db) [
          | true ↦ renew_loop R ticks r m p.0
          | false ↦ elapse R ticks p.0
        ])
        e

  -- Rounds of the loop: what others do before a tick, and a tick whose command is answered.
  abbrev pub rounds : List (List Op) → List (Link × (R.Db → R.Db))
  rounds = map (λ ops. (up, run R ops))

  -- A reservation that is held stays held by its holder through any number of renewals, each of
  -- which gives it a whole new term, if every renewal is answered and comes before the term is over,
  -- whatever operations under other leases and on other drivers come between.
  pub renew_loop-Held :
      (r : Reservation) (m : Manager) (t : ℕ) (others : List (List Op)) (db : R.Db)
      → m.ttl ≡ suc t
      → IsPlain r.driver_id
      → All
          (λ ops.
            All (IsForeign r.driver_id (lease_string r.lease)) ops
            × (total_time ops < m.ttl * 1000))
          others
      → Fresh r m.ttl db
      → Fresh r m.ttl (renew_loop R (rounds others) r m db)
  unfolding renew_loop
  renew_loop-Held r m t [] db e p f h = h
  renew_loop-Held r m t (ops ∷ others) db e p ((f, lt), fs) h =
      let held =
        run-Held R L r.driver_id (lease_string r.lease) (R.now db + m.ttl * 1000) p ops db f
          (omega arith) h in
      rw
        (renew_loop_next up (run R ops) (rounds others) r m db _
          (renew_tick-held r m t _ (run R ops db) e held))
        (renew_loop-Held r m t others (renewed r t (run R ops db)) e p fs
          (rw e (renewed-Fresh r t _ (run R ops db) held)))

  -- What the script writes for a free driver.
  abbrev booked : String → String → String → ℕ → R.Db → R.Db
  booked id ride l t db = R.hset (driver_key id) "reserved_ride" (text ride) (
      R.hset (driver_key id) "state" (text "RESERVED")
        (R.set_ex (driver_lease_key id) (text l) (suc t) db))

  free_reserve :
      (id ride l : String) (t : ℕ) (st : Option String) (db : R.Db)
      → Represents R db id (slot none st)
      → is_reservable st ≡ true
      → reserve_script R (driver_lease_key id) (driver_key id) ride l (suc t) db
        ≡ (booked id ride l t db, some (pos 1))
  unfolding reserve_script
  free_reserve id ride l t none db h e = cc
  free_reserve id ride l t (some s) db h e =
      rw (h.lease_key, h.state_field)
        (elim (string_dec s "RESERVED") [
          | yes p ↦ rw (p, ==-refl "RESERVED", ==-refl "AVAILABLE") refl
          | no p ↦ rw (==-ne s "RESERVED" p) (elim (string_dec s "AVAILABLE") [
            | yes q ↦ rw (q, ==-refl "AVAILABLE") refl
            | no q ↦ ground (arith, p, q, e)
          ])
        ])

  booked-Held :
      (id ride l : String) (t : ℕ) (st : Option String) (db : R.Db)
      → Represents R db id (slot none st)
      → is_reservable st ≡ true
      → R.deadline db (driver_key id) ≡ none
      → Held R id l (R.now db + suc t * 1000) (booked id ride l t db)
  unfolding Slot.reserve
  booked-Held id ride l t st db h e f = record {
    state = some "RESERVED";
    here =
        rw (free_reserve id ride l t st db h e, e) at
          (reserve_script-Represents R L id ride l t db _ h).0;
    until =
        L.deadline-hset _ _ _ _ _
        ∙ L.deadline-hset _ _ _ _ _
        ∙ ground
            (arith, L.deadline-set_ex (driver_lease_key id) (driver_lease_key id) (text l) t db);
    forever =
        L.deadline-hset _ _ _ _ _
        ∙ L.deadline-hset _ _ _ _ _
        ∙ ground (
          arith,
          L.deadline-set_ex (driver_lease_key id) (driver_key id) (text l) t db,
          f,
          driver_lease_key-ne-driver_key_self id,
        );
  }

  booked_now : (id ride l : String) (t : ℕ) (db : R.Db) → R.now (booked id ride l t db) ≡ R.now db
  booked_now id ride l t db = L.now-hset _ _ _ _ ∙ L.now-hset _ _ _ _ ∙ L.now-set_ex _ _ _ _

  tick_lost :
      (r : Reservation) (m : Manager) (l : String) (d : ℕ) (db : R.Db)
      → Held R r.driver_id l d db
      → l ≢ lease_string r.lease
      → renew_tick R up r m db ≡ (db, true)
  unfolding renew_tick
  tick_lost r m l d db h ne =
      rw
        (reserve-leased R r.driver_id r.ride_id l h.state r.lease m.ttl db h.here (λ e. ne (sym e)))
        refl

  tick_free :
      (r : Reservation) (m : Manager) (t : ℕ) (st : Option String) (db : R.Db)
      → m.ttl ≡ suc t
      → Represents R db r.driver_id (slot none st)
      → is_reservable st ≡ true
      → renew_tick R up r m db ≡ (booked r.driver_id r.ride_id (lease_string r.lease) t db, true)
  unfolding renew_tick Store.reserve call
  tick_free r m t st db e h f =
      rw (e, free_reserve r.driver_id r.ride_id (lease_string r.lease) t st db h f) refl

  -- The time of a lease is over: the key is gone, and the driver's own key is as it was.
  lapsed :
      (id l : String) (d wait : ℕ) (db : R.Db)
      → (h : Held R id l d db) → d ≤ R.now db + wait
      → Represents R (R.wait wait db) id (slot none h.state)
  lapsed id l d wait db h over = record {
    lease_key = ground (arith, h.until, L.read-wait wait (driver_lease_key id) db);
    driver_hash = rw kept h.here.driver_hash;
    state_field = rw kept h.here.state_field;
  }
    where
      kept : R.read (R.wait wait db) (driver_key id) ≡ R.read db (driver_key id)
      kept = ground (arith, h.forever, L.read-wait wait (driver_key id) db)

  lapsed_forever :
      (id l : String) (d wait : ℕ) (db : R.Db)
      → Held R id l d db
      → R.deadline (R.wait wait db) (driver_key id) ≡ none
  lapsed_forever id l d wait db h =
      ground (arith, h.forever, L.deadline-wait wait (driver_key id) db)

  -- What `reserve` hands out.
  abbrev pub reservation : String → String → String → Manager → Reservation
  reservation token driver ride m = record {
    driver_id = driver;
    ride_id = ride;
    lease = record { ride_id = ride; token = token; version = next_version m.version };
  }

  -- Where Redis answers and a token is drawn, a free driver (no lease, and AVAILABLE or RESERVED,
  -- with a key that has no deadline) is reserved: the reservation has the next version, and its
  -- lease is held for a whole term from now.
  pub reserve-Held :
      (token driver ride : String) (m : Manager) (t : ℕ) (st : Option String) (db : R.Db)
      → m.ttl ≡ suc t
      → Represents R db driver (slot none st)
      → is_reservable st ≡ true
      → R.deadline db (driver_key driver) ≡ none
      → let r = reserve R up (some token) driver ride m db in
        (r.1 ≡ ok (reservation token driver ride m))
        × (r.0.0.version ≡ next_version m.version)
        × Fresh (reservation token driver ride m) m.ttl r.0.1
  unfolding reserve Store.reserve call Store.reserve_result
  reserve-Held token driver ride m t st db e h f g =
      let lv : LeaseValue = record {
        ride_id = ride;
        token = token;
        version = next_version m.version;
      } in
      let l = lease_string lv in
      simp (e, free_reserve driver ride l t st db h f)
        (refl, refl, rw (booked_now driver ride l t db) (booked-Held driver ride l t st db h f g))

  -- A loop whose driver is leased to another goes on after the conflict; once that lease is over and
  -- the driver's state is still one that can be reserved, its next tick takes the driver again for
  -- the ride that had lost it. Redis answers both ticks.
  pub renew_loop-retakes :
      (r : Reservation) (m : Manager) (t wait : ℕ) (l : String) (d : ℕ) (db : R.Db)
      → m.ttl ≡ suc t
      → (h : Held R r.driver_id l d db) → is_reservable h.state ≡ true
      → l ≢ lease_string r.lease
      → d ≤ R.now db + wait
      → Fresh r m.ttl (renew_loop R ((up, λ x. x) ∷ (up, R.wait wait) ∷ []) r m db)
  unfolding lease_string renew_loop
  renew_loop-retakes r m t wait l d db e h f ne over =
      rw
        (renew_loop_next up (λ x. x) ((up, R.wait wait) ∷ []) r m db db (tick_lost r m l d db h ne))
        (rw
          (renew_loop_next up (R.wait wait) [] r m db _
            (tick_free r m t h.state (R.wait wait db) e (lapsed r.driver_id l d wait db h over) f))
          ((rw (e, booked_now r.driver_id r.ride_id (lease_string r.lease) t (R.wait wait db))
            (booked-Held r.driver_id r.ride_id (lease_string r.lease) t h.state (R.wait wait db)
              (lapsed r.driver_id l d wait db h over) f
              (lapsed_forever r.driver_id l d wait db h)))))
