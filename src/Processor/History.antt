-- ===== src/Processor/History.antt =====
-- The positions that the event processor keeps (`handleDriverLocation` of cmd/event-processor/main.go).
use nexus_dispatch.Prelude.{
  ℕ, ◌+◌, ◌≤◌, ◌<◌, ◌≡◌, ◌≢◌, ◌⊎◌, refl, sym, Bool, true, false, Option, none, some, List, [], ◌∷◌,
  String, string_dec, ◌==◌, ==-refl, ==-ne, inl, inr, Bool-cases, ltb, arith, if◌then◌else◌,
}
use nexus_dispatch.Redis.{update}
use nexus_dispatch.Outcome.{Error, Link, down, call-cases, call, unreachable}
use nexus_dispatch.Postgres.{PointRow, Tables}
use nexus_dispatch.Postgres.Statements.{insert_point}
use nexus_dispatch.Postgres.Repo.{insert_driver_history}
use nexus_dispatch.Processor.{
  LocationUpdate, Decoder, Processor, too_early, persist_location, handle_driver_location,
}

ltb-lt : {a b : ℕ} → a < b → ltb a b ≡ true
ltb-lt lt = ground arith

-- The times of one driver's points, the newest first.
abbrev pub times : String → List PointRow → List ℕ
times driver [] = []
times driver (x ∷ xs) = if x.driver_id == driver then x.ts ∷ times driver xs else times driver xs

-- Each point is five seconds or more behind the one before it.
abbrev pub Spaced : List ℕ → Type 0
Spaced [] = Unit
Spaced (t ∷ []) = Unit
Spaced (t ∷ u ∷ ts) = (u + 5000 ≤ t) × Spaced (u ∷ ts)

-- The processor remembers a time that is not before a driver's newest point.
abbrev Knows : Option ℕ → List ℕ → Type 0
Knows o [] = Unit
Knows none (t ∷ ts) = ⊥
Knows (some last) (t ∷ ts) = t ≤ last

abbrev pub IsThinned : String → Processor → Type 0
IsThinned driver p =
    Spaced (times driver p.db.driver_history)
    × Knows (p.last_history_ts driver) (times driver p.db.driver_history)

Spaced-add :
    (o : Option ℕ) (now : ℕ) (ts : List ℕ)
    → Spaced ts
    → Knows o ts
    → too_early o now ≡ false
    → Spaced (now ∷ ts)
Spaced-add o now [] s k e = tt
Spaced-add none now (t ∷ ts) s k e = elim k [ ]
Spaced-add (some last) now (t ∷ ts) s k e = (ground arith, s)

Knows-add :
    (o : Option ℕ) (now : ℕ) (ts : List ℕ)
    → Knows o ts
    → too_early o now ≡ false
    → Knows (some now) ts
Knows-add o now [] k e = tt
Knows-add none now (t ∷ ts) k e = elim k [ ]
Knows-add (some last) now (t ∷ ts) k e = ground arith

module _ (is_uuid : String → Bool) (D : Decoder) where
  insert_point-cases :
      (x : PointRow) (db : Tables)
      → ((insert_point is_uuid x db).0.driver_history ≡ db.driver_history)
        ⊎ ((insert_point is_uuid x db).0.driver_history ≡ x ∷ db.driver_history)
  unfolding insert_point
  insert_point-cases x db = ground arith

  -- The history behind the call: as it was, or with the point.
  insert_driver_history-cases :
      (l : Link) (x : PointRow) (db : Tables)
      → ((insert_driver_history is_uuid l x db).0.driver_history ≡ db.driver_history)
        ⊎ ((insert_driver_history is_uuid l x db).0.driver_history ≡ x ∷ db.driver_history)
  unfolding insert_driver_history
  insert_driver_history-cases l x db =
      call-cases
        (λ (t : Tables).
          (t.driver_history ≡ db.driver_history) ⊎ (t.driver_history ≡ x ∷ db.driver_history))
        l (insert_point is_uuid x) db (inl refl) (insert_point-cases x db)

  times-own :
      (d : String) (x : PointRow) (xs : List PointRow)
      → x.driver_id ≡ d
      → times d (x ∷ xs) ≡ x.ts ∷ times d xs
  times-own d x xs e = rw (e, ==-refl d) refl

  times-other :
      (d : String) (x : PointRow) (xs : List PointRow)
      → x.driver_id ≢ d
      → times d (x ∷ xs) ≡ times d xs
  times-other d x xs n = rw (==-ne x.driver_id d n) refl

  -- The points of the driver that a point is of.
  own_points :
      (now : ℕ) (d : String) (o : Option ℕ) (x : PointRow) (old rows : List PointRow)
      → Spaced (times d old)
      → Knows o (times d old)
      → x.driver_id ≡ d
      → x.ts ≡ now
      → too_early o now ≡ false
      → (rows ≡ old) ⊎ (rows ≡ x ∷ old)
      → Spaced (times d rows) × Knows (some now) (times d rows)
  own_points now d o x old rows s k e f early (inl r) = rw r (s, Knows-add o now _ k early)
  own_points now d o x old rows s k e f early (inr r) =
      rw (r, times-own d x old e, f) (Spaced-add o now _ s k early, omega arith)

  -- The points of another driver.
  other_points :
      (d : String) (o : Option ℕ) (x : PointRow) (old rows : List PointRow)
      → Spaced (times d old) × Knows o (times d old)
      → x.driver_id ≢ d
      → (rows ≡ old) ⊎ (rows ≡ x ∷ old)
      → Spaced (times d rows) × Knows o (times d rows)
  other_points d o x old rows h n (inl r) = rw r h
  other_points d o x old rows h n (inr r) = rw (r, times-other d x old n) h

  persist_location-IsThinned :
      (l : Link) (now : ℕ) (ev : LocationUpdate) (p : Processor) (d : String)
      → IsThinned d p
      → IsThinned d (persist_location is_uuid D l now ev p).0
  unfolding persist_location
  persist_location-IsThinned l now ev p d h =
      elim (Bool-cases (too_early (p.last_history_ts ev.driver_id) now)) [
        | inl e ↦ rw e h
        | inr e ↦ rw e (elim (string_dec d ev.driver_id) [
          | yes q ↦
              rw (q, ==-refl ev.driver_id)
                (own_points now ev.driver_id _ _ _ _ (rw q at h).0 (rw q at h).1 refl refl e
                  (insert_driver_history-cases l _ p.db))
          | no n ↦ rw (==-ne d ev.driver_id n) (
              other_points d (p.last_history_ts d) _ _ _ h (λ q. n (sym q))
                (insert_driver_history-cases l _ p.db))
        ])
      ]

  -- Messages, each with its time and with what becomes of its statement.
  unfoldable pub persist_locations : List (Link × ℕ × String) → Processor → Processor
  persist_locations [] p = p
  persist_locations ((l, now, msg) ∷ ms) p =
      persist_locations ms (handle_driver_location is_uuid D l now msg p).0

  handle_driver_location-IsThinned :
      (l : Link) (now : ℕ) (msg : String) (p : Processor) (d : String)
      → IsThinned d p
      → IsThinned d (handle_driver_location is_uuid D l now msg p).0
  unfolding handle_driver_location
  handle_driver_location-IsThinned l now msg p d h = decoded (D.location_update msg)
    where
      decoded :
          (o : Option LocationUpdate)
          → IsThinned d
              (elim o as (λ _. Processor × Option Error) [
                | none ↦ (p, none)
                | some ev ↦ persist_location is_uuid D l now ev p
              ]).0
      decoded none = h
      decoded (some ev) = persist_location-IsThinned l now ev p d h

  persist_locations-IsThinned :
      (ms : List (Link × ℕ × String)) (p : Processor) (d : String)
      → IsThinned d p
      → IsThinned d (persist_locations ms p)
  unfolding persist_locations
  persist_locations-IsThinned [] p d h = h
  persist_locations-IsThinned ((l, now, msg) ∷ ms) p d h =
      persist_locations-IsThinned ms _ d (handle_driver_location-IsThinned l now msg p d h)

  -- Of any location messages, at any times and whatever becomes of the statements, the points that
  -- are kept of one driver are five seconds or more apart, if its history was empty when the
  -- processor started.
  pub persist_locations-Spaced :
      (ms : List (Link × ℕ × String)) (p : Processor) (driver : String)
      → times driver p.db.driver_history ≡ []
      → Spaced (times driver (persist_locations ms p).db.driver_history)
  persist_locations-Spaced ms p driver e =
      (persist_locations-IsThinned ms p driver (rw e (tt, tt))).0

  -- The processor that has taken a point for stored.
  marked : ℕ → LocationUpdate → Processor → Processor
  marked now ev p = record p { last_history_ts = update ev.driver_id (some now) p.last_history_ts }

  first_fails :
      (now : ℕ) (msg : String) (ev : LocationUpdate) (p : Processor)
      → D.location_update msg ≡ some ev
      → too_early (p.last_history_ts ev.driver_id) now ≡ false
      → handle_driver_location is_uuid D down now msg p ≡ (marked now ev p, some unreachable)
  unfolding handle_driver_location persist_location insert_driver_history call marked
  first_fails now msg ev p d e = rw (handle_driver_location, d, e) refl

  then_skipped :
      (now later : ℕ) (l : Link) (msg : String) (ev : LocationUpdate) (p : Processor)
      → D.location_update msg ≡ some ev
      → later < now + 5000
      → handle_driver_location is_uuid D l later msg (marked now ev p) ≡ (marked now ev p, none)
  unfolding handle_driver_location persist_location marked
  then_skipped now later l msg ev p d lt =
      rw (handle_driver_location, d, ==-refl ev.driver_id, ltb-lt lt) refl

  -- A point whose insert fails is taken for stored: tried again within five seconds it is skipped, and
  -- the answer is success.
  pub handle_driver_location-loses :
      (now later : ℕ) (l : Link) (msg : String) (ev : LocationUpdate) (p : Processor)
      → D.location_update msg ≡ some ev
      → too_early (p.last_history_ts ev.driver_id) now ≡ false
      → later < now + 5000
      → let (p', res) = handle_driver_location is_uuid D down now msg p in
        (res ≡ some unreachable)
        × (p'.db ≡ p.db)
        × (handle_driver_location is_uuid D l later msg p' ≡ (p', none))
  unfolding marked
  handle_driver_location-loses now later l msg ev p d e lt =
      rw (first_fails now msg ev p d e) (refl, refl, then_skipped now later l msg ev p d lt)
