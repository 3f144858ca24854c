-- ===== src/Hot/Store/Search/Nearby.antt =====
-- Which drivers SearchNearby finds (internal/redis/store.go).
use mathlib.Core.List.{reverse, reverse_aux}
use nexus_dispatch.Prelude.{
  ℕ, ◌≡◌, refl, true, false, Option, none, some, List, [], ◌∷◌, All, All-append, String, ◌==◌,
  ==-refl, inl, inr, Bool-cases, arith, if◌then◌else◌, length,
}
use nexus_dispatch.Prelude.Int.{ℤ, ltb_ℤ}
use nexus_dispatch.Redis.{Float, Datum, text, absent, field, listed, Redis}
use nexus_dispatch.Outcome.{Outcome, ok, err, panic, ◌>>=◌, Link, up, down, cut, ask}
use nexus_dispatch.Geospatial.{Geodesy, plan_search, default_resolution, SearchPlan}
use nexus_dispatch.Hot.Keys.{driver_key, driver_loc_key, cell_key}
use nexus_dispatch.Hot.Store.{as_text, or_zero}
use nexus_dispatch.Hot.Store.Search.{
  DriverPos, SearchLinks, kept, located, visit, visit_all, scan_cells, sink, sort_from,
  sort_by_distance, search_nearby, assert_string, as_float,
}

-- In the database the driver is AVAILABLE, and its position is not farther than the radius.
abbrev pub InReach : (R : Redis) → Geodesy → Float → Float → ℤ → R.Db → String → Type 0
InReach R G lat lng radius db id =
    (as_text (field (R.read db (driver_key id)) "state") ≡ "AVAILABLE")
    × ((x : Datum) × (y : Datum) × (field (R.read db (driver_loc_key id)) "lat" ≡ some x)
        × (field (R.read db (driver_loc_key id)) "lng" ≡ some y)
        × (ltb_ℤ radius (G.haversine_meters lat lng (as_float (some x)) (as_float (some y)))
            ≡ false))

-- If there is a list of drivers, all of them have the property.
abbrev Good : (DriverPos → Type 0) → Outcome (List DriverPos) → Type 0
Good P (ok ds) = All P ds
Good P _ = Unit

abbrev GoodState : (DriverPos → Type 0) → Outcome (List String × List DriverPos) → Type 0
GoodState P (ok s) = All P s.1
GoodState P _ = Unit

-- The same of what a search answers.
abbrev pub GoodFind : (DriverPos → Type 0) → Outcome (List DriverPos × ℕ) → Type 0
GoodFind P (ok found) = All P found.0
GoodFind P _ = Unit

-- Only an answer of Redis says that a driver is AVAILABLE.
answered_state : (l : Link) (s : String) → or_zero "" (ask l s) ≡ "AVAILABLE" → s ≡ "AVAILABLE"
unfolding ask
answered_state up s e = e
answered_state down s e = absurd (cc e)
answered_state cut s e = absurd (cc e)

==-true : (s t : String) → (s == t) ≡ true → s ≡ t
==-true s t e = ground arith

sink-All :
    (P : DriverPos → Type 0) (x : DriverPos) (ys : List DriverPos)
    → P x
    → All P ys
    → All P (sink x ys)
unfolding sink
sink-All P x [] p h = (p, tt)
sink-All P x (y ∷ ys) p (q, h) = elim (Bool-cases (ltb_ℤ x.dist_m y.dist_m)) [
  | inl e ↦ rw e (q, sink-All P x ys p h)
  | inr e ↦ rw e (p, (q, h))
]

reverse_aux-All :
    (P : DriverPos → Type 0) (xs ys : List DriverPos)
    → All P xs
    → All P ys
    → All P (reverse_aux xs ys)
reverse_aux-All P [] ys h k = k
reverse_aux-All P (x ∷ xs) ys (p, h) k = reverse_aux-All P xs (x ∷ ys) h (p, k)

reverse-All : (P : DriverPos → Type 0) (xs : List DriverPos) → All P xs → All P (reverse xs)
reverse-All P xs h = reverse_aux-All P xs [] h tt

sort_from-All :
    (P : DriverPos → Type 0) (sorted xs : List DriverPos)
    → All P sorted
    → All P xs
    → All P (sort_from sorted xs)
unfolding sort_from
sort_from-All P sorted [] hs h = reverse-All P sorted hs
sort_from-All P sorted (x ∷ xs) hs (p, h) =
    sort_from-All P (sink x sorted) xs (sink-All P x sorted p hs) h

chain :
    (P : DriverPos → Type 0) (o : Outcome (List String × List DriverPos))
    (f : List String × List DriverPos → Outcome (List String × List DriverPos))
    → GoodState P o
    → ((s : List String × List DriverPos) → All P s.1 → GoodState P (f s))
    → GoodState P (o >>= f)
chain P (ok s) f g k = k s g
chain P (err x) f g k = tt
chain P panic f g k = tt

module _ (R : Redis) (G : Geodesy) (net : SearchLinks) (lat lng : Float) (radius : ℤ)
    (db : R.Db) where
  abbrev pub Within : DriverPos → Type 0
  Within d = InReach R G lat lng radius db d.id

  kept-Good :
      (id state : String) (x y : Float) (d : ℤ) (m₂ : Option Datum) (out : List DriverPos)
      → InReach R G lat lng radius db id
      → All Within out
      → Good Within (kept R G net lat lng radius db id state x y d m₂ out)
  unfolding kept
  kept-Good id state x y d none out e h = tt
  kept-Good id state x y d (some z) out e h = All-append Within out _ h (e, tt)

  located-Good :
      (id state : String) (m₂ : Option Datum) (out : List DriverPos)
      → (state ≡ "AVAILABLE" → as_text (field (R.read db (driver_key id)) "state") ≡ "AVAILABLE")
      → All Within out
      → Good Within (
          located R G net lat lng radius db id state
            (field (R.read db (driver_loc_key id)) "lat")
            (field (R.read db (driver_loc_key id)) "lng")
            m₂
            out)
  unfolding located
  located-Good id state m₂ out k h = elim (Bool-cases (state == "AVAILABLE")) [
    | inr e ↦ rw e h
    | inl e ↦ rw e (by_fields _ _ refl refl (k (==-true state "AVAILABLE" e)))
  ]
    where
      by_fields :
          (m₀ m₁ : Option Datum)
          → field (R.read db (driver_loc_key id)) "lat" ≡ m₀
          → field (R.read db (driver_loc_key id)) "lng" ≡ m₁
          → as_text (field (R.read db (driver_key id)) "state") ≡ "AVAILABLE"
          → Good Within (
              assert_string m₀ >>= λ d₀. assert_string m₁ >>= λ d₁.
              let x = as_float (some d₀) in
              let y = as_float (some d₁) in
              let d = G.haversine_meters lat lng x y in
              if ltb_ℤ radius d
              then ok out
              else kept R G net lat lng radius db id state x y d m₂ out)
      by_fields none m₁ p q e = tt
      by_fields (some x) none p q e = tt
      by_fields (some x) (some y) p q e =
          let d = G.haversine_meters lat lng (as_float (some x)) (as_float (some y)) in
          elim (Bool-cases (ltb_ℤ radius d)) [
            | inl f ↦ rw f h
            | inr f ↦ rw f (kept-Good id state _ _ d m₂ out (e, (x, y, p, q, f)) h)
          ]

  visit-Good :
      (id : String) (s : List String × List DriverPos)
      → All Within s.1
      → GoodState Within (visit R G net lat lng radius db id s)
  unfolding visit ask
  visit-Good id (seen, out) h = elim (Bool-cases (listed seen id)) [
    | inl e ↦ rw e h
    | inr e ↦ rw e (by_link (net.positions id))
  ]
    where
      state : String
      state = or_zero "" (ask (net.states id) (as_text (field (R.read db (driver_key id)) "state")))

      by_located :
          (o : Outcome (List DriverPos))
          → Good Within o
          → GoodState Within (o >>= λ out'. ok (id ∷ seen, out'))
      by_located (ok ds) g = g
      by_located (err x) g = tt
      by_located panic g = tt

      by_link :
          (l : Link)
          → GoodState Within (
              ask l (R.read db (driver_loc_key id)) >>= λ m.
              let st =
                or_zero ""
                  (ask (net.states id) (as_text (field (R.read db (driver_key id)) "state"))) in
              located R G net lat lng radius db id st
                (field m "lat")
                (field m "lng")
                (field m "cell")
                out
              >>= λ out'. ok (id ∷ seen, out'))
      by_link up = by_located _ (located-Good id _ _ out (answered_state (net.states id) _) h)
      by_link down = tt
      by_link cut = tt

  visit_all-Good :
      (ids : List String) (s : List String × List DriverPos)
      → All Within s.1
      → GoodState Within (visit_all R G net lat lng radius db ids s)
  unfolding visit_all
  visit_all-Good [] s h = h
  visit_all-Good (id ∷ ids) s h =
      chain Within (visit R G net lat lng radius db id s) _ (visit-Good id s h)
        (λ s' h'. visit_all-Good ids s' h')

  scan_cells-Good :
      (cs : List String) (s : List String × List DriverPos)
      → All Within s.1
      → GoodState Within (scan_cells R G net lat lng radius db cs s)
  unfolding scan_cells ask
  scan_cells-Good [] s h = h
  scan_cells-Good (c ∷ cs) s h =
      elim (net.cells c)
        as (λ l. GoodState Within (
          ask l (R.smembers db (cell_key c)) >>= λ ids.
          visit_all R G net lat lng radius db ids s >>= λ s'.
          scan_cells R G net lat lng radius db cs s')) [
            | up ↦
                chain Within (visit_all R G net lat lng radius db (R.smembers db (cell_key c)) s) _
                  (visit_all-Good _ s h) (λ s' h'. scan_cells-Good cs s' h')
            | down ↦ tt
            | cut ↦ tt
          ]

  find : SearchPlan → Outcome (List DriverPos × ℕ)
  find plan = scan_cells R G net lat lng radius db plan.cells ([], []) >>= λ found.
      ok (sort_by_distance found.1, length plan.cells)

  find-Good : (plan : SearchPlan) → GoodFind Within (find plan)
  unfolding find sort_by_distance
  find-Good plan =
      sorted (scan_cells R G net lat lng radius db plan.cells ([], []))
        (scan_cells-Good plan.cells ([], []) tt)
    where
      sorted :
          (o : Outcome (List String × List DriverPos))
          → GoodState Within o
          → GoodFind Within (o >>= λ found. ok (sort_from [] found.1, length plan.cells))
      sorted (ok s) g = sort_from-All Within [] s.1 tt g
      sorted (err x) g = tt
      sorted panic g = tt

  -- Every driver that a search finds is AVAILABLE in the database and not farther than the radius.
  pub search_nearby-GoodFind : GoodFind Within (search_nearby R G net lat lng radius db)
  unfolding search_nearby find
  search_nearby-GoodFind = planned (plan_search G lat lng radius default_resolution)
    where
      planned : (o : Outcome SearchPlan) → GoodFind Within (o >>= find)
      planned (ok plan) = find-Good plan
      planned (err x) = tt
      planned panic = tt

  -- A search whose first driver is AVAILABLE and has no position any more (its hash has expired)
  -- panics, if Redis answers.
  pub search_nearby-panic :
      (plan : SearchPlan) (c : String) (cs : List String) (id : String) (ids : List String)
      → plan_search G lat lng radius default_resolution ≡ ok plan
      → plan.cells ≡ c ∷ cs
      → R.smembers db (cell_key c) ≡ id ∷ ids
      → R.read db (driver_loc_key id) ≡ absent
      → field (R.read db (driver_key id)) "state" ≡ some (text "AVAILABLE")
      → (net.cells c ≡ up) × (net.positions id ≡ up) × (net.states id ≡ up)
      → search_nearby R G net lat lng radius db ≡ panic
  unfolding search_nearby scan_cells visit_all visit located ask listed
  search_nearby-panic plan c cs id ids p q m gone here (u, v, w) =
      rw (p, q, u, m, v, gone, w, here, ==-refl "AVAILABLE") refl
