-- ===== src/Hot/Store/Search/Complete.antt =====
-- That SearchNearby misses no driver (internal/redis/store.go).
use mathlib.Core.List.{reverse_aux}
use mathlib.Core.Option.{some-injective}
use nexus_dispatch.Prelude.{
  ◌≡◌, ◌≢◌, refl, sym, ap, subst, ◌∙◌, inl, inr, Bool, true, false, ◌||◌, Option, some, List, [],
  ◌∷◌, ◌++◌, String, ◌==◌, ==-refl, string_dec, Bool-cases, arith, length,
}
use nexus_dispatch.Prelude.Int.{ℤ, pos, ltb_ℤ}
use nexus_dispatch.Redis.{Float, Datum, Value, text, field, listed, Redis, IsRedis}
use nexus_dispatch.Outcome.{Outcome, ok, ◌>>=◌, up, ask}
use nexus_dispatch.Geospatial.{Geodesy, plan_search, default_resolution, SearchPlan}
use nexus_dispatch.Hot.Keys.{driver_key, driver_loc_key, cell_key}
use nexus_dispatch.Hot.Store.{as_text, or_zero}
use nexus_dispatch.Hot.Index.{is_in, Indexed}
use nexus_dispatch.Hot.Store.Search.{
  DriverPos, SearchLinks, visit, visit_all, scan_cells, sink, sort_from, sort_by_distance,
  search_nearby, as_float, as_number,
}

-- Whether a driver is among those found.
abbrev pub has : List DriverPos → String → Bool
has [] id = false
has (d ∷ ds) id = id == d.id || has ds id

has-append : (xs ys : List DriverPos) (id : String) → has (xs ++ ys) id ≡ has xs id || has ys id
has-append [] ys id = refl
has-append (x ∷ xs) ys id = ground (arith, has-append xs ys id)

has-sink :
    (x : DriverPos) (ys : List DriverPos) (id : String)
    → has (sink x ys) id ≡ id == x.id || has ys id
unfolding sink
has-sink x [] id = refl
has-sink x (y ∷ ys) id = ground (arith, has-sink x ys id)

has-reverse_aux :
    (xs ys : List DriverPos) (id : String) → has (reverse_aux xs ys) id ≡ has xs id || has ys id
has-reverse_aux [] ys id = refl
has-reverse_aux (x ∷ xs) ys id = ground (arith, has-reverse_aux xs (x ∷ ys) id)

has-sort_from :
    (sorted xs : List DriverPos) (id : String)
    → has (sort_from sorted xs) id ≡ has sorted id || has xs id
unfolding sort_from
has-sort_from sorted [] id = has-reverse_aux sorted [] id
has-sort_from sorted (x ∷ xs) id =
    ground (arith, has-sort_from (sink x sorted) xs id, has-sink x sorted id)

abbrev State : Type 0
State = List String × List DriverPos

module _ (R : Redis) (db : R.Db) where
  -- A driver that is not AVAILABLE, or has a whole position.
  pub data IsWhole (id : String) : Type 0 where
    busy : (as_text (field (R.read db (driver_key id)) "state") == "AVAILABLE") ≡ false → IsWhole id
    placed :
        (lat lng cell : Datum)
        → field (R.read db (driver_loc_key id)) "lat" ≡ some lat
        → field (R.read db (driver_loc_key id)) "lng" ≡ some lng
        → field (R.read db (driver_loc_key id)) "cell" ≡ some cell
        → IsWhole id

  -- Redis answers every command of the search but those for ratings.
  pub record Answered (net : SearchLinks) : Type 0 where
    pub cells_up : (c : String) → net.cells c ≡ up
    pub positions_up : (id : String) → net.positions id ≡ up
    pub states_up : (id : String) → net.states id ≡ up

  -- The driver is AVAILABLE, at a position in this cell that is not farther than the radius.
  pub record IsNear (G : Geodesy) (lat lng : Float) (radius : ℤ) (id c : String) : Type 0 where
    pub d_lat : Datum
    pub d_lng : Datum
    pub available : field (R.read db (driver_key id)) "state" ≡ some (text "AVAILABLE")
    pub lat_field : field (R.read db (driver_loc_key id)) "lat" ≡ some d_lat
    pub lng_field : field (R.read db (driver_loc_key id)) "lng" ≡ some d_lng
    pub cell_field : field (R.read db (driver_loc_key id)) "cell" ≡ some (text c)
    pub close :
        ltb_ℤ radius (G.haversine_meters lat lng (as_float (some d_lat)) (as_float (some d_lng)))
        ≡ false

module _ (R : Redis) (G : Geodesy) (net : SearchLinks) (lat lng : Float) (radius : ℤ) (db : R.Db)
    (id c : String) (a : Answered R db net) (near : IsNear R db G lat lng radius id c) where
  -- What one part of the search answers, in view of the one driver: a driver that was seen was found.
  record Goes (o : Outcome State) (s : State) (meets : Bool) : Type 0 where
    next : State
    answer : o ≡ ok next
    grows : has s.1 id ≡ true → has next.1 id ≡ true
    seen :
        (listed s.0 id ≡ true → has s.1 id ≡ true) → listed next.0 id ≡ true → has next.1 id ≡ true
    meets_found : (listed s.0 id ≡ true → has s.1 id ≡ true) → meets ≡ true → has next.1 id ≡ true

  abbrev visit_of : String → State → Outcome State
  visit_of = visit R G net lat lng radius db

  passed_over :
      (x : String) (seen : List String) (out : List DriverPos)
      → visit_of x (seen, out) ≡ ok (x ∷ seen, out)
      → id ≢ x
      → Goes (visit_of x (seen, out)) (seen, out) (id == x)
  unfolding listed
  passed_over x seen out e ne = record {
    next = (x ∷ seen, out);
    answer = e;
    grows = λ h. h;
    seen = λ inv h. inv (ground (arith, ne, h));
    meets_found = λ inv h. absurd (ground (arith, ne, h));
  }

  taken_in :
      (x : String) (seen : List String) (out : List DriverPos) (d : DriverPos)
      → visit_of x (seen, out) ≡ ok (x ∷ seen, out ++ d ∷ [])
      → d.id ≡ x
      → Goes (visit_of x (seen, out)) (seen, out) (id == x)
  unfolding listed
  taken_in x seen out d e same = record {
    next = (x ∷ seen, out ++ d ∷ []);
    answer = e;
    grows = λ h. ground (arith, h, has-append out (d ∷ []) id);
    seen = λ inv h. elim (string_dec id x) [
      | yes p ↦ ground (arith, p, same, has-append out (d ∷ []) id)
      | no ne ↦ rw (has-append out (d ∷ []) id, inv (ground (arith, ne, h))) refl
    ];
    meets_found = λ inv h. ground (arith, h, same, has-append out (d ∷ []) id);
  }

  visit-Goes : (x : String) (s : State) → IsWhole R db x → Goes (visit_of x s) s (id == x)
  unfolding visit ask listed
  visit-Goes x (seen, out) w = elim (Bool-cases (listed seen x)) [
    | inl e ↦ record {
      next = (seen, out);
      answer = rw e refl;
      grows = λ h. h;
      seen = λ inv. inv;
      meets_found = λ inv h. inv (ground (arith, h, e));
    }
    | inr e ↦ elim (Bool-cases (state == "AVAILABLE")) [
      | inr f ↦
          passed_over x seen out (rw (e, a.positions_up x, a.states_up x, f) refl)
            (λ same. absurd (cc (f, here same)))
      | inl f ↦ by_place e f w
    ]
  ]
    where
      state : String
      state = as_text (field (R.read db (driver_key x)) "state")

      here : id ≡ x → (state == "AVAILABLE") ≡ true
      here same =
          subst
            (λ (y : String).
              (as_text (field (R.read db (driver_key y)) "state") == "AVAILABLE") ≡ true)
            same (rw near.available (==-refl "AVAILABLE"))

      there :
          id ≡ x
          → (f : Value → Option Datum) (u : Datum) → f (R.read db (driver_loc_key x)) ≡ some u
          → (v : Datum) → f (R.read db (driver_loc_key id)) ≡ some v
          → u ≡ v
      there same f u e v k =
          some-injective u v
            (sym e ∙ ap (λ (y : String). f (R.read db (driver_loc_key y))) (sym same) ∙ k)

      found : Datum → Datum → Datum → DriverPos
      found la ln ce = record {
        id = x;
        lat = as_float (some la);
        lng = as_float (some ln);
        cell = as_text (some ce);
        seq = 0;
        ts = 0;
        state = state;
        rating =
            or_zero (pos 0)
              (ask (net.ratings x) (as_number (field (R.read db (driver_key x)) "rating")));
        dist_m = G.haversine_meters lat lng (as_float (some la)) (as_float (some ln));
      }

      by_place :
          listed seen x ≡ false
          → (state == "AVAILABLE") ≡ true
          → IsWhole R db x
          → Goes (visit_of x (seen, out)) (seen, out) (id == x)
      by_place e f (busy g) = absurd (ground (arith, f, g))
      by_place e f (placed la ln ce p q r) =
          elim (Bool-cases
            (ltb_ℤ radius (G.haversine_meters lat lng (as_float (some la)) (as_float (some ln))))) [
              | inl far ↦
                  passed_over x seen out
                    (rw (e, a.positions_up x, a.states_up x, f, p, q, far) refl)
                    (λ same. absurd (
                      cc (
                        far,
                        near.close,
                        there same (λ v. field v "lat") la p near.d_lat near.lat_field,
                        there same (λ v. field v "lng") ln q near.d_lng near.lng_field,
                      )))
              | inr close ↦
                  taken_in x seen out (found la ln ce)
                    (rw (e, a.positions_up x, a.states_up x, f, p, q, close, r) refl) refl
            ]

  abbrev visit_all_of : List String → State → Outcome State
  visit_all_of = visit_all R G net lat lng radius db

  abbrev scan_of : List String → State → Outcome State
  scan_of = scan_cells R G net lat lng radius db

  -- Two parts, one after the other, where what was seen is found.
  then_Goes :
      (o : Outcome State) (f : State → Outcome State) (s : State) (m n : Bool) (g : Goes o s m)
      → Goes (f g.next) g.next n
      → Goes (o >>= f) s (m || n)
  then_Goes o f s m n g h = record {
    next = h.next;
    answer = rw g.answer h.answer;
    grows = λ k. h.grows (g.grows k);
    seen = λ inv k. h.seen (g.seen inv) k;
    meets_found = λ inv k. elim (Bool-cases m) [
      | inl e ↦ h.grows (g.meets_found inv e)
      | inr e ↦ h.meets_found (g.seen inv) (ground (arith, e, k))
    ];
  }

  nothing-Goes : (s : State) → Goes (ok s) s false
  nothing-Goes s = record {
    next = s;
    answer = refl;
    grows = λ h. h;
    seen = λ inv. inv;
    meets_found = λ inv h. absurd (cc h);
  }

  visit_all-Goes :
      (ids : List String) (s : State)
      → ((x : String) → listed ids x ≡ true → IsWhole R db x)
      → Goes (visit_all_of ids s) s (listed ids id)
  unfolding visit_all listed
  visit_all-Goes [] s w = nothing-Goes s
  visit_all-Goes (x ∷ ids) s w =
      let first = visit-Goes x s (w x (ground arith)) in
      then_Goes (visit_of x s) (visit_all_of ids) s _ _ first
        (visit_all-Goes ids first.next (λ y h. w y (ground (arith, h))))

  -- Whether a cell of the list has the driver in its set.
  abbrev any_in : List String → Bool
  any_in [] = false
  any_in (b ∷ bs) = listed (R.smembers db (cell_key b)) id || any_in bs

  scan_cells-Goes :
      (cs : List String) (s : State)
      → ((b x : String)
          → listed cs b ≡ true
          → listed (R.smembers db (cell_key b)) x ≡ true
          → IsWhole R db x)
      → Goes (scan_of cs s) s (any_in cs)
  unfolding scan_cells ask listed
  scan_cells-Goes [] s w = nothing-Goes s
  scan_cells-Goes (b ∷ cs) s w =
      let first = visit_all-Goes (R.smembers db (cell_key b)) s (λ x h. w b x (ground arith) h) in
      rw (a.cells_up b) (
        then_Goes (visit_all_of (R.smembers db (cell_key b)) s) (scan_of cs) s _ _ first
          (scan_cells-Goes cs first.next (λ d x h k. w d x (ground (arith, h)) k)))

  any_in-listed :
      (cs : List String)
      → listed cs c ≡ true
      → listed (R.smembers db (cell_key c)) id ≡ true
      → any_in cs ≡ true
  unfolding listed
  any_in-listed [] h k = absurd (cc h)
  any_in-listed (b ∷ cs) h k = elim (string_dec c b) [
    | yes e ↦ ground (arith, e, k)
    | no ne ↦ ground (arith, ne, h, any_in-listed cs (ground (arith, ne, h)) k)
  ]

  -- If Redis answers the search and indexes drivers by their cells, and each driver in the cells of
  -- the plan is not AVAILABLE or has a whole position, then the search answers a list of drivers,
  -- and every driver that is AVAILABLE in one of these cells within the radius is in it.
  pub search_nearby-finds :
      (L : IsRedis R) (plan : SearchPlan)
      → plan_search G lat lng radius default_resolution ≡ ok plan
      → Indexed R db
      → listed plan.cells c ≡ true
      → ((b x : String) → listed plan.cells b ≡ true → is_in R db x b ≡ true → IsWhole R db x)
      → (ds : List DriverPos) × (search_nearby R G net lat lng radius db
          ≡ ok (ds, length plan.cells))
        × (has ds id ≡ true)
  unfolding search_nearby sort_by_distance listed
  search_nearby-finds L plan e index here whole =
      let g =
        scan_cells-Goes plan.cells ([], [])
          (λ b x h k. whole b x h (sym (L.listed-smembers db (cell_key b) x) ∙ k)) in
      let member = L.listed-smembers db (cell_key c) id ∙ index.found id c near.cell_field in
      (
        sort_by_distance g.next.1,
        rw (e, g.answer) refl,
        has-sort_from [] g.next.1 id
            ∙ g.meets_found (λ h. absurd (cc h)) (any_in-listed plan.cells here member),
      )
