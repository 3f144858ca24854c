-- ===== src/Hot/Store/Search.antt =====
-- SearchNearby, GetLocation, DriverCount and RebuildFromDrivers (internal/redis/store.go).
pub mod Nearby
pub mod Complete
use mathlib.Core.List.{foldl, reverse}
use Prim.Native.String.{len, slice}
use nexus_dispatch.Prelude.{
  ℕ, suc, ◌+◌, ◌*◌, Bool, true, false, not, ◌&&◌, ◌||◌, Option, none, some, List, [], ◌∷◌, ◌++◌,
  String, ◌==◌, leb, length, if◌then◌else◌,
}
use nexus_dispatch.Prelude.Int.{ℤ, pos, ltb_ℤ}
use nexus_dispatch.Redis.{
  Float, nan, micro, Datum, text, int, real, Fields, Value, field, listed, Redis,
}
use nexus_dispatch.Outcome.{Error, Outcome, ok, err, panic, ◌>>=◌, Link, up, ask, unreachable}
use nexus_dispatch.Geospatial.{Geodesy, plan_search, default_resolution}
use nexus_dispatch.Hot.Keys.{driver_key, driver_loc_key, cell_key}
use nexus_dispatch.Hot.Store.{as_text, or_zero, hgetall, init_driver}

-- `DriverPos`
pub record DriverPos : Type 0 where
  pub id : String
  pub lat : Float
  pub lng : Float
  pub cell : String
  pub seq : ℕ
  pub ts : ℕ
  pub state : String
  pub rating : ℤ
  pub dist_m : ℤ

-- What becomes of the commands of a search: by the cell or the driver that they ask about.
pub record SearchLinks : Type 0 where
  pub cells : String → Link
  pub positions : String → Link
  pub states : String → Link
  pub ratings : String → Link

-- ParseFloat, its error dropped
abbrev pub as_float : Option Datum → Float
as_float (some (real f)) = f
as_float (some (int n)) = micro (pos (n * 1000000))
as_float _ = micro (pos 0)

abbrev pub as_number : Option Datum → ℤ
as_number (some (real (micro r))) = r
as_number (some (int n)) = pos (n * 1000000)
as_number _ = pos 0

abbrev pub as_seq : Option Datum → ℕ
as_seq (some (int n)) = n
as_seq _ = 0

-- `v.(string)`, which panics on the nil that HMGET answers for a missing field
abbrev pub assert_string : Option Datum → Outcome Datum
assert_string none = panic
assert_string (some d) = ok d

-- One round of the sort: the new element moves down past those that are farther. The head of the
-- list is the end of the sorted part.
unfoldable pub sink : DriverPos → List DriverPos → List DriverPos
sink x [] = x ∷ []
sink x (y ∷ ys) = let rest = sink x ys in if ltb_ℤ x.dist_m y.dist_m then y ∷ rest else x ∷ y ∷ ys

sort_from : List DriverPos → List DriverPos → List DriverPos
sort_from sorted [] = reverse sorted
sort_from sorted (x ∷ xs) = sort_from (sink x sorted) xs

unfoldable pub sort_by_distance : List DriverPos → List DriverPos
unfolding sort_from sink
sort_by_distance xs = sort_from [] xs

module _ (R : Redis) (G : Geodesy) (net : SearchLinks) (lat lng : Float) (radius : ℤ)
    (db : R.Db) where
  -- A candidate within the radius joins the list.
  kept :
      String → String → Float → Float → ℤ → Option Datum → List DriverPos → Outcome (List DriverPos)
  kept id state d_lat d_lng d m₂ out = do
    d₂ ← assert_string m₂
    let r =
        or_zero (pos 0)
          (ask (net.ratings id) (as_number (field (R.read db (driver_key id)) "rating")))
    ok (
        out
        ++ record {
          id = id;
          lat = d_lat;
          lng = d_lng;
          cell = as_text (some d₂);
          seq = 0;
          ts = 0;
          state = state;
          rating = r;
          dist_m = d;
        }
          ∷ [])

  -- The rest of a round for a driver whose state was read.
  located :
      String
      → String
      → Option Datum
      → Option Datum
      → Option Datum
      → List DriverPos
      → Outcome (List DriverPos)
  unfolding kept
  located id state m₀ m₁ m₂ out = if not (state == "AVAILABLE") then ok out else do
    d₀ ← assert_string m₀
    d₁ ← assert_string m₁
    let d_lat = as_float (some d₀)
    let d_lng = as_float (some d₁)
    let d = G.haversine_meters lat lng d_lat d_lng
    if ltb_ℤ radius d then ok out else kept id state d_lat d_lng d m₂ out

  -- One round of the inner loop. HMGET of three fields always answers three values.
  visit : String → List String × List DriverPos → Outcome (List String × List DriverPos)
  unfolding located
  visit id (seen, out) = if listed seen id then ok (seen, out) else do
    m ← ask (net.positions id) (R.read db (driver_loc_key id))
    let state =
        or_zero "" (ask (net.states id) (as_text (field (R.read db (driver_key id)) "state")))
    out' ← located id state (field m "lat") (field m "lng") (field m "cell") out
    ok (id ∷ seen, out')

  visit_all : List String → List String × List DriverPos → Outcome (List String × List DriverPos)
  visit_all [] s = ok s
  visit_all (id ∷ ids) s = visit id s >>= visit_all ids

  scan_cells : List String → List String × List DriverPos → Outcome (List String × List DriverPos)
  scan_cells [] s = ok s
  scan_cells (c ∷ cs) s = do
    ids ← ask (net.cells c) (R.smembers db (cell_key c))
    s' ← visit_all ids s
    scan_cells cs s'

  -- `SearchNearby`: the candidates and the number of cells.
  unfoldable pub search_nearby : Outcome (List DriverPos × ℕ)
  unfolding visit visit_all scan_cells sort_by_distance
  search_nearby = do
    plan ← plan_search G lat lng radius default_resolution
    found ← scan_cells plan.cells ([], [])
    ok (sort_by_distance found.1, length plan.cells)

module _ (R : Redis) where
  position : Link → Link → String → Value → Fields → DriverPos
  position l₁ l₂ id profile m = record {
    id = id;
    lat = as_float (m "lat");
    lng = as_float (m "lng");
    cell = as_text (m "cell");
    seq = as_seq (m "seq");
    ts = as_seq (m "ts");
    state = or_zero "" (ask l₁ (as_text (field profile "state")));
    rating = or_zero (pos 0) (ask l₂ (as_number (field profile "rating")));
    dist_m = pos 0;
  }

  -- `GetLocation`
  unfoldable pub get_location : Link → Link → Link → String → R.Db → Outcome (Option DriverPos)
  unfolding position hgetall
  get_location l₁ l₂ l₃ id db = do
    m ← ask l₁ (hgetall R (R.read db (driver_loc_key id)))
    elim m [
      | none ↦ ok none
      | some fields ↦ ok (some (position l₂ l₃ id (R.read db (driver_key id)) fields))
    ]

  -- `len(k) <= len(DriverKeyPrefix) || k[7:8] == ":"`
  unfoldable pub skipped : String → Bool
  skipped k = leb (len k) 7 || slice k 7 8 == ":"

  count_keys : (String → Link) → R.Db → List String → ℕ × ℕ → ℕ × ℕ
  unfolding skipped
  count_keys net db [] c = c
  count_keys net db (k ∷ ks) (total, available) = count_keys net db ks (
      if skipped k then (total, available) else (
        total + 1,
        if or_zero "" (ask (net k) (as_text (field (R.read db k) "state"))) == "AVAILABLE"
            then available + 1
            else available,
      ))

  -- `DriverCount`, over the pages that SCAN answers
  unfoldable pub driver_count :
      (String → Link) → R.Db → List (Outcome (List String)) → ℕ × ℕ → Outcome (ℕ × ℕ)
  unfolding count_keys
  driver_count net db [] c = ok c
  driver_count net db (page ∷ pages) c =
      page >>= λ ks. driver_count net db pages (count_keys net db ks c)

-- One entry of the list that `RebuildFromDrivers` takes.
pub record Seed : Type 0 where
  pub id : String
  pub state : String
  pub lat : Float
  pub lng : Float

-- `RebuildFromDrivers`
unfoldable pub rebuild_from_drivers :
    (R : Redis) → Geodesy → (String → Link) → ℕ → List Seed → R.Db → R.Db × Outcome (Unit {0})
rebuild_from_drivers R G net now [] db = (db, ok tt)
rebuild_from_drivers R G net now (d ∷ ds) db =
    let (db', res) = init_driver R G (net d.id) d.id "" d.state (pos 0) d.lat d.lng now db in
    let rest = rebuild_from_drivers R G net now ds db' in
    elim res [ ok _ ↦ rest | err e ↦ (db', err e) | panic ↦ (db', panic) ]
