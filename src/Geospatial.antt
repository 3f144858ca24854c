-- ===== src/Geospatial.antt =====
-- internal/geospatial/h3.go. The H3 library and the haversine formula, which is trigonometry on
-- doubles, are parameters. A `Float` counts millionths: of a degree, or of a metre.
pub mod Ring
use nexus_dispatch.Prelude.{
  ℕ, zero, suc, ◌+◌, ◌-◌, ◌*◌, ◌/◌, ◌≡◌, Bool, true, false, ◌||◌, Option, none, some, List, map,
  String, ltb, if◌then◌else◌,
}
use nexus_dispatch.Prelude.Int.{ℤ, pos, negsuc, ltb_ℤ}
use nexus_dispatch.Redis.{Float, nan, micro}
use nexus_dispatch.Outcome.{Outcome, ok, err, ◌>>=◌, ok_or, bad_cell, bad_coordinate}

-- github.com/dimchansky/h3-go, and the distance that `HaversineMeters` computes.
pub record Geodesy : Type 1 where
  pub Cell : Type 0
  pub lat_lng_to_cell : Float → Float → ℕ → Option Cell
  pub to_string : Cell → String
  pub parse_cell : String → Option Cell
  pub grid_disk : Cell → ℕ → Option (List Cell)
  pub haversine_meters : Float → Float → Float → Float → ℤ

abbrev pub default_resolution : ℕ
default_resolution = 7

-- `cellCircumradiusM`, in millionths
abbrev pub cell_circumradius : ℕ
cell_circumradius = 400 * 1000000

-- Go's comparisons of doubles are false on NaN.
abbrev pub lt_float : Float → Float → Bool
lt_float (micro a) (micro b) = ltb_ℤ a b
lt_float _ _ = false

abbrev pub is_nan : Float → Bool
is_nan nan = true
is_nan (micro a) = false

abbrev pub degrees : ℕ → Float
degrees n = micro (pos (n * 1000000))

abbrev pub minus_degrees : ℕ → Float
minus_degrees zero = micro (pos 0)
minus_degrees (suc n) = micro (negsuc (n * 1000000 + 999999))

-- `ValidateLatLng`; true where it returns nil
unfoldable pub validate_lat_lng : Float → Float → Bool
validate_lat_lng lat lng =
    if is_nan lat || is_nan lng
    then false
    else if lt_float lat (minus_degrees 90) || lt_float (degrees 90) lat
    then false
    else if lt_float lng (minus_degrees 180) || lt_float (degrees 180) lng
    then false
    else true

-- `RingForRadius`: the quotient rounded up, and at least 1. The resolution is not read.
unfoldable pub ring_for_radius : ℤ → ℕ → ℕ
ring_for_radius (pos r) res =
    let k = (r + (cell_circumradius - 1)) / cell_circumradius in if ltb k 1 then 1 else k
ring_for_radius (negsuc r) res = 1

module _ (G : Geodesy) where
  -- `CellKey`
  unfoldable pub cell_key : Float → Float → ℕ → Outcome String
  cell_key lat lng res = do
    cell ← ok_or bad_cell (G.lat_lng_to_cell lat lng res)
    ok (G.to_string cell)

  -- `Ring`; a natural k leaves out the test for a negative one
  unfoldable pub ring : String → ℕ → Outcome (List String)
  ring origin k = do
    cell ← ok_or bad_cell (G.parse_cell origin)
    disk ← ok_or bad_cell (G.grid_disk cell k)
    ok (map G.to_string disk)

-- `SearchPlan`
pub record SearchPlan : Type 0 where
  pub origin_cell : String
  pub cells : List String
  pub ring_k : ℕ
  pub radius : ℤ

-- `PlanSearch`
unfoldable pub plan_search : Geodesy → Float → Float → ℤ → ℕ → Outcome SearchPlan
unfolding cell_key ring ring_for_radius
plan_search G lat lng radius res = do
  origin ← cell_key G lat lng res
  let k = ring_for_radius radius res
  cells ← ring G origin k
  ok (record { origin_cell = origin; cells = cells; ring_k = k; radius = radius })
