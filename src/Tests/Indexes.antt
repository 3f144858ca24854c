-- ===== src/Tests/Indexes.antt =====
-- Runs of calls of the store, and what a search and a dispatch find behind them, in the database in memory.
use nexus_dispatch.Prelude.{
  ℕ, ◌≡◌, refl, sym, ◌∙◌, ap, subst, true, List, [], ◌∷◌, All, String, string_dec, arith,
}
use nexus_dispatch.Prelude.Int.{pos, ◌*ℤ◌}
use nexus_dispatch.Redis.{Value, text, real, listed}
use nexus_dispatch.Redis.Memory.{memory, memory-IsRedis, fresh}
use nexus_dispatch.Outcome.{Outcome, call, ok, up, cut, ask}
use nexus_dispatch.Geospatial.{plan_search, cell_key as cell_of}
use nexus_dispatch.Hot.Keys.{
  driver_key, driver_lease_key, driver_loc_key, cell_key, has_colon, geo_key,
}
use nexus_dispatch.Hot.Store
use nexus_dispatch.Hot.Calls.{
  Call, registers, locates, applies, removes, reserves, waits, IsPlainCall, perform, perform_all,
}
use nexus_dispatch.Hot.Schema.{HasKind, Kind, kind}
use nexus_dispatch.Hot.Schema.Typed.{Typed}
use nexus_dispatch.Hot.Schema.Kept.{perform_all-Typed}
use nexus_dispatch.Hot.Index.{is_in, Indexed}
use nexus_dispatch.Hot.Index.Kept.{perform_all-Indexed}
use nexus_dispatch.Hot.Store.Search.{DriverPos, search_nearby, sort_by_distance}
use nexus_dispatch.Hot.Store.Search.Complete.{
  Answered, IsWhole, placed, IsNear, has, search_nearby-finds,
}
use nexus_dispatch.Dispatch.{
  default_config, Result, ranked, score, score_one, request_age, dispatch_for_ride,
}
use nexus_dispatch.Dispatch.Choice.{Ready}
use nexus_dispatch.Dispatch.Match.{IsFree, dispatch_for_ride-matches}
use nexus_dispatch.Tests.Dispatches.{
  stamp, flat, links, origin, kilometre, plan, plan_found, slots, found, world, manager, request,
}

empty-Typed : Typed memory fresh
empty-Typed = record { typed = λ k p. nothing (kind k) }
  where
    nothing : (k : Kind) → HasKind k Value.absent
    nothing k = tt

empty-Indexed : Indexed memory fresh
empty-Indexed = record { found = λ id c e. absurd (cc e); lasting = λ c. refl }

-- A driver comes, moves twice, the second time with a cell that is out of date, and time passes.
abbrev moves : List Call
moves =
    registers up "a" "n" "AVAILABLE" (pos 0) origin origin 0
    ∷ locates up cut "a" origin origin 1 5
    ∷ applies up "a" "b" "d" origin origin 2 9
    ∷ reserves up "a" "r0" (record { ride_id = "r0"; token = "t"; version = 1 }) 15
    ∷ waits 121000
    ∷ removes up up "a"
    ∷ []

moves-IsPlainCall : All IsPlainCall moves
unfolding has_colon
moves-IsPlainCall = (refl, (refl, (refl, (refl, (tt, (refl, tt))))))

perform_all-Typed_example : Typed memory (perform_all memory flat moves fresh)
perform_all-Typed_example =
    perform_all-Typed memory memory-IsRedis flat moves fresh moves-IsPlainCall empty-Typed

perform_all-Indexed_example : Indexed memory (perform_all memory flat moves fresh)
perform_all-Indexed_example =
    perform_all-Indexed memory memory-IsRedis flat moves fresh moves-IsPlainCall empty-Typed
      empty-Indexed

abbrev come : List Call
come = registers up "a" "n" "AVAILABLE" (pos 0) origin origin 0 ∷ []

abbrev city : memory.Db
city = perform_all memory flat come fresh

come-IsPlainCall : All IsPlainCall come
unfolding has_colon
come-IsPlainCall = (refl, tt)

city-Indexed : Indexed memory city
city-Indexed =
    perform_all-Indexed memory memory-IsRedis flat come fresh come-IsPlainCall empty-Typed
      empty-Indexed

links-Answered : Answered memory city links
links-Answered = record { cells_up = λ c. refl; positions_up = λ d. refl; states_up = λ d. refl }

a-IsNear : IsNear memory city flat origin origin kilometre "a" "c"
unfolding perform_all perform Store.init_driver call cell_of string_dec driver_key driver_loc_key
    cell_key geo_key
a-IsNear = record {
  d_lat = real origin;
  d_lng = real origin;
  available = refl;
  lat_field = refl;
  lng_field = refl;
  cell_field = refl;
  close = refl;
}

city-IsWhole :
    (b x : String)
    → listed plan.cells b ≡ true
    → is_in memory city x b ≡ true
    → IsWhole memory city x
unfolding perform_all perform Store.init_driver call cell_of string_dec driver_key driver_loc_key
    cell_key geo_key listed
city-IsWhole b x h k = elim (string_dec x "a") [
  | yes p ↦
      subst (IsWhole memory city) (sym p)
        (placed (real origin) (real origin) (text "c") refl refl refl)
  | no ne ↦ elim (string_dec b "c") [
    | yes q ↦ absurd (ground (arith, ne, subst (λ (y : String). is_in memory city x y ≡ true) q k))
    | no nq ↦ absurd (ground (arith, nq, h))
  ]
]

search_nearby-finds_example :
    (ds : List DriverPos) × (search_nearby memory flat links origin origin kilometre city
      ≡ ok (ds, 1))
    × (has ds "a" ≡ true)
unfolding listed string_dec
search_nearby-finds_example =
    search_nearby-finds memory flat links origin origin kilometre city "a" "c" links-Answered
      a-IsNear memory-IsRedis plan plan_found city-Indexed refl city-IsWhole

city_search : search_nearby memory flat links origin origin kilometre city ≡ ok (found ∷ [], 1)
unfolding search_nearby string_dec ask listed sort_by_distance driver_key driver_loc_key cell_key
    plan_search perform_all perform Store.init_driver call cell_of geo_key
city_search = refl

abbrev ReadyAndFree : List DriverPos → Type 0
ReadyAndFree ds =
    let order =
      ranked default_config world.sort ds
        (request_age memory world flat default_config 0 request) in
    All (Ready memory world slots "r0" city) order × All (IsFree slots) order

found-ReadyAndFree : ReadyAndFree (found ∷ [])
unfolding ranked score score_one perform_all perform Store.init_driver call cell_of string_dec
    driver_key driver_loc_key driver_lease_key cell_key geo_key
found-ReadyAndFree = (
  (
    record {
      link = refl;
      token = "t0";
      drawn = refl;
      here = record { lease_key = refl; driver_hash = refl; state_field = refl };
      forever = refl;
      foreign = λ v e. cc;
    },
    tt,
  ),
  (record { unleased = refl; state = refl }, tt),
)

abbrev drivers_of : Outcome (List DriverPos × ℕ) → List DriverPos
drivers_of (ok f) = f.0
drivers_of _ = []

dispatch_for_ride-matches_example :
    (r : Result) × ((dispatch_for_ride memory world flat default_config 0 request stamp manager
        city).1
      ≡ ok r)
    × (r.success ≡ true)
unfolding listed string_dec ◌*ℤ◌
dispatch_for_ride-matches_example =
    dispatch_for_ride-matches memory world flat default_config memory-IsRedis slots 0 request stamp
      "a" "c" plan 14 9 manager city refl refl (λ cs. refl) links-Answered plan_found city-Indexed
      a-IsNear refl city-IsWhole
      (λ ds cells e. subst ReadyAndFree (ap drivers_of (sym city_search ∙ e)) found-ReadyAndFree)
