-- ===== src/Tests/Locations.antt =====
-- Updates of positions, in the database in memory.
use nexus_dispatch.Prelude.{List, [], ◌∷◌, true}
use nexus_dispatch.Prelude.Int.{pos}
use nexus_dispatch.Redis.{micro}
use nexus_dispatch.Redis.Memory.{memory}
use nexus_dispatch.Outcome.{Link, up, down}
use nexus_dispatch.Location.{LocationRequest, Service, apply, batch_update_location}
use nexus_dispatch.Location.Counts.{
  AddsUp, Tells, stored_for, batch_update_location-AddsUp, apply-Tells,
}
use nexus_dispatch.Tests.Dispatches.{flat, town}

abbrev request : LocationRequest
request = record {
  driver_id = "a";
  lat = micro (pos 1000000);
  lng = micro (pos 2000000);
  sequence = pos 4;
}

abbrev service : Service memory
service = record { hot = town; seqs = 0; has_producer = true; sent = [] }

abbrev batch : List (Link × Link × LocationRequest)
batch = (up, up, request) ∷ (up, up, request) ∷ (up, down, record request { sequence = pos 5 }) ∷ []

batch_update_location-AddsUp_example :
    AddsUp 3 (batch_update_location memory flat 10 batch service).1
batch_update_location-AddsUp_example = batch_update_location-AddsUp memory flat 10 batch service

apply-Tells_example :
    let (s', res) = apply memory flat up up 10 request true service in
    Tells memory flat request (stored_for memory flat up up 10 request service).1 service s' res
apply-Tells_example = apply-Tells memory flat up up 10 request true service
