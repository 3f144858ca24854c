-- ===== src/Metrics.antt =====
-- internal/metrics/metrics.go: the families of metrics that a service registers. Package prometheus is a
-- parameter: the families of its own collectors, and its default buckets. It panics where a histogram's
-- buckets do not increase, and where a family is registered under a name that is taken. The code creates
-- a group of families before it registers the first; a panic ends the service either way.
use nexus_dispatch.Prelude.{
  ℕ, Bool, true, false, not, ◌&&◌, ◌||◌, Option, none, some, List, [], ◌∷◌, String, ◌==◌, ltb,
  if◌then◌else◌,
}

-- The bounds of the buckets are in tenths of a millisecond, or in ten-thousandths of a candidate.
pub data Shape : Type 0 where
  counter gauge : Shape
  histogram : List ℕ → Shape

pub record Family : Type 0 where
  pub name : String
  pub labels : List String
  pub shape : Shape

abbrev family : String → List String → Shape → Family
family name labels shape = record { name = name; labels = labels; shape = shape }

-- `Registry`
abbrev pub Registry : Type 0
Registry = List Family

abbrev pub increasing : List ℕ → Bool
increasing [] = true
increasing (x ∷ []) = true
increasing (x ∷ y ∷ ys) = ltb x y && increasing (y ∷ ys)

abbrev pub is_usable : Shape → Bool
is_usable counter = true
is_usable gauge = true
is_usable (histogram bounds) = increasing bounds

unfoldable pub has_name : String → Registry → Bool
has_name n [] = false
has_name n (f ∷ fs) = n == f.name || has_name n fs

-- `MustRegister`; none is a panic
unfoldable pub must_register : List Family → Registry → Option Registry
must_register [] reg = some reg
must_register (f ∷ fs) reg =
    let rest = must_register fs (f ∷ reg) in
    if is_usable f.shape && not (has_name f.name reg) then rest else none

-- `NewRegistry`, with the families of the two collectors.
unfoldable pub new_registry : List Family → Registry
new_registry collectors = collectors

module _ (def_buckets : List ℕ) where
  unfoldable pub common : List Family
  common =
      family "requests_total" ("route" ∷ "status" ∷ []) counter
      ∷ family "request_latency_seconds" ("route" ∷ []) (histogram def_buckets)
      ∷ family "redis_operations_total" ("op" ∷ "result" ∷ []) counter
      ∷ family "redis_latency_seconds" ("op" ∷ [])
          (histogram (1 ∷ 5 ∷ 10 ∷ 50 ∷ 100 ∷ 500 ∷ 1000 ∷ 5000 ∷ []))
      ∷ family "database_latency_seconds" ("op" ∷ []) (histogram def_buckets)
      ∷ family "kafka_messages_total" ("topic" ∷ "direction" ∷ "result" ∷ []) counter
      ∷ family "kafka_consumer_lag" ("topic" ∷ "partition" ∷ []) gauge
      ∷ family "websocket_connections" [] gauge
      ∷ []

  -- `NewCommon`
  unfoldable pub new_common : Registry → Option Registry
  new_common = must_register common

unfoldable pub dispatch : List Family
dispatch =
    family "dispatch_latency_seconds" ("result" ∷ [])
      (histogram (10 ∷ 50 ∷ 100 ∷ 250 ∷ 500 ∷ 1000 ∷ 2500 ∷ 5000 ∷ 10000 ∷ []))
    ∷ family "dispatch_success_total" [] counter
    ∷ family "dispatch_failure_total" ("code" ∷ []) counter
    ∷ family "reservation_conflicts_total" [] counter
    ∷ family "dispatch_candidates" [] (
        histogram
          (10000 ∷ 50000 ∷ 100000 ∷ 250000 ∷ 500000 ∷ 1000000 ∷ 2500000 ∷ 5000000 ∷ 10000000 ∷ []))
    ∷ []

-- `NewDispatch`
unfoldable pub new_dispatch : Registry → Option Registry
new_dispatch = must_register dispatch

unfoldable pub location : List Family
location =
    family "location_updates_total" ("result" ∷ []) counter
    ∷ family "location_updates_stale_total" [] counter
    ∷ family "active_drivers" [] gauge
    ∷ family "available_drivers" [] gauge
    ∷ family "active_rides" [] gauge
    ∷ []

-- `NewLocation`
unfoldable pub new_location : Registry → Option Registry
new_location = must_register location
