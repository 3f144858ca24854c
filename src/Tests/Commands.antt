-- ===== src/Tests/Commands.antt =====
-- What the commands close, at one environment in which everything answers.
use nexus_dispatch.Prelude.{◌≡◌, refl, true, none, [], ◌∷◌, string_dec}
use nexus_dispatch.Config.{Environment, load, get_env, get_env_by, default_port}
use nexus_dispatch.Bootstrap.{run, open_http, wants_http, prepare, serve_and_stop}
use nexus_dispatch.Connect.{producer, redis}
use nexus_dispatch.Metrics.{new_common, must_register, common, has_name, new_registry}
use nexus_dispatch.Commands.{Site, ride_service, main, main_ride, serve, serve_durable}
use nexus_dispatch.Commands.Counts.{opened, closed}
use nexus_dispatch.Commands.Closes.{main-closes}

abbrev empty_env : Environment
empty_env = record {
  getenv = λ k. "";
  atoi = λ s. none;
  parse_float = λ s. none;
  parse_duration = λ s. none;
}

abbrev all_there : Site
all_there = record {
  env = empty_env;
  pings_redis = true;
  pgx = record { parses = λ s. true; makes = λ n s. true; pings = λ s. true };
  decimal = λ n. "5432";
  can_listen = λ used a. true;
  collectors = [];
  def_buckets = 50 ∷ 100 ∷ 250 ∷ [];
}

main-closes_example :
    opened producer (main all_there ride_service).0
    ≡ closed producer (main all_there ride_service).0
unfolding main main_ride new_common must_register common has_name new_registry string_dec redis
    serve_durable serve run open_http wants_http load get_env default_port prepare serve_and_stop
    get_env_by
main-closes_example = main-closes all_there producer ride_service refl
