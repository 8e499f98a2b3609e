-- ===== src/Tests/Starts.antt =====
-- Settings, the transport and the start of the broker at concrete inputs.
use carbmq_core.Base.{true, [], ◌∷◌, none, some, ◌≡◌, refl, String, List}
use carbmq_core.Errors.{Error, external}
use carbmq_core.Config.{Config, ParseDuration, Environment, load}
use mathlib.Core.List.{Memᴰ}
use carbmq_core.Api.Routes.{
  Route, literal, wildcard, at_device_telemetry, routes, admits, fits, dispatch, to_endpoint,
}
use carbmq_core.Api.Routes.Unique.{dispatch-routes}

abbrev unset : Environment
unset key = ""

abbrev no_durations : ParseDuration
no_durations s = none

abbrev settings : Config
settings = load no_durations unset

abbrev closed : Error
closed = external "listener closed"

abbrev telemetry_path : List String
telemetry_path = "devices" ∷ "d1" ∷ "telemetry" ∷ []

abbrev telemetry_route : Route
telemetry_route = record {
  method = "GET";
  pattern = literal "devices" ∷ wildcard ∷ literal "telemetry" ∷ [];
  endpoint = at_device_telemetry;
}

is_route : Memᴰ telemetry_route routes
unfolding routes
is_route = Memᴰ.tail (Memᴰ.tail (Memᴰ.tail (Memᴰ.tail (Memᴰ.head refl))))

is_admitted : admits telemetry_route "HEAD" ≡ true
unfolding admits
is_admitted = refl

is_fit : fits telemetry_route.pattern telemetry_path ≡ some ("d1" ∷ [])
unfolding fits
is_fit = refl

dispatch-routes_example :
    dispatch routes "HEAD" telemetry_path ≡ to_endpoint at_device_telemetry ("d1" ∷ [])
dispatch-routes_example =
    dispatch-routes "HEAD" telemetry_path ("d1" ∷ []) telemetry_route is_route is_admitted is_fit
