-- ===== src/Api/Routes.antt =====
-- `routes` of api/handlers/http.go, with the matching of patterns that net/http documents: the
-- segments of a clean path, one by one.
pub mod Overlap
pub mod Unique
use carbmq_core.Base.{
  String, Bool, true, false, ◌&&◌, ◌||◌, List, [], ◌∷◌, Option, none, some, if◌then◌else◌, ◌==◌,
}
use carbmq_core.Api.Handlers.{Cors, cors}

pub data Endpoint : Type 0 where
  at_healthz at_register_device at_issue_token at_list_devices at_device_telemetry at_send_command
        at_list_messages at_metrics_summary at_metrics_raw at_websocket_telemetry :
      Endpoint

pub data Segment : Type 0 where
  literal : String → Segment
  wildcard : Segment

pub record Route : Type 0 where
  pub method : String
  pub pattern : List Segment
  pub endpoint : Endpoint

on : String → List Segment → Endpoint → Route
on method pattern endpoint = record { method = method; pattern = pattern; endpoint = endpoint }

-- `{id}` is a wildcard.
unfoldable pub routes : List Route
unfolding on
routes =
    on "GET" (literal "healthz" ∷ []) at_healthz
    ∷ on "POST" (literal "devices" ∷ literal "register" ∷ []) at_register_device
    ∷ on "POST" (literal "devices" ∷ wildcard ∷ literal "token" ∷ []) at_issue_token
    ∷ on "GET" (literal "devices" ∷ []) at_list_devices
    ∷ on "GET" (literal "devices" ∷ wildcard ∷ literal "telemetry" ∷ []) at_device_telemetry
    ∷ on "POST" (literal "devices" ∷ wildcard ∷ literal "command" ∷ []) at_send_command
    ∷ on "GET" (literal "messages" ∷ []) at_list_messages
    ∷ on "GET" (literal "metrics" ∷ literal "summary" ∷ []) at_metrics_summary
    ∷ on "GET" (literal "metrics" ∷ literal "raw" ∷ []) at_metrics_raw
    ∷ on "GET" (literal "ws" ∷ literal "telemetry" ∷ []) at_websocket_telemetry
    ∷ []

captured : String → Option (List String) → Option (List String)
captured s none = none
captured s (some values) = some (s ∷ values)

-- the values of the wildcards, if the path fits the pattern
unfoldable pub fits : List Segment → (path : List String) → Option (List String)
unfolding captured
fits [] [] = some []
fits [] (s ∷ path) = none
fits (p ∷ pattern) [] = none
fits (literal a ∷ pattern) (s ∷ path) =
    let rest = fits pattern path in if a == s then rest else none
fits (wildcard ∷ pattern) (s ∷ path) = captured s (fits pattern path)

-- GET admits HEAD too.
unfoldable pub admits : Route → (method : String) → Bool
admits r method = r.method == method || r.method == "GET" && method == "HEAD"

pub data Dispatched : Type 0 where
  to_endpoint : Endpoint → (values : List String) → Dispatched
  method_not_allowed not_found : Dispatched

on_fit : Route → (method : String) → Option (List String) → Dispatched → Dispatched
on_fit r method none rest = rest
on_fit r method (some values) (to_endpoint e vs) = to_endpoint e vs
on_fit r method (some values) rest =
    if admits r method then to_endpoint r.endpoint values else method_not_allowed

-- where a request goes to
unfoldable pub dispatch : List Route → (method : String) → (path : List String) → Dispatched
unfolding on_fit
dispatch [] method path = not_found
dispatch (r ∷ rs) method path = on_fit r method (fits r.pattern path) (dispatch rs method path)

-- the handler of `routes`: what `cors` sets, and, unless `cors` answers by itself, where it goes to
unfoldable handle :
    (allowed : List String)
    → (origin method : String) → (path : List String) → Cors × Option Dispatched
handle allowed origin method path =
    let c = cors allowed origin method in
    (c, (if c.answers then none else some (dispatch routes method path)))
