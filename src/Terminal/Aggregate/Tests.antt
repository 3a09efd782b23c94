-- ===== src/Terminal/Aggregate/Tests.antt =====
-- Two backends, one of them optional, and a path with one parameter.
use hog.Base.{
  String, Bool, true, false, none, some, List, [], ◌∷◌, ◌≡◌, ◌⊎◌, refl, ok, err, ◌==◌,
  if◌then◌else◌, String-discrete, All,
}
use hog.Base.Text
use hog.Base.Text.{contains}
use hog.Base.Dict
use hog.Base.Dict.{Dict}
use hog.Http.{Request}
use hog.Session.Principal.{empty_context}
use hog.Terminal.Aggregate.{
  Url, BackendConfig, ApiConfig, ApiHandler, Parsers, Env, Outbound, RoundTrip, answered,
  deadline_exceeded, new_api, results,
}
use hog.Terminal.Aggregate.Params.{substitute_params, unsafe_value}
use hog.Terminal.Aggregate.Params.Written.{
  Slot, IsPlain, written, filled, IsOneLevel, substitute_params-written,
}
use hog.Terminal.Aggregate.Document.{first_failure}

abbrev slots : List Slot
slots = record { before = "/users/"; name = "id" } ∷ []

plain : All IsPlain slots
unfolding contains Text.has_prefix
plain = ((refl, refl), tt)

plain_last : contains "/orders" "{" ≡ false
unfolding contains Text.has_prefix
plain_last = refl

seven : String → String
seven name = "7"

substitute_params-written_example :
    (All (λ s. IsOneLevel (seven s.name)) slots
      × (substitute_params (written slots "/orders") seven ≡ ok (filled seven slots "/orders")))
    ⊎ ((¬ All (λ s. IsOneLevel (seven s.name)) slots)
        × (substitute_params (written slots "/orders") seven ≡ err unsafe_value))
substitute_params-written_example = substitute_params-written seven slots "/orders" plain plain_last

replaced : substitute_params (written slots "/orders") seven ≡ ok "/users/7/orders"
unfolding substitute_params written seven contains Text.has_prefix String-discrete Text.Cut.cut
    Text.after_prefix
replaced = refl

abbrev upstream : Url
upstream = record { scheme = "http"; host = "a"; path = "/api"; raw_query = "" }

abbrev parsers : Parsers
parsers = record {
  parse_url = λ s. some upstream;
  parse_duration = λ s. none;
  valid_request = λ m u. true;
}

abbrev backend_config : String → String → Bool → BackendConfig
backend_config group path required = record {
  group = group;
  upstream = "http://a/api";
  path = path;
  method = "";
  required = some required;
  forward_query = false;
  forward_access_token = false;
  forward_identity = false;
}

abbrev config : ApiConfig
config = record {
  timeout = "";
  backends = backend_config "user" "/user" true ∷ backend_config "news" "/news" false ∷ [];
}

abbrev request : Request
request = record {
  method = "GET";
  path = "/";
  uri = "/";
  pattern = "";
  host = "x";
  remote_addr = "10.0.0.2";
  header = [];
  cookies = [];
  context = empty_context;
}

-- Only the user's backend answers.
round_trip : Outbound → RoundTrip
round_trip out =
    if out.url.path == "/api/user"
    then answered (record { status = 200; body = some "{}" })
    else deadline_exceeded

silent : Outbound → RoundTrip
silent out = deadline_exceeded

abbrev env : (Outbound → RoundTrip) → Env
env trip = record {
  path_value = λ s. "";
  raw_query = "";
  split_host = λ s. none;
  new_request_fails = λ m u. false;
  round_trip = trip;
  json_valid = λ s. true;
  encode_object = λ d. "{}";
}

abbrev handler : ApiHandler
handler = elim (new_api parsers config) [
  | ok h ↦ h
  | err e ↦ record { backends = []; timeout = none }
]

answered_by_none : first_failure (results (env silent) handler request) ≡ some true
unfolding first_failure results new_api silent String-discrete substitute_params contains
    Text.has_prefix
answered_by_none = refl
