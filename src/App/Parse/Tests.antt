-- ===== src/App/Parse/Tests.antt =====
-- A configuration with one Gateway, a policy and two plugins.
use hog.Base.{String, none, some, List, [], ◌∷◌, ◌≡◌, refl, Result, ok, err, String-discrete}
use hog.Config.{Resource, kind_of}
use hog.App.Gateway.{Settings, from_resource}
use hog.App.Registry.{Registry}
use hog.App.Plugins.{Module}
use hog.App.Parse.{Decode, Config, ParseError, parse, parse_all, parse_kind, parse_plugin}

abbrev settings : Settings (Unit {0})
settings = record {
  listen = "";
  trusted_proxies = [];
  security = none;
  plugins = [];
  session = none;
  identity = none;
  auth = none;
  state_provider = none;
}

abbrev decode : Decode (Unit {0}) (Unit {0})
decode = record {
  settings = λ n. some settings;
  route = λ n. none;
  group = λ n. none;
  plugin = λ n. some (record {
    type = "headers";
    selector = record { match_labels = []; match_expressions = [] };
    config = tt;
  });
  telemetry = λ n. none;
  default_telemetry = tt;
}

abbrev resource : String → String → Resource (Unit {0})
resource kind name = record {
  api_version = "hog/v2";
  kind = kind;
  metadata = record { name = name; labels = [] };
  spec = tt;
}

abbrev resources : List (Resource (Unit {0}))
resources =
    resource "RequestPlugin" "a"
    ∷ resource "Gateway" "g"
    ∷ resource "Policy" "p"
    ∷ resource "RequestPlugin" "b"
    ∷ []

config_of : Result ParseError (Config (Unit {0}) (Unit {0})) → Config (Unit {0}) (Unit {0})
config_of (ok c) = c
config_of (err e) = record {
  gateway = settings;
  routes = [];
  groups = [];
  request_plugins = [];
  response_plugins = [];
  idp_resources = [];
  telemetry = tt;
  policies = [];
}

abbrev config : Config (Unit {0}) (Unit {0})
config = config_of (parse decode resources)

parsed : parse decode resources ≡ ok config
unfolding parse parse_all parse_kind parse_plugin from_resource kind_of String-discrete config_of
parsed = refl

abbrev modules : Registry (Unit {0}) (Module (Unit {0}) (Unit {0}) (Unit {0}))
modules = []
