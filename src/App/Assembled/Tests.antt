-- ===== src/App/Assembled/Tests.antt =====
-- A gateway with an identity provider and no session.
use hog.Base.{String, ◌==◌, Bool, true, false, none, some, [], ◌∷◌, ◌≡◌, refl, ok, String-discrete}
use hog.Base.Text
use hog.Base.Dict.{lookup}
use hog.Http.{Request, Handler, writing, get, del, new_writer, with_header}
use hog.Config.{Resource}
use hog.Session.Identity.{IdentityConfig}
use hog.Chain.{Middleware}
use hog.App.Registry.{Registry, factory_of}
use hog.App.Registry as R
use hog.App.Parse.{Config}
use hog.App.Plugins.{Module, idp_module}
use hog.App.Routes.{Libraries, build_routes}
use hog.App.Assembled.{Makers, App, build, build_idp, build_session}
use hog.App.Assembled.Parts.{build-verification_only, build_untrusted, without_forwarding}
use hog.Chain.Forwarded.{Netip, TrustedProxies, parse_trusted_proxies, peer_trusted, forwarded}
use hog.Security as Sec
use hog.Session.Principal.{empty_context}
use hog.Base.Dict

abbrev Modules : Type 0
Modules = Module (Unit {0}) (Unit {0}) (Unit {0})

abbrev pass : Middleware (Unit {0})
pass next = next

abbrev quiet : Handler (Unit {0})
quiet r x = x

-- a mux that tells where the request comes from
abbrev echo : Handler (Unit {0})
echo r x = writing (λ w. record w { body = get "X-Forwarded-For" r.header }) x

-- addresses as texts; a prefix holds the address it is
abbrev netip : Netip
netip = record {
  Addr = String;
  Prefix = String;
  parse_prefix = λ s. none;
  masked = λ p. p;
  parse_addr = λ s. some s;
  host_prefix = λ a. a;
  has_addr = λ p a. p == a;
  unmap = λ a. a;
  split_host = λ s. none;
}

abbrev proxies : TrustedProxies netip
proxies = record { prefixes = "10.0.0.1" ∷ []; everyone = false }

abbrev defaults : Sec.Config
defaults = record {
  csrf = record { enabled = none; trusted_origins = []; bypass_patterns = [] };
  headers = record {
    frame_options = none;
    content_type_options = none;
    referrer_policy = none;
    hsts = record { enabled = none; max_age = none; include_sub_domains = none; preload = false };
    content_security_policy = "";
  };
}

abbrev identity : IdentityConfig
identity = record {
  claims = [];
  groups = none;
  user_info = "auto";
  subject_claim = "sub";
  assertion = none;
}

abbrev makers : Makers (Unit {0}) (Unit {0}) (Unit {0}) Bool (Unit {0})
makers = record {
  idp_type = λ n. some "oidc";
  redirect_url = λ n. none;
  url_path = λ s. none;
  verification_only = λ i. true;
  parse_identity = λ n. some identity;
  session = λ n. none;
  provider = λ n. none;
  parse_duration = λ s. none;
  new_manager = λ s i. none;
  new_state_manager = λ s i st a d p. none;
  bearer_gate = λ i c. pass;
  assertion_gate = λ a. pass;
  issue_assertion = λ a. none;
  auth = λ n. none;
  compile = λ rs. some [];
  netip = netip;
  security = λ n. some defaults;
  protection = record {
    State = Unit {0};
    new = tt;
    add_trusted_origin = λ o st. some st;
    add_insecure_bypass_pattern = λ p st. some st;
    protect = λ st. pass;
  };
  endpoints = λ i m s a c. record { login = quiet; logout = quiet; callback = quiet; info = quiet };
  recover = pass;
  access_log = λ t. pass;
  drawn = "id";
  otel = pass;
  serve_mux = λ ms. echo;
}

abbrev libraries : Libraries Bool
libraries = record {
  urls = record { with_param = λ u n v. none; query_escape = λ s. s };
  sprint = λ v. "";
  lower = Text.to_lower;
  forward_flags = λ flag. some (flag, []);
}

abbrev registry : Registry Bool Modules
registry = ("IdP", ("oidc", λ name cfg. ok (idp_module tt)) ∷ []) ∷ []

abbrev provider : Resource Bool
provider = record {
  api_version = "hog/v2";
  kind = "IdP";
  metadata = record { name = "idp"; labels = [] };
  spec = false;
}

abbrev config : Config Bool (Unit {0})
config = record {
  gateway = record {
    listen = ":8080";
    trusted_proxies = "10.0.0.1 " ∷ [];
    security = none;
    plugins = [];
    session = none;
    identity = none;
    auth = none;
    state_provider = none;
  };
  routes = [];
  groups = [];
  request_plugins = [];
  response_plugins = [];
  idp_resources = provider ∷ [];
  telemetry = tt;
  policies = [];
}

abbrev app : App (Unit {0}) (Unit {0})
app = record {
  handler = forwarded netip proxies (Sec.headers_handler defaults.headers echo);
  idp = some tt;
  session = none;
}

parsed : parse_trusted_proxies netip ("10.0.0.1 " ∷ []) ≡ some proxies
unfolding parse_trusted_proxies String-discrete Text.trim_space Text.contains Text.has_prefix
parsed = refl

built : build makers libraries registry config ≡ ok app
unfolding build build_idp build_session build_routes R.build factory_of lookup String-discrete
    parse_trusted_proxies Text.trim_space Text.contains Text.has_prefix Sec.build
built = refl

build-verification_only_example : app.session ≡ none
build-verification_only_example =
    build-verification_only makers libraries registry config app tt built refl refl

abbrev request : Request
request = record {
  method = "GET";
  path = "/";
  uri = "/";
  pattern = "";
  host = "x";
  remote_addr = "10.0.0.9";
  header = ("X-Forwarded-For", "1.2.3.4" ∷ []) ∷ [];
  cookies = [];
  context = empty_context;
}

stranger : peer_trusted netip proxies request ≡ false
unfolding peer_trusted String-discrete
stranger = refl

same_but_forwarding :
    without_forwarding makers libraries registry request.header
    ≡ without_forwarding makers libraries registry []
unfolding del Text.canonical String-discrete Dict.erase
same_but_forwarding = refl

build_untrusted_example :
    app.handler request (record { writer = new_writer; world = tt })
    ≡ app.handler (with_header [] request) (record { writer = new_writer; world = tt })
build_untrusted_example =
    build_untrusted makers libraries registry config app proxies request []
      (record { writer = new_writer; world = tt }) built parsed stranger same_but_forwarding
