-- ===== src/Security/Tests.antt =====
-- The default configuration.
use hog.Base.{String, false, none, some, List, [], ◌∷◌, ◌≡◌, refl, ok}
use hog.Http.{Handler, Request, Exchange}
use hog.Session.Principal.{empty_context}
use hog.Chain.{Middleware}
use hog.Security.{Config, CrossOriginProtection, headers_handler, build, HstsConfig}

abbrev cop : CrossOriginProtection (Unit {0})
cop = record {
  State = List String;
  new = [];
  add_trusted_origin = λ s st. some (s ∷ st);
  add_insecure_bypass_pattern = λ s st. some st;
  protect = λ st next. next;
}

abbrev default_hsts : HstsConfig
default_hsts = record {
  enabled = none;
  max_age = none;
  include_sub_domains = none;
  preload = false;
}

abbrev config : Config
config = record {
  csrf = record { enabled = none; trusted_origins = "https://a" ∷ []; bypass_patterns = [] };
  headers = record {
    frame_options = none;
    content_type_options = none;
    referrer_policy = none;
    hsts = default_hsts;
    content_security_policy = "";
  };
}

abbrev middleware : Middleware (Unit {0})
middleware next = headers_handler config.headers next

built : build cop config ≡ ok middleware
unfolding build
built = refl

abbrev request : Request
request = record {
  method = "GET";
  path = "/";
  uri = "/";
  pattern = "";
  host = "x";
  remote_addr = "10.0.0.2";
  header = [];
  cookies = [];
  context = empty_context;
}

abbrev start : Exchange (Unit {0})
start = record {
  writer = record { header = []; set_cookies = []; status = none; body = "" };
  world = tt;
}

quiet : Handler (Unit {0})
quiet r x = x
