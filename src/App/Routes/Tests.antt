-- ===== src/App/Routes/Tests.antt =====
-- A route that requires auth, with two different modules behind it.
use hog.Base.Names.{NoDup}
use hog.Base.{
  String, Bool, true, none, some, List, [], ◌∷◌, ◌≡◌, refl, Result, ok, err, String-discrete,
}
use hog.Base.Text
use hog.Base.Dict.{lookup}
use hog.Base.Names
use hog.Base.Names.{NoDup}
use hog.Http.{Request, Exchange, Handler}
use hog.Session.Principal.{empty_context, from_context}
use hog.Session.Manager.{no_session}
use hog.Session.Interface.{Manager}
use hog.Chain.{Middleware}
use hog.Route.{Route, Resolved, resolve, inherit_all, add_groups}
use hog.App.Registry.{Registry, factory_of, build}
use hog.App.Plugins.{
  Module, BuildError, handler_module, build_terminal, resolve_plugins, instantiate, sort_by_order,
}
use hog.App.Routes.{Services, Libraries, handler_forwards_identity, named_policies, build_route}
use hog.App.Routes.Guarded.{build_route_unauthenticated}

abbrev no_sessions : Manager (Unit {0})
no_sessions = record {
  read = λ r w. (err no_session, w);
  issue = λ r i d t w. (none, w);
  clear = λ r w. ([], w);
}

abbrev pass : Middleware (Unit {0})
pass next = next

abbrev services : Services (Unit {0})
services = record {
  recover = pass;
  access_log = pass;
  drawn = "id";
  session = some no_sessions;
  bearer_gate = none;
  assertion_gate = none;
  issue = some pass;
  login_path = "/auth/login";
  groups_as = "groups";
  policies = [];
}

-- a handler's config is whether it forwards the identity
abbrev libraries : Libraries Bool
libraries = record {
  urls = record { with_param = λ u n v. none; query_escape = λ s. s };
  sprint = λ v. "";
  lower = Text.to_lower;
  forward_flags = λ flag. some (flag, []);
}

abbrev Modules : Type 0
Modules = Module (Unit {0}) (Unit {0}) (Unit {0})

abbrev registry : Handler (Unit {0}) → Registry Bool Modules
registry h = ("TerminalHandler", ("page", λ name cfg. ok (handler_module h)) ∷ []) ∷ []

abbrev start : Exchange (Unit {0})
start = record {
  writer = record { header = []; set_cookies = []; status = none; body = "" };
  world = tt;
}

abbrev quiet : Handler (Unit {0})
quiet r x = x

abbrev loud : Handler (Unit {0})
loud r x = start

abbrev route : Route Bool
route = record {
  name = "dash";
  labels = [];
  match = "GET /dash";
  type = "app";
  handler = record { type = "page"; config = true };
  access = record { auth = "required"; authorize = []; projection = none; on_deny = none };
}

abbrev resolved : Resolved Bool
resolved = record {
  type = "app";
  auth = "required";
  projection = none;
  authorize = [];
  on_deny = none;
}

resolve-route : resolve Text.to_lower route [] ≡ ok resolved
unfolding resolve inherit_all add_groups String-discrete Names.add_new Text.to_lower
resolve-route = refl

built : Handler (Unit {0}) → Result BuildError (Handler (Unit {0}))
built h = build_route libraries services (registry h) [] [] [] route

handler_of : Result BuildError (Handler (Unit {0})) → Handler (Unit {0})
handler_of (ok h) = h
handler_of (err e) = quiet

built-quiet : built quiet ≡ ok (handler_of (built quiet))
unfolding built handler_of build_route build_terminal build factory_of lookup resolve_plugins
    instantiate sort_by_order resolve inherit_all add_groups String-discrete Names.add_new
    Text.to_lower named_policies handler_forwards_identity
built-quiet = refl

built-loud : built loud ≡ ok (handler_of (built loud))
unfolding built handler_of build_route build_terminal build factory_of lookup resolve_plugins
    instantiate sort_by_order resolve inherit_all add_groups String-discrete Names.add_new
    Text.to_lower named_policies handler_forwards_identity
built-loud = refl

forwards : handler_forwards_identity libraries true ≡ some true
unfolding handler_forwards_identity
forwards = refl

abbrev request : Request
request = record {
  method = "GET";
  path = "/dash";
  uri = "/dash";
  pattern = "";
  host = "x";
  remote_addr = "10.0.0.2";
  header = [];
  cookies = [];
  context = empty_context;
}

anonymous : from_context empty_context ≡ none
unfolding from_context
anonymous = refl

build_route_unauthenticated_example :
    handler_of (built quiet) request start ≡ handler_of (built loud) request start
unfolding built
build_route_unauthenticated_example =
    build_route_unauthenticated libraries services no_sessions (registry quiet) (registry loud) []
      [] [] [] [] route resolved (handler_of (built quiet)) (handler_of (built loud)) request start
      built-quiet built-loud resolve-route refl refl refl (λ next next' same x. same x)
      (λ next next' same x. same x) anonymous (λ w. (no_session, refl))

abbrev mounted : List (String × Handler (Unit {0}))
mounted = ("GET /dash", handler_of (built quiet)) ∷ []
