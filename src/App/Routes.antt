-- ===== src/App/Routes.antt =====
-- app/build.go, `Build`: the handler of each route. The middlewares that the gateway shares are given, built or absent.
pub mod Assembly
pub mod Guarded
mod Tests
use hog.Base.{
  String, Bool, true, false, Option, none, some, List, [], ◌∷◌, ◌++◌, Result, ok, err, guard,
  or_fail, ◌>>◌, ◌>>=◌, ◌==◌, not, ◌&&◌, ◌||◌, if◌then◌else◌, is_some, any,
}
use hog.Base.Dict
use hog.Base.Dict.{Dict}
use hog.Http.{Handler}
use hog.Session.Value.{Value}
use hog.Session.Interface.{Manager}
use hog.Chain.{Middleware, Gates, compose, skeleton}
use hog.Chain.Guard.{middlewares}
use hog.Auth.Gates.{Urls, session_gate, auth_gate}
use hog.Auth.Projection.{projection_gate}
use hog.Authz.Policy.{Policy}
use hog.Authz.Gate.{gate}
use hog.Route.{Route, RouteGroup, Resolved, RouteError, resolve, redirect_of}
use hog.App.Registry.{Registry}
use hog.App.Parse.{PluginInstance}
use hog.App.Plugins.{
  Module, BuildError, bad_route, duplicate_match, unknown_policy, forwards_without_issuer,
  handler_undecodable, build_terminal, resolve_plugins,
}

-- what the loop over the routes uses of the gateway
pub record Services (World : Type 0) : Type 0 where
  pub recover : Middleware World
  pub access_log : Middleware World
  pub drawn : String  -- the request id, where a request has none
  pub session : Option (Manager World)
  pub bearer_gate : Option (Middleware World)
  pub assertion_gate : Option (Middleware World)
  pub issue : Option (Middleware World)
  pub login_path : String
  pub groups_as : String
  pub policies : Dict Policy

-- what the libraries do: net/url, `fmt.Sprint`, `strings.ToLower`, and the flags of a handler's config, `forwardIdentity`
-- and those of the backends
pub record Libraries (Node : Type 0) : Type 0 where
  pub urls : Urls
  pub sprint : Value → String
  pub lower : String → String
  pub forward_flags : Node → Option (Bool × List Bool)

-- `combine`
pub combine : {World : Type 0} → Middleware World → Middleware World → Middleware World
combine a b next = a (b next)

-- the session slot of a route of type `service`
abbrev service_slot :
    {World : Type 0}
    → Middleware World
    → Option (Middleware World)
    → Option (Middleware World)
    → Middleware World
service_slot session (some bearer) (some assertion) = combine session (combine bearer assertion)
service_slot session (some bearer) none = combine session bearer
service_slot session none (some assertion) = combine session assertion
service_slot session none none = session

-- `handlerForwardsIdentity`
pub handler_forwards_identity : {Node : Type 0} → Libraries Node → Node → Option Bool
handler_forwards_identity lib node = elim (lib.forward_flags node) [
  | none ↦ none
  | some (flag, backends) ↦ some (flag || any (λ b. b) backends)
]

-- the policies that a route names
unfoldable pub named_policies : String → Dict Policy → List String → Result BuildError (List Policy)
named_policies route compiled [] = ok []
named_policies route compiled (name ∷ names) =
    or_fail (Dict.lookup name compiled) (unknown_policy route name) >>= λ pol.
    named_policies route compiled names >>= λ pols. ok (pol ∷ pols)

module _ {World Node : Type 0} (lib : Libraries Node) (svc : Services World) where
  -- `authActive`
  abbrev pub auth_active : Bool
  auth_active = is_some svc.session || is_some svc.bearer_gate || is_some svc.assertion_gate

  abbrev pub slot : Resolved Node → Middleware World
  slot resolved =
      if resolved.type == "service"
      then service_slot (session_gate svc.session) svc.bearer_gate svc.assertion_gate
      else session_gate svc.session

  abbrev no_gates : Option (Middleware World) → Gates World
  no_gates authz = record { session = none; auth_gate = none; authz = authz; projection = none }

  abbrev pub gates : Resolved Node → Option (Middleware World) → Gates World
  gates resolved authz =
      if auth_active
      then record {
        session = some (slot resolved);
        auth_gate = some (
            auth_gate lib.urls (resolved.auth == "required") (resolved.type == "app")
              svc.login_path);
        authz = authz;
        projection = some (projection_gate lib.sprint resolved.projection svc.groups_as);
      }
      else no_gates authz

  -- `denyRedirect`
  abbrev pub deny_redirect : Resolved Node → String
  deny_redirect resolved = if resolved.type == "app" then redirect_of resolved.on_deny else ""

  abbrev pub authz_gate : Route Node → Resolved Node → List Policy → Option (Middleware World)
  authz_gate rt resolved [] = none
  authz_gate rt resolved (p ∷ ps) =
      some (gate lib.sprint (p ∷ ps) rt.name rt.labels (deny_redirect resolved))

  -- `mws = append(mws, issueMW)`, or the refusal
  pub issue_for : Route Node → Bool → Result BuildError (List (Middleware World))
  issue_for rt false = ok []
  issue_for rt true = elim svc.issue [
    | none ↦ err (forwards_without_issuer rt.name)
    | some mw ↦ ok (mw ∷ [])
  ]

  as_build : Route Node → Result RouteError (Resolved Node) → Result BuildError (Resolved Node)
  as_build rt (ok resolved) = ok resolved
  as_build rt (err e) = err (bad_route rt.name)

  -- the chain of a route, from outside in
  unfoldable pub assemble :
      Resolved Node
      → Option (Middleware World)
      → List (Middleware World)
      → Handler World
      → Handler World
  assemble resolved authz plugins terminal = compose terminal (
      middlewares (skeleton svc.recover svc.drawn svc.access_log (gates resolved authz)) ++ plugins)

  -- the body of the loop, behind the check for duplicates
  unfoldable pub build_route :
      {Idp Store : Type 0}
      → Registry Node (Module World Idp Store)
      → List (PluginInstance Node)
      → List (PluginInstance Node)
      → List (RouteGroup Node)
      → Route Node
      → Result BuildError (Handler World)
  unfolding handler_forwards_identity issue_for as_build
  build_route reg request_plugins response_plugins groups rt = build_terminal reg rt >>= λ terminal.
      resolve_plugins reg "RequestPlugin" request_plugins rt.labels >>= λ req.
      resolve_plugins reg "ResponsePlugin" response_plugins rt.labels >>= λ resp.
      as_build rt (resolve lib.lower rt groups) >>= λ resolved.
      named_policies rt.name svc.policies resolved.authorize >>= λ pols.
      or_fail (handler_forwards_identity lib rt.handler.config) (handler_undecodable rt.name)
      >>= λ forwards. issue_for rt forwards >>= λ issue.
          ok (assemble resolved (authz_gate rt resolved pols) (req ++ (resp ++ issue)) terminal)

  -- the loop over the routes: what is mounted, by pattern; `seen` maps a pattern to the route that took it
  unfoldable pub build_routes :
      {Idp Store : Type 0}
      → Registry Node (Module World Idp Store)
      → List (PluginInstance Node)
      → List (PluginInstance Node)
      → List (RouteGroup Node)
      → Dict String
      → List (Route Node)
      → Result BuildError (List (String × Handler World))
  unfolding build_route
  build_routes reg request_plugins response_plugins groups seen [] = ok []
  build_routes reg request_plugins response_plugins groups seen (rt ∷ rts) =
      guard (not (is_some (Dict.lookup rt.match seen))) (duplicate_match rt.name rt.match)
      >> (build_route reg request_plugins response_plugins groups rt >>= λ h.
          build_routes reg request_plugins response_plugins groups
            (Dict.insert rt.match rt.name seen) rts
          >>= λ rest. ok ((rt.match, h) ∷ rest))
