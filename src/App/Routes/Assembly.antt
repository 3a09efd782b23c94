-- ===== src/App/Routes/Assembly.antt =====
-- What the handler of a route is made of, and which routes are mounted.
use hog.Base.{
  String, Bool, true, false, Option, none, some, List, ◌∷◌, ◌++◌, map, Result, ok, err, or_fail,
  ◌≡◌, sym, ap, arith, bind-ok, ok-injective, is_some,
}
use hog.Base.Dict
use hog.Base.Dict.{Dict}
use hog.Http.{Handler}
use hog.Chain.{Middleware}
use hog.Authz.Policy.{Policy}
use hog.Route.{Route, RouteGroup, Resolved, RouteError, resolve}
use hog.App.Registry.{Registry}
use hog.App.Parse.{PluginInstance}
use hog.App.Plugins.{Module, BuildError, build_terminal, resolve_plugins}
use hog.App.Routes.{
  Services, Libraries, handler_forwards_identity, named_policies, authz_gate, issue_for, as_build,
  assemble, build_route, build_routes,
}

module _ {World Node Idp Store : Type 0} (lib : Libraries Node) (svc : Services World)
    (reg : Registry Node (Module World Idp Store))
    (request_plugins response_plugins : List (PluginInstance Node))
    (groups : List (RouteGroup Node)) where
  as_build-ok :
      (rt : Route Node) (m : Result RouteError (Resolved Node)) (res : Resolved Node)
      → as_build lib svc rt m ≡ ok res
      → m ≡ ok res
  unfolding as_build
  as_build-ok rt (ok a) res e = ap ok (ok-injective a res e)
  as_build-ok rt (err x) res e = absurd (ground (arith, e))

  or_fail-ok :
      {A : Type 0} (o : Option A) (x : BuildError) (a : A) → or_fail o x ≡ ok a → o ≡ some a
  or_fail-ok none x a e = absurd (ground (arith, e))
  or_fail-ok (some b) x a e = ap some (ok-injective b a e)

  -- What a route's handler is: the gateway's gates with the policies that the route names and no other, the
  -- plugins, the issuer of assertions where the handler forwards the identity, and the terminal handler.
  abbrev pub Assembled : Route Node → Handler World → Type 0
  Assembled rt h =
      (res : Resolved Node) × (pols : List Policy) × (req : List (Middleware World)) × (resp : List
        (Middleware World))
      × (issue : List (Middleware World)) × (terminal : Handler World) × (forwards : Bool)
      × (build_terminal reg rt ≡ ok terminal)
      × (resolve_plugins reg "RequestPlugin" request_plugins rt.labels ≡ ok req)
      × (resolve_plugins reg "ResponsePlugin" response_plugins rt.labels ≡ ok resp)
      × (resolve lib.lower rt groups ≡ ok res)
      × (named_policies rt.name svc.policies res.authorize ≡ ok pols)
      × (handler_forwards_identity lib rt.handler.config ≡ some forwards)
      × (issue_for lib svc rt forwards ≡ ok issue)
      × (h
          ≡ assemble lib svc res (authz_gate lib svc rt res pols) (req ++ (resp ++ issue)) terminal)

  -- The handler of a route that is built is what its parts say: the gateway's gates, with the policies that the route names,
  -- all of them known; inside them the request plugins, then the response plugins, then the issuer of assertions, just where
  -- the handler forwards the identity; and innermost the module of the route's handler.
  pub build_route-Assembled :
      (rt : Route Node) (h : Handler World)
      → build_route lib svc reg request_plugins response_plugins groups rt ≡ ok h
      → Assembled rt h
  unfolding build_route
  build_route-Assembled rt h e =
      let (terminal, e1, f1) = bind-ok (build_terminal reg rt) _ h e in
      let (req, e2, f2) =
        bind-ok (resolve_plugins reg "RequestPlugin" request_plugins rt.labels) _ h f1 in
      let (resp, e3, f3) =
        bind-ok (resolve_plugins reg "ResponsePlugin" response_plugins rt.labels) _ h f2 in
      let (res, e4, f4) = bind-ok (as_build lib svc rt (resolve lib.lower rt groups)) _ h f3 in
      let (pols, e5, f5) = bind-ok (named_policies rt.name svc.policies res.authorize) _ h f4 in
      let (forwards, e6, f6) =
        bind-ok (or_fail (handler_forwards_identity lib rt.handler.config) _) _ h f5 in
      let (issue, e7, f7) = bind-ok (issue_for lib svc rt forwards) _ h f6 in
      (
        res,
        pols,
        req,
        resp,
        issue,
        terminal,
        forwards,
        e1,
        e2,
        e3,
        as_build-ok rt _ res e4,
        e5,
        or_fail-ok _ _ forwards e6,
        e7,
        sym (ok-injective _ _ f7),
      )

  abbrev pub patterns : List (String × Handler World) → List String
  patterns mounted = map (λ m. m.0) mounted

  -- the head of a list of mounted routes
  abbrev Mounted :
      Dict String → Route Node → List (Route Node) → List (String × Handler World) → Type 0
  Mounted seen rt rts mounted =
      (h : Handler World) × (rest : List (String × Handler World)) × (mounted
        ≡ (rt.match, h) ∷ rest)
      × (is_some (Dict.lookup rt.match seen) ≡ false)
      × (build_routes lib svc reg request_plugins response_plugins groups
            (Dict.insert rt.match rt.name seen) rts
          ≡ ok rest)

  -- A route whose handler forwards the identity is refused where the gateway mints no assertions: no backend is
  -- handed an assertion that only the client can have written.
  pub build_route_forwards :
      (rt : Route Node) (h : Handler World)
      → handler_forwards_identity lib rt.handler.config ≡ some true
      → build_route lib svc reg request_plugins response_plugins groups rt ≡ ok h
      → is_some svc.issue ≡ true
  unfolding issue_for
  build_route_forwards rt h e k =
      let (res, pols, req, resp, issue, terminal, forwards, t, q, p, a, b, f, g, c) =
        build_route-Assembled rt h k in
      ground (arith, e, f, g)
