-- ===== src/App/Routes/Guarded.antt =====
-- What a client without a session gets from a route that needs one.
use hog.Base.{
  true, Option, none, some, List, [], ◌∷◌, ◌++◌, ok, err, ◌≡◌, refl, sym, ap, ◌∙◌, ok-injective,
  String-discrete,
}
use hog.Http.{Request, Exchange, Handler}
use hog.Session.Principal.{from_context}
use hog.Session.Manager.{ReadError}
use hog.Session.Interface.{Manager}
use hog.Chain.{Middleware, compose}
use hog.Chain.Guard.{HandsOn, guarded, skeleton-unauthenticated}
use hog.Auth.Projection.{projection_gate}
use hog.Route.{Route, RouteGroup, Resolved, resolve}
use hog.App.Registry.{Registry}
use hog.App.Parse.{PluginInstance}
use hog.App.Plugins.{Module}
use hog.App.Routes.{Services, Libraries, gates, assemble, build_route}
use hog.App.Routes.Assembly.{build_route-Assembled}

compose-append :
    {World : Type 0} (t : Handler World) (xs ys : List (Middleware World))
    → compose t (xs ++ ys) ≡ compose (compose t ys) xs
unfolding compose
compose-append t [] ys = refl
compose-append t (mw ∷ xs) ys = ap mw (compose-append t xs ys)

module _ {World Node : Type 0} (lib : Libraries Node) (svc : Services World)
    (m : Manager World) where
  gates-guarded :
      (res : Resolved Node) (authz : Option (Middleware World))
      → svc.session ≡ some m
      → res.auth ≡ "required"
      → res.type ≡ "app"
      → gates lib svc res authz
        ≡ guarded lib.urls true svc.login_path m authz
            (some (projection_gate lib.sprint res.projection svc.groups_as))
  unfolding String-discrete
  gates-guarded res authz e f g = rw (e, f, g) refl

  assemble-unauthenticated :
      (res : Resolved Node) (authz authz' : Option (Middleware World))
      (plugins plugins' : List (Middleware World)) (terminal terminal' : Handler World)
      (r : Request) (x : Exchange World)
      → svc.session ≡ some m
      → res.auth ≡ "required"
      → res.type ≡ "app"
      → HandsOn svc.recover r
      → HandsOn svc.access_log r
      → from_context r.context ≡ none
      → ((w : World) → (why : ReadError) × ((m.read r w).0 ≡ err why))
      → assemble lib svc res authz plugins terminal r x
        ≡ assemble lib svc res authz' plugins' terminal' r x
  unfolding assemble
  assemble-unauthenticated res authz authz' plugins plugins' terminal terminal' r x e f g on on'
        anonymous refused =
      let projection = some (projection_gate lib.sprint res.projection svc.groups_as) in
      rw
        (
          compose-append,
          compose-append,
          gates-guarded res authz e f g,
          gates-guarded res authz' e f g,
        )
        (skeleton-unauthenticated lib.urls true svc.login_path m svc.recover svc.access_log
          svc.drawn authz authz' projection projection (compose terminal plugins)
          (compose terminal' plugins') r x on on' anonymous refused)

  -- At a gateway with a session, a request without one is answered by the gates alone, at a route of type `app` that
  -- requires auth: the answer is the same with other modules and plugins behind the gates; if the middlewares that recover
  -- and log hand the request on as it is, it has no principal yet, and the session cannot be read.
  pub build_route_unauthenticated :
      {Idp Store : Type 0} (reg reg' : Registry Node (Module World Idp Store))
      (req req' resp resp' : List (PluginInstance Node)) (groups : List (RouteGroup Node))
      (rt : Route Node) (res : Resolved Node) (h h' : Handler World) (r : Request)
      (x : Exchange World)
      → build_route lib svc reg req resp groups rt ≡ ok h
      → build_route lib svc reg' req' resp' groups rt ≡ ok h'
      → resolve lib.lower rt groups ≡ ok res
      → svc.session ≡ some m
      → res.auth ≡ "required"
      → res.type ≡ "app"
      → HandsOn svc.recover r
      → HandsOn svc.access_log r
      → from_context r.context ≡ none
      → ((w : World) → (why : ReadError) × ((m.read r w).0 ≡ err why))
      → h r x ≡ h' r x
  build_route_unauthenticated reg reg' req req' resp resp' groups rt res h h' r x b b' s e f g on
        on' anonymous refused =
      let (res1, _, _, _, _, t, _, _, _, _, s1, _, _, _, eq) =
        build_route-Assembled lib svc reg req resp groups rt h b in
      let (res2, _, _, _, _, t', _, _, _, _, s2, _, _, _, eq') =
        build_route-Assembled lib svc reg' req' resp' groups rt h' b' in
      let same : res1 ≡ res = ok-injective _ _ (sym s1 ∙ s) in
      let same' : res2 ≡ res = ok-injective _ _ (sym s2 ∙ s) in
      rw (eq, eq', same, same')
        (assemble-unauthenticated res _ _ _ _ t t' r x e f g on on' anonymous refused)
