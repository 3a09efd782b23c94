-- ===== src/App/Assembled/Parts.antt =====
-- app/build.go: the parts of a gateway that is built, and its edge.
use hog.Base.{
  String, true, false, Result, err, ◌∙◌, Option, none, some, List, [], ◌++◌, ok, guard, or_fail,
  ◌≡◌, refl, sym, ap, arith, bind-ok, ok-injective, not, ◌&&◌, is_some,
}
use hog.Http.{Request, Header, Exchange, Handler, with_header, del}
use hog.Session.Identity.{IdentityConfig}
use hog.Session.Interface.{Manager}
use hog.Session.Settings as S
use mathlib.Core.Option.{some-injective}
use hog.Chain.{Middleware}
use hog.Chain.Forwarded.{TrustedProxies, parse_trusted_proxies, peer_trusted, forwarded, del_all}
use hog.Security as Sec
use hog.App.Registry.{Registry}
use hog.App.Parse.{Config}
use hog.App.Plugins.{
  Module, BuildError, bad_proxies, bad_security, bad_identity, bad_policies,
  verification_only_session,
}
use hog.App.Routes.{Services, Libraries, build_routes}
use hog.App.Assembled.{
  AuthConfig, Makers, App, build_idp, build_session, manager_of, is_verification_only,
  endpoint_routes, services_of, issue_middleware, auth_config, in_security, mount, gather, build,
}

or_fail-some :
    {A : Type 0} (o : Option A) (x : BuildError) (a : A) → or_fail o x ≡ ok a → o ≡ some a
or_fail-some none x a e = absurd (ground (arith, e))
or_fail-some (some b) x a e = ap some (ok-injective b a e)

module _ {World Idp Store Node Telemetry : Type 0} (mk : Makers World Idp Store Node Telemetry)
    (lib : Libraries Node) (reg : Registry Node (Module World Idp Store)) where
  -- the parts: the provider, the session, the edge layers, and what is mounted
  abbrev pub Parts : Config Node Telemetry → App World Idp → Type 0
  Parts cfg app =
      (active : Option Idp) × (sess : Option (Manager World × S.Settings)) × (ids : IdentityConfig)
      × (auth : AuthConfig) × (services : Services World) × (mounted : List
          (String × Handler World))
      × (trusted : TrustedProxies mk.netip) × (sec : Sec.Config) × (security : Middleware World)
      × (build_idp mk lib reg cfg.idp_resources ≡ ok active)
      × (build_session mk lib reg cfg.gateway ids active ≡ ok sess)
      × ((is_some sess && is_verification_only mk lib reg active) ≡ false)
      × (parse_trusted_proxies mk.netip cfg.gateway.trusted_proxies ≡ some trusted)
      × (mk.security cfg.gateway.security ≡ some sec)
      × (Sec.build mk.protection sec ≡ ok security)
      × (build_routes lib services reg cfg.request_plugins cfg.response_plugins cfg.groups []
            cfg.routes
          ≡ ok mounted)
      × (services.session ≡ manager_of mk lib reg sess)
      × (app.idp ≡ active)
      × (app.session ≡ manager_of mk lib reg sess)
      × (app.handler
          ≡ forwarded mk.netip trusted (
              security (
                mk.otel (
                  mk.serve_mux (
                    mounted
                    ++ endpoint_routes mk lib reg active sess auth ids cfg.idp_resources)))))

  -- what `mount` makes of its arguments
  abbrev Mounted :
      Config Node Telemetry
      → Option Idp
      → IdentityConfig
      → Option (Manager World × S.Settings)
      → Services World
      → AuthConfig
      → App World Idp
      → Type 0
  Mounted cfg active ids sess services auth app =
      (mounted : List (String × Handler World)) × (trusted : TrustedProxies mk.netip)
      × (sec : Sec.Config) × (security : Middleware World) × (parse_trusted_proxies mk.netip
            cfg.gateway.trusted_proxies
          ≡ some trusted)
      × (mk.security cfg.gateway.security ≡ some sec)
      × (Sec.build mk.protection sec ≡ ok security)
      × (build_routes lib services reg cfg.request_plugins cfg.response_plugins cfg.groups []
            cfg.routes
          ≡ ok mounted)
      × (app.idp ≡ active)
      × (app.session ≡ manager_of mk lib reg sess)
      × (app.handler
          ≡ forwarded mk.netip trusted (
              security (
                mk.otel (
                  mk.serve_mux (
                    mounted
                    ++ endpoint_routes mk lib reg active sess auth ids cfg.idp_resources)))))

  in_security-ok :
      (m : Result Sec.SecurityError (Middleware World)) (mw : Middleware World)
      → in_security mk lib reg m ≡ ok mw
      → m ≡ ok mw
  unfolding in_security
  in_security-ok (ok a) mw e = ap ok (ok-injective a mw e)
  in_security-ok (err x) mw e = absurd (ground (arith, e))

  mount-Mounted :
      (cfg : Config Node Telemetry) (active : Option Idp) (ids : IdentityConfig)
      (sess : Option (Manager World × S.Settings)) (services : Services World) (auth : AuthConfig)
      (app : App World Idp)
      → mount mk lib reg cfg active ids sess services auth ≡ ok app
      → Mounted cfg active ids sess services auth app
  unfolding mount
  mount-Mounted cfg active ids sess services auth app e =
      let (trusted, e1, f1) =
        bind-ok (or_fail (parse_trusted_proxies mk.netip cfg.gateway.trusted_proxies) bad_proxies) _
          app e in
      let (sec, e2, f1') =
        bind-ok (or_fail (mk.security cfg.gateway.security) bad_security) _ app f1 in
      let (security, e2', f2) =
        bind-ok (in_security mk lib reg (Sec.build mk.protection sec)) _ app f1' in
      let (mounted, e3, f3) =
        bind-ok
          (build_routes lib services reg cfg.request_plugins cfg.response_plugins cfg.groups []
            cfg.routes)
          _ app f2 in
      (
        mounted,
        trusted,
        sec,
        security,
        or_fail-some _ _ trusted e1,
        or_fail-some _ _ sec e2,
        in_security-ok _ security e2',
        e3,
        sym (ap (λ a. a.idp) (ok-injective _ app f3)),
        sym (ap (λ a. a.session) (ok-injective _ app f3)),
        sym (ap (λ a. a.handler) (ok-injective _ app f3)),
      )

  -- the services and the auth block of `gather`
  abbrev Gathered :
      Config Node Telemetry
      → Option Idp
      → IdentityConfig
      → Option (Manager World × S.Settings)
      → App World Idp
      → Type 0
  Gathered cfg active ids sess app =
      (services : Services World) × (auth : AuthConfig) × (services.session
        ≡ manager_of mk lib reg sess)
      × (mount mk lib reg cfg active ids sess services auth ≡ ok app)

  gather-Gathered :
      (cfg : Config Node Telemetry) (active : Option Idp) (ids : IdentityConfig)
      (sess : Option (Manager World × S.Settings)) (app : App World Idp)
      → gather mk lib reg cfg active ids sess ≡ ok app
      → Gathered cfg active ids sess app
  unfolding gather services_of
  gather-Gathered cfg active ids sess app e =
      let (issue, e1, f1) = bind-ok (issue_middleware mk lib reg ids.assertion) _ app e in
      let (auth, e2, f2) = bind-ok (auth_config mk lib reg sess cfg.gateway.auth) _ app f1 in
      let (policies, e3, f3) = bind-ok (or_fail (mk.compile cfg.policies) bad_policies) _ app f2 in
      (services_of mk lib reg cfg active ids sess issue auth policies, auth, refl, f3)

  pub build-Parts :
      (cfg : Config Node Telemetry) (app : App World Idp)
      → build mk lib reg cfg ≡ ok app
      → Parts cfg app
  unfolding build
  build-Parts cfg app e =
      let (active, e1, f1) = bind-ok (build_idp mk lib reg cfg.idp_resources) _ app e in
      let (ids, e2, f2) =
        bind-ok (or_fail (mk.parse_identity cfg.gateway.identity) bad_identity) _ app f1 in
      let (sess, e3, f3) = bind-ok (build_session mk lib reg cfg.gateway ids active) _ app f2 in
      let (u, e4, f4) =
        bind-ok
          (guard (not (is_some sess && is_verification_only mk lib reg active))
            verification_only_session)
          _ app f3 in
      let (services, auth, same, g) = gather-Gathered cfg active ids sess app f4 in
      let (mounted, trusted, sec, security, k1, k2, k2', k3, k0, k4, k5) =
        mount-Mounted cfg active ids sess services auth app g in
      (
        active,
        sess,
        ids,
        auth,
        services,
        mounted,
        trusted,
        sec,
        security,
        e1,
        e3,
        ground (arith, e4),
        k1,
        k2,
        k2',
        k3,
        same,
        k0,
        k4,
        k5,
      )

  -- A gateway that is built has no session where its identity provider only verifies tokens.
  pub build-verification_only :
      (cfg : Config Node Telemetry) (app : App World Idp) (idp : Idp)
      → build mk lib reg cfg ≡ ok app
      → app.idp ≡ some idp
      → mk.verification_only idp ≡ true
      → app.session ≡ none
  build-verification_only cfg app idp e named only =
      let (active, sess, _, _, _, _, _, _, _, _, _, apart, _, _, _, _, _, its_idp, its_session, _) =
        build-Parts cfg app e in
      let verifies : is_verification_only mk lib reg active ≡ true =
        ap (is_verification_only mk lib reg) (sym its_idp ∙ named) ∙ only in
      its_session ∙ no_session sess (ground (arith, apart, verifies))
    where
      no_session :
          (sess : Option (Manager World × S.Settings))
          → is_some sess ≡ false
          → manager_of mk lib reg sess ≡ none
      no_session none h = refl
      no_session (some s) h = absurd (ground (arith, h))

  -- the header without what proxies set
  abbrev pub without_forwarding : Header → Header
  without_forwarding h = del "Forwarded" (
      del "X-Real-Ip" (
        del "X-Forwarded-Port"
          (del "X-Forwarded-Host" (del "X-Forwarded-Proto" (del "X-Forwarded-For" h)))))

  -- Whatever an untrusted peer writes into X-Forwarded-For, X-Forwarded-Proto, X-Forwarded-Host, X-Forwarded-Port,
  -- X-Real-Ip and Forwarded changes nothing of what a gateway that is built answers and does, at the routes and at the
  -- endpoints of the sign-in alike, the security middleware and the tracing included.
  pub build_untrusted :
      (cfg : Config Node Telemetry) (app : App World Idp) (trusted : TrustedProxies mk.netip)
      (r : Request) (h : Header) (x : Exchange World)
      → build mk lib reg cfg ≡ ok app
      → parse_trusted_proxies mk.netip cfg.gateway.trusted_proxies ≡ some trusted
      → peer_trusted mk.netip trusted r ≡ false
      → without_forwarding r.header ≡ without_forwarding h
      → app.handler r x ≡ app.handler (with_header h r) x
  unfolding forwarded del_all peer_trusted
  build_untrusted cfg app trusted r h x e parsed untrusted same =
      let (_, _, _, _, _, _, tp, _, _, _, _, _, parsed', _, _, _, _, _, _, made) =
        build-Parts cfg app e in
      let its : tp ≡ trusted = some-injective _ _ (sym parsed' ∙ parsed) in
      let stranger : peer_trusted mk.netip tp r ≡ false =
        ap (λ t. peer_trusted mk.netip t r) its ∙ untrusted in
      rw made (rw (stranger, same) refl)
