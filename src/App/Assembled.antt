-- ===== src/App/Assembled.antt =====
-- app/build.go, `Build`: the gateway from its configuration, with buildIdP, buildSession and callbackPath. The edge layers
-- are those of chain/forwarded.go and security/security.go; the other packages that the function calls are handed to it as
-- `Makers`; what it logs, and the span of otelhttp, are left out.
pub mod Parts
mod Tests
use hog.Base.{
  String, Bool, true, false, Option, none, some, List, [], ◌∷◌, ◌++◌, Result, ok, err, guard,
  or_fail, ◌>>◌, ◌>>=◌, ◌<>◌, ◌==◌, not, ◌&&◌, if◌then◌else◌, is_some,
}
use hog.Base.Dict
use hog.Base.Dict.{Dict}
use hog.Http.{Handler}
use hog.Config.{Resource}
use hog.Session.Identity.{
  IdentityConfig, AssertionConfig, AssertionIssueConfig, AssertionAcceptConfig, or_default,
}
use hog.Session.Passport.{GroupsConfig}
use hog.Session.Interface.{Manager}
use hog.Session.Settings as S
use hog.Chain.{Middleware}
use hog.Chain.Forwarded.{Netip, parse_trusted_proxies, forwarded}
use hog.Security as Sec
use hog.Authz.Policy.{Policy}
use hog.App.Registry.{Registry}
use hog.App.Registry as R
use hog.App.Gateway.{Settings}
use hog.App.Parse.{Config}
use hog.App.Plugins.{
  Module, idp_module, store_module, BuildError, factory_failed, not_of_interface, idp_undecodable,
  idp_type_required, bad_policies, bad_proxies, bad_identity, bad_session, bad_auth, bad_security,
  too_many_idps, verification_only_session, provider_without_session,
}
use hog.App.Routes.{Services, Libraries, build_routes}

-- `auth.Config`
pub record AuthConfig : Type 0 where
  pub login_path : String
  pub logout_path : String

-- the endpoints of `auth.NewHandlers`, and `session.InfoHandler`
pub record Endpoints (World : Type 0) : Type 0 where
  pub login : Handler World
  pub logout : Handler World
  pub callback : Handler World
  pub info : Handler World

-- What `Build` is made of: the decoders of the blocks, and the constructors of the other packages, none where they
-- fail; `endpoints` cannot, since the session's key has its size.
pub record Makers (World Idp Store Node Telemetry : Type 0) : Type 1 where
  pub idp_type : Node → Option String
  pub redirect_url : Node → Option String
  pub url_path : String → Option String
  pub verification_only : Idp → Bool
  pub parse_identity : Option Node → Option IdentityConfig
  pub session : Node → Option S.RawConfig
  pub provider : Node → Option (S.RawStateProvider Node)
  pub parse_duration : String → Option S.Duration
  pub new_manager : S.Settings → IdentityConfig → Option (Manager World)
  pub new_state_manager :
      S.Settings
      → IdentityConfig
      → Store
      → Option Idp
      → S.Duration
      → String
      → Option (Manager World)
  pub bearer_gate : Idp → IdentityConfig → Middleware World
  pub assertion_gate : AssertionAcceptConfig → Middleware World
  pub issue_assertion : AssertionIssueConfig → Option (Middleware World)
  pub auth : Option Node → Option AuthConfig
  pub compile : List (Resource Node) → Option (Dict Policy)
  pub netip : Netip
  pub security : Option Node → Option Sec.Config
  pub protection : Sec.CrossOriginProtection World
  pub endpoints : Idp → Manager World → S.Settings → AuthConfig → IdentityConfig → Endpoints World
  pub recover : Middleware World
  pub access_log : Telemetry → Middleware World
  pub drawn : String
  pub otel : Middleware World
  pub serve_mux : List (String × Handler World) → Handler World

-- `App`
pub record App (World Idp : Type 0) : Type 0 where
  pub handler : Handler World
  pub idp : Option Idp
  pub session : Option (Manager World)

default_callback : String
default_callback = "/auth/callback"

path_or_default : Option String → String
unfolding default_callback
path_or_default none = default_callback
path_or_default (some p) = or_default p default_callback

module _ {World Idp Store Node Telemetry : Type 0} (mk : Makers World Idp Store Node Telemetry)
    (lib : Libraries Node) (reg : Registry Node (Module World Idp Store)) where
  -- `callbackPath`
  pub callback_path : List (Resource Node) → String
  unfolding path_or_default default_callback
  callback_path (r ∷ []) = elim (mk.redirect_url r.spec) [
    | none ↦ default_callback
    | some url ↦ if url == "" then default_callback else path_or_default (mk.url_path url)
  ]
  callback_path [] = default_callback
  callback_path (_ ∷ _ ∷ _) = default_callback

  as_idp : String → Result String (Module World Idp Store) → Result BuildError (Option Idp)
  as_idp name (ok (idp_module i)) = ok (some i)
  as_idp name (ok _) = err (not_of_interface name "IdP")
  as_idp name (err e) = err (factory_failed name e)

  -- `buildIdP`
  unfoldable pub build_idp : List (Resource Node) → Result BuildError (Option Idp)
  unfolding as_idp
  build_idp [] = ok none
  build_idp (r ∷ []) = or_fail (mk.idp_type r.spec) idp_undecodable >>= λ type.
      guard (not (type == "")) idp_type_required
      >> as_idp r.metadata.name (R.build reg "IdP" type r.spec)
  build_idp (_ ∷ _ ∷ _) = err too_many_idps

  in_session : {A : Type 0} → Result S.SettingsError A → Result BuildError A
  in_session (ok a) = ok a
  in_session (err e) = err bad_session

  as_store : String → Result String (Module World Idp Store) → Result BuildError Store
  as_store name (ok (store_module s)) = ok s
  as_store name (ok _) = err (not_of_interface name "StateProvider")
  as_store name (err e) = err (factory_failed name e)

  -- the managers of `buildSession`, by whether there is a stateProvider block
  manager_for :
      Option Node → S.Settings → IdentityConfig → Option Idp → Result BuildError (Manager World)
  unfolding in_session as_store
  manager_for none cfg ids active = or_fail (mk.new_manager cfg ids) bad_session
  manager_for (some node) cfg ids active = or_fail (mk.provider node) bad_session >>= λ raw.
      in_session (S.parse_state_provider mk.parse_duration raw) >>= λ spc.
      as_store spc.type (R.build reg "StateProvider" spc.type spc.config) >>= λ store.
      or_fail (mk.new_state_manager cfg ids store active spc.refresh_skew spc.key_prefix)
        bad_session

  -- `buildSession`
  unfoldable pub build_session :
      Settings Node
      → IdentityConfig
      → Option Idp
      → Result BuildError (Option (Manager World × S.Settings))
  unfolding manager_for in_session
  build_session g ids active = elim g.session [
    | none ↦ guard (not (is_some g.state_provider)) provider_without_session >> ok none
    | some node ↦ or_fail (mk.session node) bad_session >>= λ raw.
        in_session (S.from_yaml mk.parse_duration raw) >>= λ cfg.
        manager_for g.state_provider cfg ids active >>= λ m. ok (some (m, cfg))
  ]

  abbrev pub manager_of : Option (Manager World × S.Settings) → Option (Manager World)
  manager_of none = none
  manager_of (some (m, cfg)) = some m

  abbrev pub is_verification_only : Option Idp → Bool
  is_verification_only none = false
  is_verification_only (some i) = mk.verification_only i

  -- `auth.FromYAML` where there is a session, and the login path
  auth_config : Option (Manager World × S.Settings) → Option Node → Result BuildError AuthConfig
  auth_config none block = ok (record { login_path = "/auth/login"; logout_path = "" })
  auth_config (some sess) block = or_fail (mk.auth block) bad_auth

  accept_gate : Option AssertionConfig → Option (Middleware World)
  accept_gate none = none
  accept_gate (some a) = elim a.accept [ none ↦ none | some acc ↦ some (mk.assertion_gate acc) ]

  issue_middleware : Option AssertionConfig → Result BuildError (Option (Middleware World))
  issue_middleware none = ok none
  issue_middleware (some a) = elim a.issue [
    | none ↦ ok none
    | some is ↦ or_fail (mk.issue_assertion is) bad_identity >>= λ mw. ok (some mw)
  ]

  groups_name : Option GroupsConfig → String
  groups_name none = "groups"
  groups_name (some g) = or_default g.as_name "groups"

  -- the endpoints of the sign-in, where there is an IdP and a session
  unfoldable pub endpoint_routes :
      Option Idp
      → Option (Manager World × S.Settings)
      → AuthConfig
      → IdentityConfig
      → List (Resource Node)
      → List (String × Handler World)
  unfolding callback_path
  endpoint_routes (some active) (some (m, cfg)) auth ids resources =
      let h = mk.endpoints active m cfg auth ids in
      (auth.login_path, h.login)
      ∷ ("POST " <> auth.logout_path, h.logout)
      ∷ (callback_path resources, h.callback)
      ∷ (cfg.info_path, h.info)
      ∷ []
  endpoint_routes none sess auth ids resources = []
  endpoint_routes (some active) none auth ids resources = []

  -- the services of the loop over the routes
  pub services_of :
      Config Node Telemetry
      → Option Idp
      → IdentityConfig
      → Option (Manager World × S.Settings)
      → Option (Middleware World)
      → AuthConfig
      → Dict Policy
      → Services World
  unfolding accept_gate groups_name
  services_of cfg active ids sess issue auth policies = record {
    recover = mk.recover;
    access_log = mk.access_log cfg.telemetry;
    drawn = mk.drawn;
    session = manager_of sess;
    bearer_gate = elim active [ none ↦ none | some i ↦ some (mk.bearer_gate i ids) ];
    assertion_gate = accept_gate ids.assertion;
    issue = issue;
    login_path = auth.login_path;
    groups_as = groups_name ids.groups;
    policies = policies;
  }

  in_security : {A : Type 0} → Result Sec.SecurityError A → Result BuildError A
  in_security (ok a) = ok a
  in_security (err e) = err bad_security

  -- the end of `Build`: the edge layers, the routes, and the endpoints
  pub mount :
      Config Node Telemetry
      → Option Idp
      → IdentityConfig
      → Option (Manager World × S.Settings)
      → Services World
      → AuthConfig
      → Result BuildError (App World Idp)
  unfolding in_security
  mount cfg active ids sess services auth =
      or_fail (parse_trusted_proxies mk.netip cfg.gateway.trusted_proxies) bad_proxies
      >>= λ trusted. or_fail (mk.security cfg.gateway.security) bad_security >>= λ sec.
          in_security (Sec.build mk.protection sec) >>= λ security.
          build_routes lib services reg cfg.request_plugins cfg.response_plugins cfg.groups []
            cfg.routes
          >>= λ mounted. ok (record {
            handler = forwarded mk.netip trusted (
                security (
                  mk.otel (
                    mk.serve_mux
                      (mounted ++ endpoint_routes active sess auth ids cfg.idp_resources))));
            idp = active;
            session = manager_of sess;
          })

  -- what stands between: the issuer of assertions, the auth block and the policies
  pub gather :
      Config Node Telemetry
      → Option Idp
      → IdentityConfig
      → Option (Manager World × S.Settings)
      → Result BuildError (App World Idp)
  unfolding issue_middleware auth_config
  gather cfg active ids sess = issue_middleware ids.assertion >>= λ issue.
      auth_config sess cfg.gateway.auth >>= λ auth.
      or_fail (mk.compile cfg.policies) bad_policies >>= λ policies.
      mount cfg active ids sess (services_of cfg active ids sess issue auth policies) auth

  -- `Build`
  unfoldable pub build : Config Node Telemetry → Result BuildError (App World Idp)
  unfolding gather mount
  build cfg = build_idp cfg.idp_resources >>= λ active.
      or_fail (mk.parse_identity cfg.gateway.identity) bad_identity >>= λ ids.
      build_session cfg.gateway ids active >>= λ sess.
      guard (not (is_some sess && is_verification_only active)) verification_only_session
      >> gather cfg active ids sess
