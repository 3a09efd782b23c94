-- ===== src/App/Plugins.antt =====
-- app/build.go: the modules that a route is made of, its terminal handler and its plugins.
pub mod Ordered
use hog.Base.{
  String, ℕ, ◌≤◌, Bool, true, false, Option, none, some, List, [], ◌∷◌, Result, ok, err, ◌>>=◌, leb,
  ltb, ◌==◌, if◌then◌else◌, select, map,
}
use hog.Base.Dict.{Dict}
use hog.Http.{Handler}
use hog.Chain.{Middleware}
use hog.Selector.{matches}
use hog.Route.{Route}
use hog.App.Registry.{Registry, build}
use hog.App.Parse.{PluginInstance}

-- What a factory makes, by the interface that it satisfies.
pub data Module (World Idp Store : Type 0) : Type 0 where
  handler_module : Handler World → Module World Idp Store
  middleware_module : Middleware World → Module World Idp Store
  idp_module : Idp → Module World Idp Store
  store_module : Store → Module World Idp Store
  other_module : Module World Idp Store

-- why a gateway is not built
pub data BuildError : Type 0 where
  factory_failed not_of_interface : String → String → BuildError
  duplicate_match unknown_policy : String → String → BuildError
  forwards_without_issuer handler_undecodable bad_route : String → BuildError
  idp_undecodable idp_type_required bad_policies bad_proxies bad_identity bad_session bad_auth
        bad_security :
      BuildError
  too_many_idps verification_only_session provider_without_session : BuildError

module _ {World Idp Store Node : Type 0} (reg : Registry Node (Module World Idp Store)) where
  as_handler :
      Route Node → Result String (Module World Idp Store) → Result BuildError (Handler World)
  as_handler rt (ok (handler_module h)) = ok h
  as_handler rt (ok _) = err (not_of_interface rt.name rt.handler.type)
  as_handler rt (err e) = err (factory_failed rt.name e)

  -- `buildTerminal`
  unfoldable pub build_terminal : Route Node → Result BuildError (Handler World)
  unfolding as_handler
  build_terminal rt = as_handler rt (build reg "TerminalHandler" rt.handler.type rt.handler.config)

  as_middleware :
      PluginInstance Node
      → Result String (Module World Idp Store)
      → Result BuildError (Middleware World)
  as_middleware pi (ok (middleware_module mw)) = ok mw
  as_middleware pi (ok _) = err (not_of_interface pi.name pi.type)
  as_middleware pi (err e) = err (factory_failed pi.name e)

  -- the loop that instantiates the plugins
  unfoldable pub instantiate :
      String → List (PluginInstance Node) → Result BuildError (List (Middleware World))
  unfolding as_middleware
  instantiate kind [] = ok []
  instantiate kind (pi ∷ pis) = as_middleware pi (build reg kind pi.type pi.config) >>= λ mw.
      instantiate kind pis >>= λ mws. ok (mw ∷ mws)

-- `sort.Slice` by document order, as insertion sort
unfoldable pub insert_by_order :
    {Node : Type 0} → PluginInstance Node → List (PluginInstance Node) → List (PluginInstance Node)
insert_by_order pi [] = pi ∷ []
insert_by_order pi (p ∷ ps) =
    let rest = insert_by_order pi ps in if ltb p.order pi.order then p ∷ rest else pi ∷ p ∷ ps

unfoldable pub sort_by_order :
    {Node : Type 0} → List (PluginInstance Node) → List (PluginInstance Node)
unfolding insert_by_order
sort_by_order [] = []
sort_by_order (p ∷ ps) = insert_by_order p (sort_by_order ps)

-- `resolvePlugins`
unfoldable pub resolve_plugins :
    {World Idp Store Node : Type 0}
    → Registry Node (Module World Idp Store)
    → String
    → List (PluginInstance Node)
    → Dict String
    → Result BuildError (List (Middleware World))
unfolding instantiate sort_by_order
resolve_plugins reg kind plugins labels =
    instantiate reg kind (sort_by_order (select (λ pi. matches pi.selector labels) plugins))
