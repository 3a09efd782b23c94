-- ===== src/App/Parse.antt =====
-- app/build.go, `Parse`: the resources of a configuration, by kind. What YAML decodes, and the Telemetry resource, are
-- parameters.
pub mod Kinds
pub mod Order
mod Tests
use hog.Base.{
  String, ℕ, zero, suc, Bool, true, false, Option, none, some, List, [], ◌∷◌, ◌++◌, Result, ok, err,
  guard, or_fail, ◌>>◌, ◌>>=◌, ◌==◌, not, ◌||◌, if◌then◌else◌, is_some,
}
use hog.Config.{
  Resource, Kind, gateway, route, route_group, request_plugin, response_plugin, idp, policy,
  telemetry, unknown, kind_of,
}
use hog.Selector.{Selector}
use hog.Route.{Route, RouteGroup, RouteSpec, GroupSpec, RouteError, parse_route, parse_group}
use hog.App.Gateway.{Settings, GatewayError, from_resource}

-- `pluginSpec`
pub record PluginSpec (Node : Type 0) : Type 0 where
  pub type : String
  pub selector : Selector
  pub config : Node

-- `PluginInstance`
pub record PluginInstance (Node : Type 0) : Type 0 where
  pub name : String
  pub type : String
  pub selector : Selector
  pub config : Node
  pub order : ℕ

pub data ParseError : Type 0 where
  duplicate_gateway duplicate_telemetry plugin_undecodable plugin_type_required bad_telemetry :
      String → ParseError
  unknown_kind : String → String → ParseError
  no_gateway : ParseError
  in_gateway : GatewayError → ParseError
  in_route : RouteError → ParseError

-- what decodes the specs, and `telemetry.FromResource` with `telemetry.Default`
pub record Decode (Node Telemetry : Type 0) : Type 0 where
  pub settings : Node → Option (Settings Node)
  pub route : Node → Option (RouteSpec Node)
  pub group : Node → Option (GroupSpec Node)
  pub plugin : Node → Option (PluginSpec Node)
  pub telemetry : Resource Node → Option Telemetry
  pub default_telemetry : Telemetry

-- `Config`, where `gateway` and `telemetry` are none as long as none was seen
pub record Parsed (Node Telemetry : Type 0) : Type 0 where
  pub gateway : Option (Settings Node)
  pub routes : List (Route Node)
  pub groups : List (RouteGroup Node)
  pub request_plugins : List (PluginInstance Node)
  pub response_plugins : List (PluginInstance Node)
  pub idp_resources : List (Resource Node)
  pub telemetry : Option Telemetry
  pub policies : List (Resource Node)

-- `Config`
pub record Config (Node Telemetry : Type 0) : Type 0 where
  pub gateway : Settings Node
  pub routes : List (Route Node)
  pub groups : List (RouteGroup Node)
  pub request_plugins : List (PluginInstance Node)
  pub response_plugins : List (PluginInstance Node)
  pub idp_resources : List (Resource Node)
  pub telemetry : Telemetry
  pub policies : List (Resource Node)

abbrev pub within {ℓ} :
    {E : Type 0} {A : Type ℓ} → (E → ParseError) → Result E A → Result ParseError A
within f (ok a) = ok a
within f (err e) = err (f e)

abbrev or_else {ℓ} : {A : Type ℓ} → Option A → A → A
or_else none d = d
or_else (some a) d = a

module _ {Node Telemetry : Type 0} (decode : Decode Node Telemetry) where
  -- `parsePlugin`
  pub parse_plugin : Resource Node → ℕ → Result ParseError (PluginInstance Node)
  parse_plugin r order =
      or_fail (decode.plugin r.spec) (plugin_undecodable r.metadata.name) >>= λ s.
      guard (not (s.type == "")) (plugin_type_required r.metadata.name)
      >> ok (record {
        name = r.metadata.name;
        type = s.type;
        selector = s.selector;
        config = s.config;
        order = order;
      })

  -- the `switch`
  unfoldable pub parse_kind :
      Kind → ℕ → Resource Node → Parsed Node Telemetry → Result ParseError (Parsed Node Telemetry)
  unfolding parse_plugin
  parse_kind gateway i r cfg =
      guard (not (is_some cfg.gateway)) (duplicate_gateway r.metadata.name)
      >> (within in_gateway (from_resource decode.settings r) >>= λ g.
          ok (record cfg { gateway = some g }))
  parse_kind route i r cfg = within in_route (parse_route decode.route r) >>= λ rt.
      ok (record cfg { routes = cfg.routes ++ (rt ∷ []) })
  parse_kind route_group i r cfg = within in_route (parse_group decode.group r) >>= λ g.
      ok (record cfg { groups = cfg.groups ++ (g ∷ []) })
  parse_kind request_plugin i r cfg = parse_plugin r i >>= λ pi.
      ok (record cfg { request_plugins = cfg.request_plugins ++ (pi ∷ []) })
  parse_kind response_plugin i r cfg = parse_plugin r i >>= λ pi.
      ok (record cfg { response_plugins = cfg.response_plugins ++ (pi ∷ []) })
  parse_kind idp i r cfg = ok (record cfg { idp_resources = cfg.idp_resources ++ (r ∷ []) })
  parse_kind policy i r cfg = ok (record cfg { policies = cfg.policies ++ (r ∷ []) })
  parse_kind telemetry i r cfg =
      guard (not (is_some cfg.telemetry)) (duplicate_telemetry r.metadata.name)
      >> (or_fail (decode.telemetry r) (bad_telemetry r.metadata.name) >>= λ t.
          ok (record cfg { telemetry = some t }))
  parse_kind unknown i r cfg = err (unknown_kind r.kind r.metadata.name)

  -- the loop over the resources
  unfoldable pub parse_all :
      ℕ → List (Resource Node) → Parsed Node Telemetry → Result ParseError (Parsed Node Telemetry)
  unfolding parse_kind
  parse_all i [] cfg = ok cfg
  parse_all i (r ∷ rs) cfg =
      parse_kind (kind_of r.kind) i r cfg >>= λ cfg'. parse_all (suc i) rs cfg'

  abbrev pub nothing_parsed : Parsed Node Telemetry
  nothing_parsed = record {
    gateway = none;
    routes = [];
    groups = [];
    request_plugins = [];
    response_plugins = [];
    idp_resources = [];
    telemetry = none;
    policies = [];
  }

  finish : Parsed Node Telemetry → Result ParseError (Config Node Telemetry)
  finish cfg = or_fail cfg.gateway no_gateway >>= λ g. ok (record {
    gateway = g;
    routes = cfg.routes;
    groups = cfg.groups;
    request_plugins = cfg.request_plugins;
    response_plugins = cfg.response_plugins;
    idp_resources = cfg.idp_resources;
    telemetry = or_else cfg.telemetry decode.default_telemetry;
    policies = cfg.policies;
  })

  -- `Parse`
  unfoldable pub parse : List (Resource Node) → Result ParseError (Config Node Telemetry)
  unfolding parse_all finish
  parse resources = parse_all 0 resources nothing_parsed >>= finish
