-- ===== src/Route.antt =====
-- route/route.go: routes, route groups, and a route's effective type, auth, projection,
-- authorization set and deny handling. YAML nodes are a parameter, `Node`.
pub mod Effective
pub mod Authorize
mod Tests
use hog.Base.{String, ◌<>◌, Bool, true, false, Option, none, some, List, [], ◌∷◌, ◌++◌, ◌==◌, not}
use hog.Base.{◌&&◌, ◌||◌, Result, ok, err, ◌>>=◌, ◌>>◌, guard, contains, if◌then◌else◌}
use hog.Base.Text
use hog.Base.Dict.{Dict}
use hog.Base.Names.{add_new}
use hog.Config.{Resource}
use hog.Selector.{Selector, matches}

-- `HandlerSpec`
pub record HandlerSpec (Node : Type 0) : Type 0 where
  pub type : String
  pub config : Node

-- `GroupsProjection`
pub record GroupsProjection : Type 0 where
  pub header : String

-- `SessionProjection`
pub record SessionProjection : Type 0 where
  pub claims : Dict String  -- claim name → header name
  pub groups : Option GroupsProjection

-- `ProjectionConfig`
pub record ProjectionConfig (Node : Type 0) : Type 0 where
  pub session : Option SessionProjection
  pub request : Node

-- `OnDenySpec`
pub record OnDenySpec : Type 0 where
  pub redirect : String

-- `AccessSpec`
pub record AccessSpec (Node : Type 0) : Type 0 where
  pub auth : String
  pub authorize : List String
  pub projection : Option (ProjectionConfig Node)
  pub on_deny : Option OnDenySpec

-- `Route`
pub record Route (Node : Type 0) : Type 0 where
  pub name : String
  pub labels : Dict String
  pub match : String
  pub type : String
  pub handler : HandlerSpec Node
  pub access : AccessSpec Node

-- `RouteGroup`
pub record RouteGroup (Node : Type 0) : Type 0 where
  pub name : String
  pub type : String
  pub selector : Selector
  pub access : AccessSpec Node

-- `Resolved`
pub record Resolved (Node : Type 0) : Type 0 where
  pub type : String
  pub auth : String
  pub projection : Option (ProjectionConfig Node)
  pub authorize : List String
  pub on_deny : Option OnDenySpec

-- The errors of the package, each with the route's name and the value that is refused.
pub data RouteError : Type 0 where
  wrong_kind : String → RouteError
  decode_failed : String → RouteError
  match_required handler_type_required : String → RouteError
  invalid_type invalid_auth cross_origin_redirect : String → String → RouteError

abbrev pub first_non_empty : String → String → String
first_non_empty a b = if a == "" then b else a

-- `inferType`
pub infer_type : String → String
infer_type handler_type =
    if handler_type == "reverse-proxy" || handler_type == "api" then "service" else "app"

-- the four variables of the loop over the groups
pub record Inherited (Node : Type 0) : Type 0 where
  pub type : String
  pub auth : String
  pub projection : Option (ProjectionConfig Node)
  pub on_deny : Option OnDenySpec

abbrev pub later {ℓ} : {A : Type ℓ} → Option A → Option A → Option A
later none old = old
later (some a) old = some a

-- the test of `onDeny.Redirect` by which a redirect is refused
unfoldable pub is_cross_origin : String → Bool
is_cross_origin redirect =
    not (Text.has_prefix redirect "/")
    || (Text.has_prefix redirect "//"
        || (Text.has_prefix redirect "/\\" || Text.contains redirect "://"))

-- `onDeny != nil && onDeny.Redirect != ""` and the redirect is refused
abbrev pub refuses : Option OnDenySpec → Bool
refuses none = false
refuses (some d) = not (d.redirect == "") && is_cross_origin d.redirect

abbrev pub redirect_of : Option OnDenySpec → String
redirect_of none = ""
redirect_of (some d) = d.redirect

module _ {Node : Type 0} where
  -- one group of the first loop
  abbrev pub inherit : Dict String → Inherited Node → RouteGroup Node → Inherited Node
  inherit labels acc g =
      if matches g.selector labels
      then record {
        type = first_non_empty g.type acc.type;
        auth = first_non_empty g.access.auth acc.auth;
        projection = later g.access.projection acc.projection;
        on_deny = later g.access.on_deny acc.on_deny;
      }
      else acc

  unfoldable pub inherit_all :
      Dict String → Inherited Node → List (RouteGroup Node) → Inherited Node
  inherit_all labels acc [] = acc
  inherit_all labels acc (g ∷ groups) = inherit_all labels (inherit labels acc g) groups

  abbrev nothing : Inherited Node
  nothing = record { type = ""; auth = ""; projection = none; on_deny = none }

  -- the last loop: the names that every matching group adds
  unfoldable pub add_groups : Dict String → List String → List (RouteGroup Node) → List String
  add_groups labels authorize [] = authorize
  add_groups labels authorize (g ∷ groups) =
      add_groups labels
        (if matches g.selector labels then add_new authorize g.access.authorize else authorize)
        groups

  -- `Resolve`; `lower` is `strings.ToLower`
  module _ (lower : String → String) where
    -- the route's type, before it is validated
    abbrev pub effective_type : Route Node → Inherited Node → String
    effective_type rt g =
        let typ = first_non_empty rt.type g.type in
        lower (if typ == "" then infer_type rt.handler.type else typ)

    abbrev pub effective_auth : Route Node → Inherited Node → String → String
    effective_auth rt g typ =
        let auth = first_non_empty rt.access.auth g.auth in
        lower (if auth == "" then (if typ == "service" then "required" else "public") else auth)

    unfoldable pub resolve : Route Node → List (RouteGroup Node) → Result RouteError (Resolved Node)
    resolve rt groups = do
      let g = inherit_all rt.labels nothing groups
      let typ = effective_type rt g
      guard (typ == "app" || typ == "service") (invalid_type rt.name typ)
      let auth = effective_auth rt g typ
      guard (auth == "required" || auth == "public") (invalid_auth rt.name auth)
      let on_deny = later rt.access.on_deny g.on_deny
      guard (not (refuses on_deny)) (cross_origin_redirect rt.name (redirect_of on_deny))
      ok (record {
        type = typ;
        auth = auth;
        projection = later rt.access.projection g.projection;
        authorize = add_groups rt.labels (add_new [] rt.access.authorize) groups;
        on_deny = on_deny;
      })

-- What the YAML library makes of a route's and a group's spec.
pub record RouteSpec (Node : Type 0) : Type 0 where
  pub match : String
  pub type : String
  pub handler : HandlerSpec Node
  pub access : AccessSpec Node

pub record GroupSpec (Node : Type 0) : Type 0 where
  pub type : String
  pub selector : Selector
  pub access : AccessSpec Node

module _ {Node : Type 0} where
  -- `ParseRoute`; `decode` is `Spec.Decode`
  unfoldable pub parse_route :
      (Node → Option (RouteSpec Node)) → Resource Node → Result RouteError (Route Node)
  parse_route decode r = do
    guard (r.kind == "Route") (wrong_kind r.kind)
    out ← elim (decode r.spec) [ none ↦ err (decode_failed r.metadata.name) | some s ↦ ok s ]
    guard (not (out.match == "")) (match_required r.metadata.name)
    guard (not (out.handler.type == "")) (handler_type_required r.metadata.name)
    ok (record {
      name = r.metadata.name;
      labels = r.metadata.labels;
      match = out.match;
      type = out.type;
      handler = out.handler;
      access = out.access;
    })

  -- `ParseGroup`
  unfoldable pub parse_group :
      (Node → Option (GroupSpec Node)) → Resource Node → Result RouteError (RouteGroup Node)
  parse_group decode r = do
    guard (r.kind == "RouteGroup") (wrong_kind r.kind)
    out ← elim (decode r.spec) [ none ↦ err (decode_failed r.metadata.name) | some s ↦ ok s ]
    ok (record {
      name = r.metadata.name;
      type = out.type;
      selector = out.selector;
      access = out.access;
    })
