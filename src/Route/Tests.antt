-- ===== src/Route/Tests.antt =====
-- A route and its group, resolved.
use hog.Base.{
  String, none, some, [], ◌∷◌, ◌≡◌, refl, ◌==◌, not, ◌&&◌, ◌||◌, ok, contains, String-discrete,
}
use hog.Base.Text
use hog.Base.Dict.{lookup}
use hog.Base.Names.{NoDup}
use hog.Base.Names
use hog.Selector.{matches}
use hog.Route.{
  Route, RouteGroup, Resolved, resolve, inherit_all, add_groups, is_cross_origin, infer_type,
}
use hog.Route.Effective.{IsEffective, resolve-IsEffective}
use hog.Route.Authorize.{granted, resolve_authorize}

abbrev dash : Route (Unit {0})
dash = record {
  name = "dash";
  labels = ("app", "dash") ∷ [];
  match = "GET /dash";
  type = "";
  handler = record { type = "proxy"; config = tt };
  access = record {
    auth = "";
    authorize = "staff" ∷ "staff" ∷ [];
    projection = none;
    on_deny = some (record { redirect = "/denied" });
  };
}

abbrev group : RouteGroup (Unit {0})
group = record {
  name = "internal";
  type = "App";
  selector = record { match_labels = ("app", "dash") ∷ []; match_expressions = [] };
  access = record {
    auth = "required";
    authorize = "admins" ∷ "staff" ∷ [];
    projection = none;
    on_deny = none;
  };
}

abbrev resolved : Resolved (Unit {0})
resolved = record {
  type = "app";
  auth = "required";
  projection = none;
  authorize = "staff" ∷ "admins" ∷ [];
  on_deny = some (record { redirect = "/denied" });
}

resolve-dash : resolve Text.to_lower dash (group ∷ []) ≡ ok resolved
unfolding resolve inherit_all add_groups is_cross_origin infer_type String-discrete matches lookup
    Names.add_new Text.to_lower Text.has_prefix Text.contains
resolve-dash = refl

resolve-IsEffective_example : IsEffective Text.to_lower dash (group ∷ []) resolved
resolve-IsEffective_example =
    resolve-IsEffective Text.to_lower dash (group ∷ []) resolved resolve-dash

resolve_authorize_example :
    NoDup resolved.authorize
    × ((n : String)
        → contains resolved.authorize n ≡ (
            not (n == "")
            && (contains dash.access.authorize n || granted dash.labels n (group ∷ []))))
resolve_authorize_example = resolve_authorize Text.to_lower dash (group ∷ []) resolved resolve-dash
