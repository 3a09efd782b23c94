-- ===== src/Route/Authorize.antt =====
-- The effective authorization set: the route's policies and those of every matching group.
use hog.Base.{String, Bool, List, [], ◌∷◌, ◌≡◌, arith, not, ◌&&◌, ◌||◌}
use hog.Base.{◌==◌, ok, contains, any}
use hog.Base.Dict.{Dict}
use hog.Base.Names.{add_new, NoDup, add_new-NoDup, contains-add_new}
use hog.Selector.{matches}
use hog.Route.{Route, RouteGroup, Resolved, resolve, add_groups}

module _ {Node : Type 0} where
  -- Some matching group of the list authorizes by the policy.
  abbrev pub granted : Dict String → String → List (RouteGroup Node) → Bool
  granted labels n = any (λ g. matches g.selector labels && contains g.access.authorize n)

  module _ (labels : Dict String) where
    add_groups-NoDup :
        (groups : List (RouteGroup Node)) (acc : List String)
        → NoDup acc
        → NoDup (add_groups labels acc groups)
    unfolding add_groups
    add_groups-NoDup [] acc h = h
    add_groups-NoDup (g ∷ groups) acc h =
        add_groups-NoDup groups _ (ground (arith, add_new-NoDup g.access.authorize acc h))

    contains-add_groups :
        (groups : List (RouteGroup Node)) (acc : List String) (n : String)
        → contains (add_groups labels acc groups) n
          ≡ (contains acc n || (not (n == "") && granted labels n groups))
    unfolding add_groups
    contains-add_groups [] acc n = ground arith
    contains-add_groups (g ∷ groups) acc n = ground (
      arith,
      contains-add_groups groups acc n,
      contains-add_groups groups (add_new acc g.access.authorize) n,
      contains-add_new g.access.authorize acc n,
    )

  authorize_of :
      (lower : String → String) (rt : Route Node) (groups : List (RouteGroup Node))
      (r : Resolved Node)
      → resolve lower rt groups ≡ ok r
      → r.authorize ≡ add_groups rt.labels (add_new [] rt.access.authorize) groups
  unfolding resolve
  authorize_of lower rt groups r h = ground arith

  -- The policies that a resolved route enforces are, each once, exactly the names that are not
  -- empty and stand in the route's own list or in that of a group whose selector matches it: a
  -- group only ever adds to what the route asks for.
  pub resolve_authorize :
      (lower : String → String) (rt : Route Node) (groups : List (RouteGroup Node))
      (r : Resolved Node)
      → resolve lower rt groups ≡ ok r
      → NoDup r.authorize
        × ((n : String)
            → contains r.authorize n
              ≡ (not (n == "") && (contains rt.access.authorize n || granted rt.labels n groups)))
  resolve_authorize lower rt groups r h = rw (authorize_of lower rt groups r h) (
    add_groups-NoDup rt.labels groups _ (add_new-NoDup rt.access.authorize [] tt),
    λ n. ground (
      arith,
      contains-add_groups rt.labels groups (add_new [] rt.access.authorize) n,
      contains-add_new rt.access.authorize [] n,
    ),
  )
