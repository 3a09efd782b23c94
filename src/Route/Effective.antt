-- ===== src/Route/Effective.antt =====
-- What `Resolve` answers: a valid type and auth, a same-origin redirect, and which of the route,
-- its groups and the defaults decides each.
use hog.Base.{String, false, Option, none, some, List, [], ◌∷◌, ◌≡◌, refl, arith}
use hog.Base.{
  ◌≢◌, ◌⊎◌, inl, inr, ◌==◌, ok, select, map, Bool-cases, if◌then◌else◌, ◌∙◌, String-discrete,
}
use hog.Base.Text
use hog.Base.Text.{StartsWith, Holds}
use hog.Base.Dict.{Dict}
use hog.Selector.{matches}
use hog.Route.{Route, RouteGroup, OnDenySpec, Resolved, Inherited}
use hog.Route.{first_non_empty, infer_type, inherit_all, later, resolve, is_cross_origin}
use hog.Route.{refuses, redirect_of, effective_type, effective_auth, nothing}

-- A path on the same origin: it starts with "/", a browser does not read it as protocol-relative,
-- and it holds no "://".
pub record IsSameOrigin (path : String) : Type 0 where
  pub rooted : StartsWith path "/"
  pub not_relative : ¬ StartsWith path "//"
  pub not_backslash : ¬ StartsWith path "/\\"
  pub no_scheme : ¬ Holds path "://"

pub not_cross_origin : (path : String) → is_cross_origin path ≡ false → IsSameOrigin path
unfolding is_cross_origin
not_cross_origin path h = record {
  rooted = (Text.has_prefix_iff path "/").0 (ground arith);
  not_relative = λ w. cc ((Text.has_prefix_iff path "//").1 w, second);
  not_backslash = λ w. cc ((Text.has_prefix_iff path "/\\").1 w, third);
  no_scheme = λ w. cc ((Text.contains_iff path "://").1 w, fourth);
}
  where
    second : Text.has_prefix path "//" ≡ false
    second = ground arith

    third : Text.has_prefix path "/\\" ≡ false
    third = ground arith

    fourth : Text.contains path "://" ≡ false
    fourth = ground arith

-- The last value that is not empty.
pub last_non_empty : List String → String
last_non_empty [] = ""
last_non_empty (x ∷ xs) = first_non_empty (last_non_empty xs) x

pub last {ℓ} : {A : Type ℓ} → List (Option A) → Option A
last [] = none
last (x ∷ xs) = later (last xs) x

later_assoc {ℓ} : {A : Type ℓ} (a b c : Option A) → later a (later b c) ≡ later (later a b) c
later_assoc none b c = refl
later_assoc (some _) b c = refl

first_assoc :
    (a b c : String)
    → first_non_empty a (first_non_empty b c) ≡ first_non_empty (first_non_empty a b) c
first_assoc a b c = ground arith

module _ {Node : Type 0} where
  -- The groups whose selector matches, in document order.
  abbrev pub matching : Dict String → List (RouteGroup Node) → List (RouteGroup Node)
  matching labels = select (λ g. matches g.selector labels)

  -- What a list of groups hands down, over what was there before: of each field the last value.
  abbrev pub handed_down : List (RouteGroup Node) → Inherited Node → Inherited Node
  handed_down gs acc = record {
    type = first_non_empty (last_non_empty (map (λ g. g.type) gs)) acc.type;
    auth = first_non_empty (last_non_empty (map (λ g. g.access.auth) gs)) acc.auth;
    projection = later (last (map (λ g. g.access.projection) gs)) acc.projection;
    on_deny = later (last (map (λ g. g.access.on_deny) gs)) acc.on_deny;
  }

  handed_down_cons :
      (g : RouteGroup Node) (gs : List (RouteGroup Node)) (acc : Inherited Node)
      → handed_down gs (handed_down (g ∷ []) acc) ≡ handed_down (g ∷ gs) acc
  unfolding last_non_empty last String-discrete
  handed_down_cons g gs acc = λ i. record {
    type = first_assoc (last_non_empty (map (λ x. x.type) gs)) g.type acc.type i;
    auth = first_assoc (last_non_empty (map (λ x. x.access.auth) gs)) g.access.auth acc.auth i;
    projection =
        later_assoc (last (map (λ x. x.access.projection) gs)) g.access.projection acc.projection i;
    on_deny = later_assoc (last (map (λ x. x.access.on_deny) gs)) g.access.on_deny acc.on_deny i;
  }

  inherit_all-handed_down :
      (labels : Dict String) (groups : List (RouteGroup Node)) (acc : Inherited Node)
      → inherit_all labels acc groups ≡ handed_down (matching labels groups) acc
  unfolding inherit_all last_non_empty last String-discrete
  inherit_all-handed_down labels [] acc = refl
  inherit_all-handed_down labels (g ∷ groups) acc = elim (Bool-cases (matches g.selector labels)) [
    | inl e ↦ rw e (
        inherit_all-handed_down labels groups (handed_down (g ∷ []) acc)
        ∙ handed_down_cons g (matching labels groups) acc)
    | inr e ↦ rw e (inherit_all-handed_down labels groups acc)
  ]

  module _ (lower : String → String) (rt : Route Node) (groups : List (RouteGroup Node)) where
    -- Everything that a successful call establishes of its result.
    pub record IsValid (r : Resolved Node) : Type 0 where
      pub typed : (r.type ≡ "app") ⊎ (r.type ≡ "service")
      pub decided : (r.auth ≡ "required") ⊎ (r.auth ≡ "public")
      pub local : redirect_of r.on_deny ≢ "" → IsSameOrigin (redirect_of r.on_deny)

    refuses_sound :
        (d : Option OnDenySpec)
        → refuses d ≡ false
        → redirect_of d ≢ ""
        → IsSameOrigin (redirect_of d)
    refuses_sound none h n = absurd (n refl)
    refuses_sound (some d) h n = not_cross_origin d.redirect (ground arith)

    -- A route that `Resolve` accepts is app or service, its auth is required or public, and the
    -- redirect of its deny handling, if there is one that is not empty, is a same-origin path.
    pub resolve-IsValid : (r : Resolved Node) → resolve lower rt groups ≡ ok r → IsValid r
    unfolding resolve
    resolve-IsValid r h = record {
      typed = ground arith;
      decided = ground arith;
      local = refuses_sound r.on_deny (ground arith);
    }

    -- The settings of a route: its own, else the last of the matching groups', else the defaults.
    pub record IsEffective (r : Resolved Node) : Type 0 where
      pub typed :
          r.type
          ≡ lower (
              first_non_empty
                (first_non_empty rt.type
                  (last_non_empty (map (λ g. g.type) (matching rt.labels groups))))
                (infer_type rt.handler.type))
      pub decided :
          r.auth
          ≡ lower (
              first_non_empty
                (first_non_empty rt.access.auth
                  (last_non_empty (map (λ g. g.access.auth) (matching rt.labels groups))))
                (if r.type == "service" then "required" else "public"))
      pub projected :
          r.projection
          ≡ later rt.access.projection
              (last (map (λ g. g.access.projection) (matching rt.labels groups)))
      pub denied :
          r.on_deny
          ≡ later rt.access.on_deny (last (map (λ g. g.access.on_deny) (matching rt.labels groups)))

    effective_of :
        (r : Resolved Node) (g : Inherited Node)
        → inherit_all rt.labels nothing groups ≡ g
        → resolve lower rt groups ≡ ok r
        → (r.type ≡ effective_type lower rt g)
          × (r.auth ≡ effective_auth lower rt g r.type)
          × (r.projection ≡ later rt.access.projection g.projection)
          × (r.on_deny ≡ later rt.access.on_deny g.on_deny)
    unfolding resolve
    effective_of r g e h = ground arith

    -- Of a route that `Resolve` accepts each of type, auth, projection and deny handling is the
    -- route's own if it sets one, else the last one that a group with a matching selector sets;
    -- a type is else inferred from the handler, and an auth is else required for a service.
    pub resolve-IsEffective : (r : Resolved Node) → resolve lower rt groups ≡ ok r → IsEffective r
    resolve-IsEffective r h =
        let (t, a, p, d) = effective_of r _ (inherit_all-handed_down rt.labels groups nothing) h in
        record {
          typed = ground arith;
          decided = ground arith;
          projected = ground arith;
          denied = ground arith;
        }
