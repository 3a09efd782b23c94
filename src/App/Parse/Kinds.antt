-- ===== src/App/Parse/Kinds.antt =====
-- app/build.go: the resources of a configuration by their kind.
use mathlib.Core.List.{append-nil, append_assoc}
use hog.Base.{
  String, ℕ, suc, ◌+◌, ◌≤◌, Bool, true, false, Option, List, [], ◌∷◌, ◌++◌, map, ok, ◌≡◌, refl, ap,
  arith, length, is_some, if◌then◌else◌, Result-cases, inl, inr,
}
use hog.Config.{
  Resource, Kind, gateway, route, route_group, request_plugin, response_plugin, idp, policy,
  telemetry, unknown, kind_of,
}
use hog.Route.{Route, RouteSpec, parse_route}
use hog.App.Gateway.{from_resource}
use hog.App.Parse.{Decode, Parsed, Config, parse_kind, parse_all, parse, nothing_parsed, finish}

abbrev pub is_gateway : Kind → Bool
is_gateway gateway = true
is_gateway _ = false

abbrev pub is_telemetry : Kind → Bool
is_telemetry telemetry = true
is_telemetry _ = false

abbrev pub is_policy : Kind → Bool
is_policy policy = true
is_policy _ = false

abbrev pub is_route : Kind → Bool
is_route route = true
is_route _ = false

module _ {Node : Type 0} where
  -- the resources of a kind, in document order
  unfoldable pub of_kind : (Kind → Bool) → List (Resource Node) → List (Resource Node)
  of_kind is [] = []
  of_kind is (r ∷ rs) = let rest = of_kind is rs in if is (kind_of r.kind) then r ∷ rest else rest

  abbrev pub names : List (Resource Node) → List String
  names rs = map (λ r. r.metadata.name) rs

  abbrev pub route_names : List (Route Node) → List String
  route_names rts = map (λ rt. rt.name) rts

names-last :
    {Node : Type 0} (rts : List (Route Node)) (rt : Route Node)
    → route_names (rts ++ (rt ∷ [])) ≡ route_names rts ++ (rt.name ∷ [])
names-last [] rt = refl
names-last (r ∷ rts) rt = ap (λ ns. r.name ∷ ns) (names-last rts rt)

parse_route-name :
    {Node : Type 0} (d : Node → Option (RouteSpec Node)) (r : Resource Node) (rt : Route Node)
    → parse_route d r ≡ ok rt
    → rt.name ≡ r.metadata.name
unfolding parse_route
parse_route-name d r rt e = ground (arith, e)

abbrev tally : Bool → ℕ
tally b = if b then 1 else 0

module _ {Node Telemetry : Type 0} (decode : Decode Node Telemetry) where
  -- what one resource adds
  abbrev Added : Kind → Resource Node → Parsed Node Telemetry → Parsed Node Telemetry → Type 0
  Added k r cfg cfg' =
      (cfg'.policies ≡ (if is_policy k then cfg.policies ++ (r ∷ []) else cfg.policies))
      × (route_names cfg'.routes ≡ (
          if is_route k
          then route_names cfg.routes ++ (r.metadata.name ∷ [])
          else route_names cfg.routes))
      × (tally (is_some cfg'.gateway) ≡ tally (is_some cfg.gateway) + tally (is_gateway k))
      × (tally (is_some cfg'.telemetry) ≡ tally (is_some cfg.telemetry) + tally (is_telemetry k))

  parse_kind-Added :
      (k : Kind) (i : ℕ) (r : Resource Node) (cfg cfg' : Parsed Node Telemetry)
      → parse_kind decode k i r cfg ≡ ok cfg'
      → Added k r cfg cfg'
  unfolding parse_kind
  parse_kind-Added gateway i r cfg cfg' e = elim (Result-cases (from_resource decode.settings r)) [
    | inl (x, f) ↦ absurd (ground (arith, e, f))
    | inr (g, f) ↦
        (ground (arith, e, f), ground (arith, e, f), ground (arith, e, f), ground (arith, e, f))
  ]
  parse_kind-Added route i r cfg cfg' e = elim (Result-cases (parse_route decode.route r)) [
    | inl (x, f) ↦ absurd (ground (arith, e, f))
    | inr (rt, f) ↦
        let named = parse_route-name decode.route r rt f in
        let last = names-last cfg.routes rt in
        (
          ground (arith, e, f),
          ground (arith, e, f, named, last),
          ground (arith, e, f),
          ground (arith, e, f),
        )
  ]
  parse_kind-Added route_group i r cfg cfg' e =
      (ground (arith, e), ground (arith, e), ground (arith, e), ground (arith, e))
  parse_kind-Added request_plugin i r cfg cfg' e =
      (ground (arith, e), ground (arith, e), ground (arith, e), ground (arith, e))
  parse_kind-Added response_plugin i r cfg cfg' e =
      (ground (arith, e), ground (arith, e), ground (arith, e), ground (arith, e))
  parse_kind-Added idp i r cfg cfg' e =
      (ground (arith, e), ground (arith, e), ground (arith, e), ground (arith, e))
  parse_kind-Added policy i r cfg cfg' e =
      (ground (arith, e), ground (arith, e), ground (arith, e), ground (arith, e))
  parse_kind-Added telemetry i r cfg cfg' e =
      (ground (arith, e), ground (arith, e), ground (arith, e), ground (arith, e))
  parse_kind-Added unknown i r cfg cfg' e = absurd (ground (arith, e))

  -- what a list of resources adds
  abbrev AllAdded : List (Resource Node) → Parsed Node Telemetry → Parsed Node Telemetry → Type 0
  AllAdded rs cfg cfg' =
      (cfg'.policies ≡ cfg.policies ++ of_kind is_policy rs)
      × (route_names cfg'.routes ≡ route_names cfg.routes ++ names (of_kind is_route rs))
      × (tally (is_some cfg'.gateway)
          ≡ tally (is_some cfg.gateway) + length (of_kind is_gateway rs))
      × (tally (is_some cfg'.telemetry)
          ≡ tally (is_some cfg.telemetry) + length (of_kind is_telemetry rs))

  parse_all-AllAdded :
      (i : ℕ) (rs : List (Resource Node)) (cfg out : Parsed Node Telemetry)
      → parse_all decode i rs cfg ≡ ok out
      → AllAdded rs cfg out
  unfolding parse_all of_kind
  parse_all-AllAdded i [] cfg out e = (
    ground (arith, e, append-nil cfg.policies),
    ground (arith, e, append-nil (route_names cfg.routes)),
    ground (arith, e),
    ground (arith, e),
  )
  parse_all-AllAdded i (r ∷ rs) cfg out e =
      elim (Result-cases (parse_kind decode (kind_of r.kind) i r cfg)) [
        | inl (x, f) ↦ absurd (ground (arith, e, f))
        | inr (mid, f) ↦
            let (p, n, g, t) = parse_kind-Added (kind_of r.kind) i r cfg mid f in
            let (ps, ns, gs, ts) = parse_all-AllAdded (suc i) rs mid out (ground (arith, e, f)) in
            let assoc = append_assoc cfg.policies (r ∷ []) (of_kind is_policy rs) in
            let assoc' =
              append_assoc (route_names cfg.routes) (r.metadata.name ∷ [])
                (names (of_kind is_route rs)) in
            (
              ground (arith, p, ps, assoc),
              ground (arith, n, ns, assoc'),
              ground (arith, g, gs),
              ground (arith, t, ts),
            )
      ]

  -- A configuration that is accepted has one Gateway and at most one Telemetry resource, and loses nothing: its policies are
  -- the Policy resources, and its routes are named as the Route resources, in document order.
  pub parse_resources :
      (rs : List (Resource Node)) (cfg : Config Node Telemetry)
      → parse decode rs ≡ ok cfg
      → (cfg.policies ≡ of_kind is_policy rs)
        × (route_names cfg.routes ≡ names (of_kind is_route rs))
        × (length (of_kind is_gateway rs) ≡ 1)
        × (length (of_kind is_telemetry rs) ≤ 1)
  unfolding parse finish
  parse_resources rs cfg e = elim (Result-cases (parse_all decode 0 rs (nothing_parsed decode))) [
    | inl (x, f) ↦ absurd (ground (arith, e, f))
    | inr (out, f) ↦
        let (p, n, g, t) = parse_all-AllAdded 0 rs (nothing_parsed decode) out f in
        (
          ground (arith, e, f, p),
          ground (arith, e, f, n),
          ground (arith, e, f, g),
          ground (arith, t),
        )
  ]
