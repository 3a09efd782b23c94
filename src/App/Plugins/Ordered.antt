-- ===== src/App/Plugins/Ordered.antt =====
-- app/build.go: the order of the plugins of a route.
use hog.Base.{
  String, ◌<◌, Bool, List, [], ◌∷◌, ok, ◌≡◌, refl, ap, arith, select, inl, inr, All, Bool-cases,
}
use hog.Base.Dict.{Dict}
use hog.Config.{Resource}
use hog.Selector.{matches}
use hog.App.Registry.{Registry}
use hog.App.Parse.{Decode, Config, PluginInstance, parse}
use hog.App.Parse.Order.{Increasing, parse-Increasing}
use hog.App.Plugins.{Module, instantiate, insert_by_order, sort_by_order, resolve_plugins}

module _ {Node : Type 0} where
  select-All :
      (P : PluginInstance Node → Type 0) (f : PluginInstance Node → Bool)
      (ps : List (PluginInstance Node))
      → All P ps
      → All P (select f ps)
  select-All P f [] h = tt
  select-All P f (p ∷ ps) (l, h) = elim (Bool-cases (f p)) [
    | inl e ↦ rw e (l, select-All P f ps h)
    | inr e ↦ rw e (select-All P f ps h)
  ]

  select-Increasing :
      (f : PluginInstance Node → Bool) (ps : List (PluginInstance Node))
      → Increasing ps
      → Increasing (select f ps)
  select-Increasing f [] h = tt
  select-Increasing f (p ∷ ps) (a, h) = elim (Bool-cases (f p)) [
    | inl e ↦ rw e (select-All (λ q. p.order < q.order) f ps a, select-Increasing f ps h)
    | inr e ↦ rw e (select-Increasing f ps h)
  ]

  insert_first :
      (p : PluginInstance Node) (ps : List (PluginInstance Node))
      → All (λ q. p.order < q.order) ps
      → insert_by_order p ps ≡ p ∷ ps
  unfolding insert_by_order
  insert_first p [] h = refl
  insert_first p (q ∷ ps) (l, h) = ground (arith, l)

  sort_by_order-Increasing :
      (ps : List (PluginInstance Node)) → Increasing ps → sort_by_order ps ≡ ps
  unfolding sort_by_order
  sort_by_order-Increasing [] h = refl
  sort_by_order-Increasing (p ∷ ps) (a, h) =
      rw (sort_by_order-Increasing ps h) (insert_first p ps a)

module _ {Node Telemetry : Type 0} (decode : Decode Node Telemetry) where
  -- The plugins of a route, of a configuration that was read from resources, are those whose selector matches its labels, in
  -- document order, whatever the sort makes of equal ones.
  pub resolve_plugins-parse :
      {World Idp Store : Type 0} (rs : List (Resource Node)) (cfg : Config Node Telemetry)
      (reg : Registry Node (Module World Idp Store)) (labels : Dict String)
      → parse decode rs ≡ ok cfg
      → (resolve_plugins reg "RequestPlugin" cfg.request_plugins labels
          ≡ instantiate reg "RequestPlugin"
              (select (λ pi. matches pi.selector labels) cfg.request_plugins))
        × (resolve_plugins reg "ResponsePlugin" cfg.response_plugins labels
            ≡ instantiate reg "ResponsePlugin"
                (select (λ pi. matches pi.selector labels) cfg.response_plugins))
  unfolding resolve_plugins
  resolve_plugins-parse rs cfg reg labels e =
      let (h, h') = parse-Increasing decode rs cfg e in
      (
        ap (instantiate reg "RequestPlugin") (sort_by_order-Increasing _ (select-Increasing _ _ h)),
        ap (instantiate reg "ResponsePlugin")
            (sort_by_order-Increasing _ (select-Increasing _ _ h')),
      )
