-- ===== src/App/Parse/Order.antt =====
-- app/build.go: the order of the parsed plugins.
use hog.Base.{
  ok-injective, ℕ, suc, ◌<◌, List, [], ◌∷◌, ◌++◌, ok, ◌≡◌, sym, arith, Result-cases, inl, inr, All,
}
use hog.Config.{
  Resource, Kind, gateway, route, route_group, request_plugin, response_plugin, idp, policy,
  telemetry, unknown, kind_of,
}
use hog.App.Parse.{
  Decode, Parsed, Config, PluginInstance, parse_kind, parse_all, parse, parse_plugin,
  nothing_parsed, finish,
}

module _ {Node : Type 0} where
  -- Every plugin stands before those behind it in the document.
  abbrev pub Increasing : List (PluginInstance Node) → Type 0
  Increasing [] = Unit
  Increasing (p ∷ ps) = All (λ q. p.order < q.order) ps × Increasing ps

  abbrev Below : ℕ → List (PluginInstance Node) → Type 0
  Below i ps = All (λ q. q.order < i) ps

  Below-later : (i : ℕ) (ps : List (PluginInstance Node)) → Below i ps → Below (suc i) ps
  Below-later i [] h = tt
  Below-later i (p ∷ ps) (l, h) = (omega (arith, l), Below-later i ps h)

  All-last :
      (P : PluginInstance Node → Type 0) (ps : List (PluginInstance Node)) (q : PluginInstance Node)
      → All P ps
      → P q
      → All P (ps ++ (q ∷ []))
  All-last P [] q h k = (k, tt)
  All-last P (p ∷ ps) q (l, h) k = (l, All-last P ps q h k)

  Increasing-last :
      (ps : List (PluginInstance Node)) (q : PluginInstance Node)
      → Increasing ps
      → Below q.order ps
      → Increasing (ps ++ (q ∷ []))
  Increasing-last [] q h k = (tt, tt)
  Increasing-last (p ∷ ps) q (a, h) (l, k) =
      (All-last (λ r. p.order < r.order) ps q a l, Increasing-last ps q h k)

module _ {Node Telemetry : Type 0} (decode : Decode Node Telemetry) where
  -- the plugins of a configuration that was read up to resource number `i`
  abbrev InOrder : ℕ → Parsed Node Telemetry → Type 0
  InOrder i cfg =
      (Increasing cfg.request_plugins × Below i cfg.request_plugins)
      × (Increasing cfg.response_plugins × Below i cfg.response_plugins)

  parse_plugin-order :
      (r : Resource Node) (i : ℕ) (pi : PluginInstance Node)
      → parse_plugin decode r i ≡ ok pi
      → pi.order ≡ i
  unfolding parse_plugin
  parse_plugin-order r i pi e = ground (arith, e)

  more :
      (i : ℕ) (ps : List (PluginInstance Node)) (q : PluginInstance Node)
      → q.order ≡ i
      → Increasing ps × Below i ps
      → Increasing (ps ++ (q ∷ [])) × Below (suc i) (ps ++ (q ∷ []))
  more i ps q e (h, b) = (
    Increasing-last ps q h (rw e b),
    All-last (λ r. r.order < suc i) ps q (Below-later i ps b) (omega (arith, e)),
  )

  keep :
      (i : ℕ) (ps qs : List (PluginInstance Node))
      → qs ≡ ps
      → Increasing ps × Below i ps
      → Increasing qs × Below (suc i) qs
  keep i ps qs e (h, b) = rw e (h, Below-later i ps b)

  parse_kind-InOrder :
      (k : Kind) (i : ℕ) (r : Resource Node) (cfg cfg' : Parsed Node Telemetry)
      → parse_kind decode k i r cfg ≡ ok cfg'
      → InOrder i cfg
      → InOrder (suc i) cfg'
  unfolding parse_kind
  parse_kind-InOrder request_plugin i r cfg cfg' e (h, h') =
      elim (Result-cases (parse_plugin decode r i)) [
        | inl (x, f) ↦ absurd (ground (arith, e, f))
        | inr (pi, f) ↦
            let same : cfg'.request_plugins ≡ cfg.request_plugins ++ (pi ∷ []) =
              ground (arith, e, f) in
            (
              rw same (more i cfg.request_plugins pi (parse_plugin-order r i pi f) h),
              keep i _ _ (ground (arith, e, f)) h',
            )
      ]
  parse_kind-InOrder response_plugin i r cfg cfg' e (h, h') =
      elim (Result-cases (parse_plugin decode r i)) [
        | inl (x, f) ↦ absurd (ground (arith, e, f))
        | inr (pi, f) ↦
            let same : cfg'.response_plugins ≡ cfg.response_plugins ++ (pi ∷ []) =
              ground (arith, e, f) in
            (
              keep i _ _ (ground (arith, e, f)) h,
              rw same (more i cfg.response_plugins pi (parse_plugin-order r i pi f) h'),
            )
      ]
  parse_kind-InOrder gateway i r cfg cfg' e (h, h') =
      (keep i _ _ (ground (arith, e)) h, keep i _ _ (ground (arith, e)) h')
  parse_kind-InOrder route i r cfg cfg' e (h, h') =
      (keep i _ _ (ground (arith, e)) h, keep i _ _ (ground (arith, e)) h')
  parse_kind-InOrder route_group i r cfg cfg' e (h, h') =
      (keep i _ _ (ground (arith, e)) h, keep i _ _ (ground (arith, e)) h')
  parse_kind-InOrder idp i r cfg cfg' e (h, h') =
      (keep i _ _ (ground (arith, e)) h, keep i _ _ (ground (arith, e)) h')
  parse_kind-InOrder policy i r cfg cfg' e (h, h') =
      (keep i _ _ (ground (arith, e)) h, keep i _ _ (ground (arith, e)) h')
  parse_kind-InOrder telemetry i r cfg cfg' e (h, h') =
      (keep i _ _ (ground (arith, e)) h, keep i _ _ (ground (arith, e)) h')
  parse_kind-InOrder unknown i r cfg cfg' e h = absurd (ground (arith, e))

  parse_all-InOrder :
      (i : ℕ) (rs : List (Resource Node)) (cfg out : Parsed Node Telemetry)
      → parse_all decode i rs cfg ≡ ok out
      → InOrder i cfg
      → Increasing out.request_plugins × Increasing out.response_plugins
  unfolding parse_all
  parse_all-InOrder i [] cfg out e ((h, b), (h', b')) =
      let same : cfg ≡ out = ok-injective cfg out e in rw (sym same) (h, h')
  parse_all-InOrder i (r ∷ rs) cfg out e h =
      elim (Result-cases (parse_kind decode (kind_of r.kind) i r cfg)) [
        | inl (x, f) ↦ absurd (ground (arith, e, f))
        | inr (mid, f) ↦
            parse_all-InOrder (suc i) rs mid out (ground (arith, e, f))
              (parse_kind-InOrder (kind_of r.kind) i r cfg mid f h)
      ]

  pub parse-Increasing :
      (rs : List (Resource Node)) (cfg : Config Node Telemetry)
      → parse decode rs ≡ ok cfg
      → Increasing cfg.request_plugins × Increasing cfg.response_plugins
  unfolding parse finish
  parse-Increasing rs cfg e = elim (Result-cases (parse_all decode 0 rs (nothing_parsed decode))) [
    | inl (x, f) ↦ absurd (ground (arith, e, f))
    | inr (out, f) ↦
        let (h, h') = parse_all-InOrder 0 rs (nothing_parsed decode) out f ((tt, tt), (tt, tt)) in
        let same : cfg.request_plugins ≡ out.request_plugins = ground (arith, e, f) in
        let same' : cfg.response_plugins ≡ out.response_plugins = ground (arith, e, f) in
        (rw same h, rw same' h')
  ]
