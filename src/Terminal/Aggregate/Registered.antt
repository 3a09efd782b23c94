-- ===== src/Terminal/Aggregate/Registered.antt =====
-- What the factory of the handler guarantees.
use hog.Base.{
  String, true, false, List, [], ◌∷◌, map, ok, ◌≡◌, refl, sym, arith, contains, inl, inr,
  Result-cases, ok-injective,
}
use hog.Base.Names.{NoDup}
use hog.Terminal.Aggregate.{
  Backend, BackendConfig, ApiConfig, ApiHandler, Parsers, new_backend, new_backends, new_api,
}

abbrev pub groups : List Backend → List String
groups bs = map (λ b. b.group) bs

new_backend-group :
    (std : Parsers) (c : BackendConfig) (b : Backend) → new_backend std c ≡ ok b → b.group ≡ c.group
unfolding new_backend
new_backend-group std c b e = ground arith

-- the backends of a longer list
abbrev Taken : Parsers → List String → BackendConfig → List BackendConfig → List Backend → Type 0
Taken std seen c cs bs =
    (b : Backend) × (rest : List Backend) × (bs ≡ b ∷ rest)
    × (b.group ≡ c.group)
    × (contains seen c.group ≡ false)
    × (new_backends std (c.group ∷ seen) cs ≡ ok rest)

new_backends-Taken :
    (std : Parsers) (seen : List String) (c : BackendConfig) (cs : List BackendConfig)
    (bs : List Backend)
    → new_backends std seen (c ∷ cs) ≡ ok bs
    → Taken std seen c cs bs
unfolding new_backends
new_backends-Taken std seen c cs bs e = elim (Result-cases (new_backend std c)) [
  | inl (x, f) ↦ absurd (ground (arith, e, f))
  | inr (b, f) ↦ elim (Result-cases (new_backends std (c.group ∷ seen) cs)) [
    | inl (x, g) ↦ absurd (ground (arith, e, f, g))
    | inr (rest, g) ↦
        (b, rest, ground (arith, e, f, g), new_backend-group std c b f, ground (arith, e), g)
  ]
]

new_backends-none :
    (std : Parsers) (seen : List String) (bs : List Backend)
    → new_backends std seen [] ≡ ok bs
    → bs ≡ []
unfolding new_backends
new_backends-none std seen bs e = sym (ok-injective _ _ e)

new_backends-seen :
    (std : Parsers) (seen : List String) (cs : List BackendConfig) (bs : List Backend) (g : String)
    → new_backends std seen cs ≡ ok bs
    → contains seen g ≡ true
    → contains (groups bs) g ≡ false
new_backends-seen std seen [] bs g e h = rw (new_backends-none std seen bs e) refl
new_backends-seen std seen (c ∷ cs) bs g e h =
    let (b, rest, f, same, new, more) = new_backends-Taken std seen c cs bs e in
    rw f (ground (arith, same, new, h, new_backends-seen std (c.group ∷ seen) cs rest g more))

new_backends-NoDup :
    (std : Parsers) (seen : List String) (cs : List BackendConfig) (bs : List Backend)
    → new_backends std seen cs ≡ ok bs
    → NoDup (groups bs)
new_backends-NoDup std seen [] bs e = rw (new_backends-none std seen bs e) tt
new_backends-NoDup std seen (c ∷ cs) bs e =
    let (b, rest, f, same, new, more) = new_backends-Taken std seen c cs bs e in
    let unseen =
      new_backends-seen std (c.group ∷ seen) cs rest b.group more (ground (arith, same)) in
    rw f (unseen, new_backends-NoDup std (c.group ∷ seen) cs rest more)

-- The groups of a handler are distinct.
pub new_api-NoDup :
    (std : Parsers) (ac : ApiConfig) (h : ApiHandler)
    → new_api std ac ≡ ok h
    → NoDup (groups h.backends)
unfolding new_api
new_api-NoDup std ac h e = by_backends ac.backends refl
  where
    by_backends : (cs : List BackendConfig) → ac.backends ≡ cs → NoDup (groups h.backends)
    by_backends [] f = absurd (ground (arith, e, f))
    by_backends (c ∷ cs) f = elim (Result-cases (new_backends std [] (c ∷ cs))) [
      | inl (x, g) ↦ absurd (ground (arith, e, f, g))
      | inr (bs, g) ↦
          let same : h.backends ≡ bs = ground (arith, e, f, g) in
          rw same (new_backends-NoDup std [] (c ∷ cs) bs g)
    ]
