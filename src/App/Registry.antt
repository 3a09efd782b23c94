-- ===== src/App/Registry.antt =====
-- registry/registry.go: the modules, by kind and name. A factory's config is a YAML node, its error a text.
use hog.Base.{
  String, ◌<>◌, Option, none, some, [], Result, err, ◌==◌, ◌&&◌, if◌then◌else◌, is_some, ◌≡◌, arith,
}
use hog.Base.Dict
use hog.Base.Dict.{Dict}

-- `Factory`, of modules in `M`
abbrev pub Factory : Type 0 → Type 0 → Type 0
Factory Node M = String → Node → Result String M

-- `Registry`, by its `byKind`
abbrev pub Registry : Type 0 → Type 0 → Type 0
Registry Node M = Dict (Dict (Factory Node M))

module _ {Node M : Type 0} where
  -- `r.byKind[kind]`, where a nil map has no names
  abbrev pub of_kind : Option (Dict (Factory Node M)) → Dict (Factory Node M)
  of_kind none = []
  of_kind (some d) = d

  -- `r.byKind[kind][name]`
  unfoldable pub factory_of : String → String → Registry Node M → Option (Factory Node M)
  factory_of kind name reg = Dict.lookup name (of_kind (Dict.lookup kind reg))

  -- `Register`, none where it panics
  pub register : String → String → Factory Node M → Registry Node M → Option (Registry Node M)
  unfolding factory_of
  register kind name f reg =
      if is_some (factory_of kind name reg)
      then none
      else some (Dict.insert kind (Dict.insert name f (of_kind (Dict.lookup kind reg))) reg)

  abbrev run_factory : String → String → Node → Option (Factory Node M) → Result String M
  run_factory kind name cfg none = err ("registry: no module " <> (kind <> ("/" <> name)))
  run_factory kind name cfg (some f) = f name cfg

  -- `Build`
  unfoldable pub build : Registry Node M → String → String → Node → Result String M
  unfolding factory_of
  build reg kind name cfg = run_factory kind name cfg (factory_of kind name reg)

  factory_of-register :
      (kind name k n : String) (f : Factory Node M) (reg reg' : Registry Node M)
      → register kind name f reg ≡ some reg'
      → factory_of k n reg' ≡ (if k == kind && n == name then some f else factory_of k n reg)
  unfolding factory_of register
  factory_of-register kind name k n f reg reg' e = ground (
    arith,
    e,
    Dict.lookup-insert k kind (Dict.insert name f (of_kind (Dict.lookup kind reg))) reg,
    Dict.lookup-insert n name f (of_kind (Dict.lookup kind reg)),
  )

  -- What is registered is what is built, under its kind and name, and every other module is built as before.
  pub build-register :
      (kind name k n : String) (f : Factory Node M) (reg reg' : Registry Node M) (cfg : Node)
      → register kind name f reg ≡ some reg'
      → build reg' k n cfg ≡ (if k == kind && n == name then f n cfg else build reg k n cfg)
  unfolding build
  build-register kind name k n f reg reg' cfg e =
      ground (arith, factory_of-register kind name k n f reg reg' e)
