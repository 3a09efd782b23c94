-- ===== src/Config/Env.antt =====
-- config/env.go: ${VAR} and ${VAR:-default} in the text of a configuration.
pub mod Expanded
mod Tests
use hog.Base.{
  String, ◌<>◌, ℕ, zero, suc, Bool, true, false, Option, none, some, Result, ok, err, ◌>>=◌,
}
use hog.Base.Text.{size}
use hog.Base.Text.Cut.{cut}

-- why an expansion fails; `out_of_fuel` is the model's
pub data EnvError : Type 0 where
  unterminated out_of_fuel : EnvError
  not_set : String → EnvError

-- the value of what stands between the braces
named : Option String → String → Option String → Result EnvError String
named (some v) name def = ok v
named none name (some def) = ok def
named none name none = err (not_set name)

pub value_of : (String → Option String) → String → Result EnvError String
unfolding named
value_of lookup expr = elim (cut ":-" expr) [
  | none ↦ named (lookup expr) expr none
  | some (name, def) ↦ named (lookup name) name (some def)
]

expand_loop : ℕ → (String → Option String) → String → Result EnvError String
unfolding value_of
expand_loop zero lookup s = err out_of_fuel
expand_loop (suc fuel) lookup s = elim (cut "${" s) [
  | none ↦ ok s
  | some (before, opened) ↦ elim (cut "}" opened) [
    | none ↦ err unterminated
    | some (expr, after) ↦ value_of lookup expr >>= λ value.
        expand_loop fuel lookup after >>= λ rest. ok (before <> (value <> rest))
  ]
]

-- `ExpandEnv`: each round drops two characters at least, so the length is fuel enough
unfoldable pub expand_env : String → (String → Option String) → Result EnvError String
unfolding expand_loop
expand_env s lookup = expand_loop (suc (size s)) lookup s
