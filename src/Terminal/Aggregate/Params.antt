-- ===== src/Terminal/Aggregate/Params.antt =====
-- terminal/aggregate.go: the route's parameters in a backend's path.
pub mod Written
use hog.Base.{
  String, ◌<>◌, ℕ, zero, suc, Bool, true, false, Option, none, some, Result, ok, err, guard, ◌>>◌,
  ◌>>=◌, not, ◌&&◌, ◌||◌, ◌==◌, eqb, if◌then◌else◌,
}
use Prim.Native.Char.{Char, code}
use hog.Base.Text.{size, contains, any_char}
use hog.Base.Text.Cut.{cut}

-- `ok=false`; `out_of_fuel` is the model's
pub data SubstituteError : Type 0 where
  unsafe_value out_of_fuel : SubstituteError

abbrev pub is_slash : Char → Bool
is_slash c = eqb (code c) b'/' || eqb (code c) 92

-- `safePathValue`
unfoldable pub safe_path_value : String → Bool
safe_path_value v = not (v == "") && not (any_char is_slash v) && not (v == ".") && not (v == "..")

substitute_loop : ℕ → String → (String → String) → Result SubstituteError String
unfolding safe_path_value
substitute_loop zero p path_value = err out_of_fuel
substitute_loop (suc fuel) p path_value = elim (cut "{" p) [
  | none ↦ ok p
  | some (before, opened) ↦ elim (cut "}" opened) [
    | none ↦ ok p
    | some (name, after) ↦
        guard (safe_path_value (path_value name)) unsafe_value
        >> (substitute_loop fuel after path_value >>= λ rest.
            ok (before <> (path_value name <> rest)))
  ]
]

-- `substituteParams`: each round drops two characters at least, so the length is fuel enough
unfoldable pub substitute_params : String → (String → String) → Result SubstituteError String
unfolding substitute_loop
substitute_params p path_value =
    if not (contains p "{") then ok p else substitute_loop (suc (size p)) p path_value
