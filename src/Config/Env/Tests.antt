-- ===== src/Config/Env/Tests.antt =====
-- A text with a variable that is set and one with a default.
use hog.Base.{
  String, ◌≡◌, ◌≢◌, refl, Option, none, some, List, [], ◌∷◌, err, false, ◌==◌, if◌then◌else◌, All,
}
use hog.Base.Text
use hog.Base.Text.{contains}
use hog.Config.Env.{expand_env, out_of_fuel}
use hog.Config.Env.Expanded.{
  Reference, IsPlain, written, meaning, expand_env_ends, expand_env-written,
}

abbrev environment : String → Option String
environment name = if name == "HOST" then some "${x}" else none

abbrev references : List Reference
references =
    record { before = "http://"; name = "HOST"; default = none }
    ∷ record { before = ":"; name = "PORT"; default = some "8080" }
    ∷ []

plain : All IsPlain references
unfolding contains Text.has_prefix
plain = ((refl, refl, refl), ((refl, refl, refl), tt))

plain_last : contains "/" "${" ≡ false
unfolding contains Text.has_prefix
plain_last = refl

expand_env-written_example :
    expand_env (written references "/") environment ≡ meaning environment references "/"
expand_env-written_example = expand_env-written environment references "/" plain plain_last

expand_env_ends_example : expand_env "a ${B" environment ≢ err out_of_fuel
expand_env_ends_example = expand_env_ends "a ${B" environment
