-- ===== src/Auth/LoginState.antt =====
-- auth/loginstate.go: the sealed state of a sign-in, and the path to return to.
use hog.Base.{
  ◌⊎◌, String, false, Option, none, some, ◌==◌, not, ◌||◌, if◌then◌else◌, ◌≡◌, ◌≢◌, refl, arith,
  Bool-cases, inl, inr, String-discrete,
}
use hog.Base.Text
use hog.Base.Text.{size}
use hog.Route.Effective.{IsSameOrigin, not_cross_origin}
use hog.Route.{is_cross_origin}
use hog.Session.Sealer.{Aead, IsSound, seal, unseal, unseal_same, nonce_size}

-- `loginState`
pub record LoginState : Type 0 where
  pub state : String
  pub nonce : String
  pub verifier : String
  pub return_to : String

-- JSON of login states.
pub record Codec : Type 0 where
  pub marshal : LoginState → String
  pub unmarshal : String → Option LoginState

abbrev pub login_aad : String
login_aad = "hog/login/v1"

module _ (c : Codec) (aead : Aead) (key : String) where
  -- `sealLoginState`, with the nonce that was drawn
  unfoldable pub seal_login_state : String → LoginState → String
  seal_login_state nonce ls = seal aead key nonce (c.marshal ls) login_aad

  decoded : Option String → Option LoginState
  decoded none = none
  decoded (some raw) = c.unmarshal raw

  -- `openLoginState`
  unfoldable pub open_login_state : String → Option LoginState
  unfolding decoded
  open_login_state value = decoded (unseal aead key value login_aad)

  -- A sealed login state opens as what it was.
  pub open_login_state-seal :
      IsSound aead
      → (nonce : String) (ls : LoginState) → size nonce ≡ nonce_size
      → c.unmarshal (c.marshal ls) ≡ some ls
      → open_login_state (seal_login_state nonce ls) ≡ some ls
  unfolding open_login_state seal_login_state
  open_login_state-seal sound nonce ls fits faithful =
      rw (unseal_same aead sound key nonce (c.marshal ls) "hog/login/v1" fits) faithful

-- `safeReturnTo`
unfoldable pub safe_return_to : String → String
safe_return_to raw =
    if raw == "" || not (Text.has_prefix raw "/")
    then "/"
    else if Text.has_prefix raw "//" || Text.has_prefix raw "/\\"
    then "/"
    else if Text.contains raw "://"
    then "/"
    else raw

slash_is_safe : is_cross_origin "/" ≡ false
unfolding is_cross_origin Text.has_prefix Text.contains
slash_is_safe = refl

not_empty :
    (raw : String) → raw ≢ "" → safe_return_to raw ≡ (if is_cross_origin raw then "/" else raw)
unfolding safe_return_to is_cross_origin
not_empty raw n = ground arith

-- The code tests the same as the redirect of a denial is tested by, but for the empty text.
safe_return_to-is_cross_origin :
    (raw : String) → safe_return_to raw ≡ (if is_cross_origin raw then "/" else raw)
unfolding safe_return_to is_cross_origin Text.has_prefix String-discrete
safe_return_to-is_cross_origin raw = elim (String-discrete raw "") [
  | yes e ↦ rw (e, String-discrete) refl
  | no n ↦ not_empty raw n
]

IsSameOrigin-kept : (raw : String) → IsSameOrigin raw → is_cross_origin raw ≡ false
unfolding is_cross_origin
IsSameOrigin-kept raw h = ground (
  arith,
  (Text.has_prefix_iff raw "/").1 h.rooted,
  (Text.has_prefix_iff raw "//").0,
  (Text.has_prefix_iff raw "/\\").0,
  (Text.contains_iff raw "://").0,
  h.not_relative,
  h.not_backslash,
  h.no_scheme,
)

-- The path that a sign-in returns to is always one on the same origin: the one that was asked for, or "/" if
-- that is not.
pub safe_return_to-IsSameOrigin :
    (raw : String)
    → IsSameOrigin (safe_return_to raw)
      × ((safe_return_to raw ≡ raw) ⊎ ((safe_return_to raw ≡ "/") × (¬ IsSameOrigin raw)))
safe_return_to-IsSameOrigin raw = elim (Bool-cases (is_cross_origin raw)) [
  | inl e ↦ (
    rw (safe_return_to-is_cross_origin raw, e) (not_cross_origin "/" slash_is_safe),
    inr (rw (safe_return_to-is_cross_origin raw, e) refl, λ h. cc (e, IsSameOrigin-kept raw h)),
  )
  | inr e ↦ (
    rw (safe_return_to-is_cross_origin raw, e) (not_cross_origin raw e),
    inl (rw (safe_return_to-is_cross_origin raw, e) refl),
  )
]
