-- ===== src/Auth/Projection.antt =====
-- auth/projection.go: the identity headers of a backend's request. The upper and lower case of a
-- name are ASCII's; `fmt.Sprint` is a parameter.
pub mod Trusted
use Prim.Native.Char.{Char, code}
use Prim.Native.String as S
use hog.Base.{
  String, ◌<>◌, ℕ, Bool, true, false, Option, none, some, List, [], ◌∷◌, not, ◌&&◌, ◌||◌, ◌==◌,
  if◌then◌else◌, ltb, eqb, map,
}
use hog.Base.Text
use hog.Base.Text.{any_char, map_chars}
use hog.Base.Dict
use hog.Base.Dict.{Dict, lookup}
use hog.Http.{Request, Header, Handler, with_header, set, del}
use hog.Session.Value.{Value, str, null, bool, num, arr, strs, obj}
use hog.Session.Principal.{Principal, from_context}
use hog.Route.{ProjectionConfig, SessionProjection, GroupsProjection}
use hog.Chain.{Middleware}
use hog.Authz.{stringify, is_empty}

-- a header in the namespace that only the gateway writes
abbrev pub is_user_header : String → Bool
is_user_header name = Text.has_prefix (Text.canonical name) "X-User-"

-- `stripUserHeaders`; the names of a server's request are canonical
unfoldable pub strip_user_headers : Header → Header
strip_user_headers h = Dict.erase_keys is_user_header h

-- `invalidHeaderNameChar`, `setHeaderSafe`
abbrev pub is_control : Char → Bool
is_control c = ltb (code c) 0x20 || eqb (code c) 0x7f

abbrev pub is_safe : String → String → Bool
is_safe name value =
    not (name == "" || any_char (λ c. not (Text.is_token_char c)) name)
    && not (any_char is_control value)

unfoldable pub set_header_safe : String → String → Header → Header
set_header_safe name value h = if is_safe name value then set name value h else h

-- `isScalar`
abbrev pub is_scalar : Value → Bool
is_scalar null = false
is_scalar (bool _) = true
is_scalar (num _) = true
is_scalar (str _) = true
is_scalar (arr _) = false
is_scalar (strs _) = false
is_scalar (obj _) = false

-- `strings.FieldsFunc` by "_" and "-": the words, the one that is being read first
fields : String → String → List String
fields word S.[] = if word == "" then [] else word ∷ []
fields word (S.◌∷◌ c s) =
    let ended = fields "" s in
    let longer = fields (word <> (S.◌∷◌ c "")) s in
    if eqb (code c) b'_' || eqb (code c) b'-'
    then (if word == "" then ended else word ∷ ended)
    else longer

titled : String → String
titled S.[] = ""
titled (S.◌∷◌ c s) = S.◌∷◌ (Text.upper_char c) (Text.to_lower s)

-- `canon`
unfoldable pub canon : String → String
unfolding fields titled Text.upper_char
canon name = Text.join (map titled (fields "" name)) "-"

-- `projectionSession`
abbrev pub projection_session :
    {Node : Type 0} → Option (ProjectionConfig Node) → Option SessionProjection
projection_session none = none
projection_session (some proj) = proj.session

configured_header : Option GroupsProjection → Option String
configured_header none = none
configured_header (some g) = if g.header == "" then none else some g.header

groups_header_of : Option SessionProjection → Option String
unfolding configured_header
groups_header_of none = none
groups_header_of (some sp) = configured_header sp.groups

-- the header that the groups are written to
unfoldable pub groups_header : Option SessionProjection → String → String
unfolding groups_header_of
groups_header sp groups_as = elim (groups_header_of sp) [
  | none ↦ "X-User-" <> canon groups_as
  | some header ↦ header
]

claims_of : Option SessionProjection → Dict String
claims_of none = []
claims_of (some sp) = sp.claims

del_targets : Dict String → Header → Header
del_targets [] h = h
del_targets ((claim, header) ∷ claims) h = del_targets claims (del header h)

module _ (sprint : Value → String) where
  put_claim : String → Option Value → Header → Header
  put_claim header none h = h
  put_claim header (some v) h = set_header_safe header (stringify sprint v) h

  -- override mode: the configured claims that the passport has
  set_targets : Dict Value → Dict String → Header → Header
  unfolding put_claim
  set_targets passport [] h = h
  set_targets passport ((claim, header) ∷ claims) h =
      set_targets passport claims (put_claim header (lookup claim passport) h)

  -- derive mode, one claim
  derive_one : String → String → Value → Header → Header
  derive_one groups k v h =
      let c = canon k in
      let header = "X-User-" <> c in
      if c == ""
      then h
      else if header == "X-User-Id" || header == groups
      then h
      else if not (is_scalar v)
      then h
      else set_header_safe header (stringify sprint v) h

  derive : String → Dict Value → Header → Header
  unfolding derive_one
  derive groups [] h = h
  derive groups ((k, v) ∷ passport) h = derive groups passport (derive_one groups k v h)

  project_claims : Option SessionProjection → String → Dict Value → Header → Header
  unfolding set_targets derive del_targets claims_of
  project_claims sp groups passport h =
      if not (is_empty (claims_of sp))
      then set_targets passport (claims_of sp) (del_targets (claims_of sp) h)
      else derive groups passport h

  -- `applyProjection`
  unfoldable pub apply_projection : Principal → Option SessionProjection → String → Header → Header
  unfolding project_claims
  apply_projection p sp groups_as h =
      let groups = groups_header sp groups_as in
      let named = set_header_safe "X-User-Id" p.subject (project_claims sp groups p.passport h) in
      let cleared = del groups named in
      if is_empty p.groups then cleared else set_header_safe groups (Text.join p.groups ",") cleared

  projected : Option SessionProjection → String → Option Principal → Header → Header
  projected sp groups_as none h = h
  projected sp groups_as (some p) h = apply_projection p sp groups_as h

  -- `ProjectionGate`
  unfoldable pub projection_gate :
      {World : Type 0} {Node : Type 0} → Option (ProjectionConfig Node) → String → Middleware World
  unfolding projected strip_user_headers
  projection_gate proj groups_as next r x =
      let as_name = if groups_as == "" then "groups" else groups_as in
      let h =
        projected (projection_session proj) as_name (from_context r.context)
          (strip_user_headers r.header) in
      next (with_header h r) x
