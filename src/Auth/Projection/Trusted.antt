-- ===== src/Auth/Projection/Trusted.antt =====
-- Which values a backend can trust in the identity headers.
use hog.Base.{
  String, false, Option, none, not, ◌&&◌, ◌==◌, if◌then◌else◌, ◌≡◌, ◌≢◌, refl, arith,
  String-discrete,
}
use hog.Base.Text
use hog.Base.Text.{any_char}
use hog.Base.Dict
use hog.Base.Dict.{Dict, lookup}
use hog.Http.{Request, Exchange, Header, Handler, get, del, with_header}
use hog.Http.Headers.{get-set, get-del}
use hog.Session.Value.{Value}
use hog.Session.Principal.{Principal, from_context}
use hog.Route.{ProjectionConfig, SessionProjection}
use hog.Authz.{is_empty}
use hog.Auth.Projection.{
  is_user_header, strip_user_headers, is_control, is_safe, set_header_safe, groups_header,
  apply_projection, project_claims, projection_gate, projected,
}

get-strip_user_headers :
    (j : String) (h : Header)
    → get j (strip_user_headers h) ≡ (if is_user_header (Text.canonical j) then "" else get j h)
unfolding get strip_user_headers
get-strip_user_headers j h = rw Dict.lookup-erase_keys (ground arith)

get-set_header_safe :
    (j n v : String) (h : Header)
    → get j (set_header_safe n v h)
      ≡ (if is_safe n v && Text.canonical j == Text.canonical n then v else get j h)
unfolding set_header_safe
get-set_header_safe j n v h = ground (arith, get-set j n v h)

user_id_canonical : Text.canonical "X-User-Id" ≡ "X-User-Id"
unfolding Text.canonical
user_id_canonical = refl

user_id_safe : (v : String) → is_safe "X-User-Id" v ≡ not (any_char is_control v)
unfolding String-discrete
user_id_safe v = refl

-- A request without a principal reaches the backend with no header of the X-User- namespace, whatever the
-- client sent; every other header is as it was.
pub projection_gate-anonymous :
    {World Node : Type 0} (sprint : Value → String) (proj : Option (ProjectionConfig Node))
    (groups_as : String) (r : Request)
    → from_context r.context ≡ none
    → (h : Header) × ((next : Handler World) (x : Exchange World)
        → projection_gate sprint proj groups_as next r x ≡ next (with_header h r) x)
      × ((j : String)
          → get j h ≡ (if is_user_header (Text.canonical j) then "" else get j r.header))
unfolding projection_gate projected
projection_gate-anonymous sprint proj groups_as r anonymous = (
  strip_user_headers r.header,
  λ next x. rw (anonymous, projection_gate, projected) refl,
  λ j. get-strip_user_headers j r.header,
)

module _ (sprint : Value → String) (p : Principal) (sp : Option SessionProjection)
    (groups_as : String) (h : Header) where
  abbrev groups : String
  groups = groups_header sp groups_as

  -- The backend reads the principal's own subject in X-User-Id, whatever the client sent and the passport
  -- claims say; if the subject has no control character and the groups are not written to that header.
  pub apply_projection-subject :
      Text.canonical (groups_header sp groups_as) ≢ "X-User-Id"
      → any_char is_control p.subject ≡ false
      → get "X-User-Id" (apply_projection sprint p sp groups_as h) ≡ p.subject
  unfolding apply_projection
  apply_projection-subject apart printable =
      let before = project_claims sprint sp groups p.passport h in
      let named = set_header_safe "X-User-Id" p.subject before in
      ground (
        arith,
        apart,
        user_id_canonical,
        user_id_safe p.subject,
        get-set_header_safe "X-User-Id" groups (Text.join p.groups ",") (del groups named),
        get-del "X-User-Id" groups named,
        get-set_header_safe "X-User-Id" "X-User-Id" p.subject before,
      )

  -- The groups' header holds the principal's groups or nothing, whatever the client sent and the passport claims say.
  pub apply_projection-groups :
      get (groups_header sp groups_as) (apply_projection sprint p sp groups_as h) ≡ (
        if not (is_empty p.groups) && is_safe (groups_header sp groups_as) (Text.join p.groups ",")
        then Text.join p.groups ","
        else "")
  unfolding apply_projection
  apply_projection-groups =
      let named =
        set_header_safe "X-User-Id" p.subject (project_claims sprint sp groups p.passport h) in
      ground (
        arith,
        get-set_header_safe groups groups (Text.join p.groups ",") (del groups named),
        get-del groups groups named,
      )
