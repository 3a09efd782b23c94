-- ===== src/Auth/Gates.antt =====
-- auth/gates.go: the gate that resolves a session, and the one that asks for a principal. net/url is
-- a parameter.
use hog.Base.{
  String, ◌<>◌, Bool, Option, none, some, Result, ok, err, not, ◌&&◌, ◌||◌, ◌==◌, if◌then◌else◌,
  is_some,
}
use hog.Http.{Request, Writer, writing, with_context, get, set_header, error, redirect}
use hog.Session.Principal.{Context, with_principal, from_context}
use hog.Session.Record.{Session, principal}
use hog.Session.Manager.{ReadError}
use hog.Session.Interface.{Manager}
use hog.Chain.{Middleware}

-- net/url: a URL with a query parameter set, none if it does not parse, and `QueryEscape`
pub record Urls : Type 0 where
  pub with_param : String → String → String → Option String
  pub query_escape : String → String

resolved : Result ReadError Session → Request → Request
resolved (err _) r = r
resolved (ok s) r = with_context (with_principal r.context (some (principal s))) r

-- `SessionGate`; a nil manager is none
unfoldable pub session_gate : {World : Type 0} → Option (Manager World) → Middleware World
unfolding resolved
session_gate none next r x = next r x
session_gate (some m) next r x =
    let (answer, world) = m.read r x.world in next (resolved answer r) (record x { world = world })

-- `loginRedirectURL`
pub login_redirect_url : Urls → String → String → String
login_redirect_url urls login_path return_to =
    elim (urls.with_param login_path "return_to" return_to) [
      | none ↦ login_path <> "?return_to=" <> urls.query_escape return_to
      | some url ↦ url
    ]

-- `startsLogin`
unfoldable pub starts_login : Request → Bool
starts_login r = let mode = get "Sec-Fetch-Mode" r.header in mode == "" || mode == "navigate"

-- `bearerChallenge`
abbrev pub bearer_challenge : Context → String
bearer_challenge ctx = if ctx.bearer_error then "Bearer error=\"invalid_token\"" else "Bearer"

-- how a request that lacks a principal is answered
unfoldable pub turn_away : Urls → Bool → String → Request → Writer → Writer
unfolding starts_login
turn_away urls is_app login_path r w =
    if is_app && starts_login r
    then redirect (login_redirect_url urls login_path r.uri) 302 w
    else if is_app
    then error "unauthorized" 401 w
    else error "unauthorized" 401 (set_header "WWW-Authenticate" (bearer_challenge r.context) w)

-- `AuthGate`
unfoldable pub auth_gate : {World : Type 0} → Urls → Bool → Bool → String → Middleware World
unfolding turn_away
auth_gate urls required is_app login_path next r x =
    if required && not (is_some (from_context r.context))
    then writing (turn_away urls is_app login_path r) x
    else next r x
