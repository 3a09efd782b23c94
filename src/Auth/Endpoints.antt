-- ===== src/Auth/Endpoints.antt =====
-- auth/endpoints.go and auth/config.go: the endpoints of a browser's sign-in. The identity provider, the
-- query of a URL and the digests are parameters; random values are arguments.
pub mod SignIn
mod Tests
use hog.Base.{
  String, ◌<>◌, ℕ, Bool, true, false, Option, none, some, List, [], ◌∷◌, ◌++◌, not, ◌&&◌, ◌||◌,
  ◌==◌, if◌then◌else◌, ltb, length, any, contains, is_some, map, select, Result, ok, err,
}
use hog.Base.Text
use hog.Base.Dict.{Dict}
use hog.Http.{
  Request, Cookie, SetCookie, Writer, Exchange, Handler, writing, set_cookie, error, redirect,
}
use hog.Session.Value.{Value}
use hog.Session.Record.{Session, Identity, Tokens, secure_from_request}
use hog.Session.Manager.{ReadError}
use hog.Session.State.{cookie_named}
use hog.Session.Sealer.{Aead}
use hog.Session.Interface.{Manager}
use hog.Session.Identity.{IdentityConfig}
use hog.Auth.LoginState.{LoginState, Codec, safe_return_to, seal_login_state, open_login_state}

-- `idp.IdP`, for the endpoints; an error is none
pub record Idp (World : Type 0) : Type 0 where
  pub uses_pkce : Bool
  pub auth_code_url : String → String → String → String
  pub exchange : String → String → String → World → Option (Tokens × Identity) × World
  pub user_info : String → World → Option (Dict Value) × World

-- `Handlers`, with what it is built on
pub record Handlers (World : Type 0) : Type 0 where
  pub idp : Idp World
  pub sess : Manager World
  pub codec : Codec
  pub aead : Aead
  pub key : String
  pub query : String → String → String  -- URL.Query().Get, of the URI and a name
  pub digest : String → String  -- the hex of the first 8 bytes of SHA-256
  pub post_logout_redirect : String
  pub location : Request → String → String  -- what http.Redirect makes of a target, by net/url
  pub id_cfg : IdentityConfig

abbrev pub login_cookie : String
login_cookie = "hog_login"

abbrev pub login_ttl : ℕ
login_ttl = 600

abbrev pub max_login_flows : ℕ
max_login_flows = 5

-- `loginCookies`
abbrev pub is_login_cookie : Cookie → Bool
is_login_cookie c = c.name == login_cookie || Text.has_prefix c.name "hog_login_"

abbrev pub login_cookies : Request → List Cookie
login_cookies r = select is_login_cookie r.cookies

-- `expireLoginCookie`
abbrev pub expired_cookie : Request → String → SetCookie
expired_cookie r name = record {
  name = name;
  value = "";
  max_age = some 0;
  secure = secure_from_request r;
}

pub expire_all : Request → List Cookie → Writer → Writer
expire_all r [] w = w
expire_all r (c ∷ cs) w = expire_all r cs (set_cookie (expired_cookie r c.name) w)

-- `NeedsUserInfo`
unfoldable pub needs_user_info : IdentityConfig → Bool
needs_user_info cfg =
    if cfg.user_info == "always"
    then true
    else if cfg.user_info == "never"
    then false
    else is_some cfg.groups
      || any (λ c. not (contains ("sub" ∷ "email" ∷ "name" ∷ "given_name" ∷ "family_name" ∷ []) c))
          cfg.claims

pub add_cookies : List SetCookie → Writer → Writer
add_cookies cs w = record w { set_cookies = w.set_cookies ++ cs }

module _ {World : Type 0} (h : Handlers World) where
  -- `loginCookieName`
  abbrev pub login_cookie_name : String → String
  login_cookie_name state = "hog_login_" <> h.digest state

  -- the login state that `Login` makes of its random values
  abbrev pub started : String → String → String → Request → LoginState
  started state nonce verifier r = record {
    state = state;
    nonce = nonce;
    verifier = if h.idp.uses_pkce then verifier else "";
    return_to = safe_return_to (h.query r.uri "return_to");
  }

  -- `Login`, with its random values and the sealer's nonce
  unfoldable pub login : String → String → String → String → Handler World
  unfolding expire_all
  login state nonce verifier seal_nonce r x =
      let ls = started state nonce verifier r in
      let flows = login_cookies r in
      let w =
        if not (ltb (length flows) max_login_flows)
        then expire_all r flows x.writer
        else x.writer in
      let cookie : SetCookie = record {
        name = login_cookie_name state;
        value = seal_login_state h.codec h.aead h.key seal_nonce ls;
        max_age = some login_ttl;
        secure = secure_from_request r;
      } in
      record x {
        writer =
            redirect (h.location r (h.idp.auth_code_url state nonce ls.verifier)) 302
              (set_cookie cookie w);
      }

  rejected : String → Result ReadError Session × World → Writer → Exchange World
  rejected msg (ok s, world) w = record { writer = redirect "/" 302 w; world = world }
  rejected msg (err e, world) w = record { writer = error msg 400 w; world = world }

  -- `rejectCallback`
  unfoldable pub reject_callback : String → Handler World
  unfolding rejected
  reject_callback msg r x = rejected msg (h.sess.read r x.world) x.writer

  -- the cookie of the sign-in, by its own name or by the old one
  unfoldable pub login_cookie_of : String → List Cookie → Option (String × String)
  login_cookie_of state cs = elim (cookie_named (login_cookie_name state) cs) [
    | some v ↦ some (login_cookie_name state, v)
    | none ↦ elim (cookie_named login_cookie cs) [ some v ↦ some (login_cookie, v) | none ↦ none ]
  ]

  issued : LoginState → String → Request → Option (List SetCookie) × World → Writer → Exchange World
  issued ls name r (none, world) w = record { writer = error "internal error" 500 w; world = world }
  issued ls name r (some cs, world) w = record {
    writer =
        redirect (h.location r ls.return_to) 302
          (set_cookie (expired_cookie r name) (add_cookies cs w));
    world = world;
  }

  with_info :
      LoginState
      → String
      → Request
      → Tokens × Identity
      → Option (Dict Value) × World
      → Writer
      → Exchange World
  unfolding issued add_cookies
  with_info ls name r answer (none, world) w = record {
    writer = error "authentication failed" 502 w;
    world = world;
  }
  with_info ls name r (tokens, identity) (some info, world) w =
      issued ls name r (h.sess.issue r identity info tokens world) w

  exchanged :
      LoginState → String → Request → Option (Tokens × Identity) × World → Writer → Exchange World
  unfolding with_info
  exchanged ls name r (none, world) w = record {
    writer = error "authentication failed" 502 w;
    world = world;
  }
  exchanged ls name r (some (tokens, identity), world) w =
      let info =
        if needs_user_info h.id_cfg
        then h.idp.user_info tokens.access_token world
        else (some [], world) in
      with_info ls name r (tokens, identity) info w

  -- the callback, once its login state is open
  with_state : String → String → LoginState → Handler World
  unfolding exchanged reject_callback
  with_state state name ls r x =
      let code = h.query r.uri "code" in
      if not (h.query r.uri "error" == "")
      then writing (error "identity provider returned an error" 400) x
      else if code == "" || not (state == ls.state)
      then reject_callback "invalid authentication response" r x
      else exchanged ls name r (h.idp.exchange code ls.verifier ls.nonce x.world) x.writer

  with_cookie : String → Option (String × String) → Handler World
  unfolding with_state
  with_cookie state none r x = reject_callback "login session expired; please restart sign-in" r x
  with_cookie state (some (name, value)) r x = elim (open_login_state h.codec h.aead h.key value) [
    | none ↦ reject_callback "login session invalid; please restart sign-in" r x
    | some ls ↦ with_state state name ls r x
  ]

  -- `Callback`
  unfoldable pub callback : Handler World
  unfolding with_cookie login_cookie_of
  callback r x =
      let state = h.query r.uri "state" in with_cookie state (login_cookie_of state r.cookies) r x

  -- `Logout`
  unfoldable pub logout : Handler World
  unfolding add_cookies
  logout r x =
      let (cs, world) = h.sess.clear r x.world in
      record {
        writer = redirect (h.location r h.post_logout_redirect) 302 (add_cookies cs x.writer);
        world = world;
      }
