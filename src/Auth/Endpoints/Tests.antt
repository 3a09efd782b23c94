-- ===== src/Auth/Endpoints/Tests.antt =====
-- A sign-in that is started and completed, and a callback that nobody started.
use hog.Session.Manager.Browser.{accept}
use hog.Base.{String, true, none, some, [], ◌∷◌, ◌≡◌, ◌⊎◌, refl, ◌==◌, if◌then◌else◌, err}
use hog.Http.{Request, Exchange}
use hog.Session.Principal.{empty_context}
use hog.Session.Record.{Tokens}
use hog.Session.Manager.{no_session}
use hog.Session.Interface.{Manager}
use hog.Session.Identity.{IdentityConfig}
use hog.Session.State.{cookie_named}
use hog.Session.Fixtures.{toy_aead}
use hog.Auth.LoginState.{LoginState, safe_return_to}
use hog.Auth.Endpoints.{Handlers, login, callback, login_cookie_of, started}
use hog.Auth.Endpoints.SignIn.{IsStarted, callback-forged}

abbrev request : Request
request = record {
  method = "GET";
  path = "/";
  uri = "/";
  pattern = "";
  host = "x";
  remote_addr = "";
  header = ("Authorization", "Bearer t1" ∷ []) ∷ [];
  cookies = [];
  context = empty_context;
}

abbrev identity_config : IdentityConfig
identity_config = record {
  claims = [];
  groups = none;
  user_info = "never";
  subject_claim = "sub";
  assertion = none;
}

-- the callback's URI holds no more than its state
abbrev query_of : String → String → String
query_of uri name = if name == "state" then uri else (if name == "code" then "c1" else "")

abbrev sessions : Manager (Unit {0})
sessions = record {
  read = λ r w. (err no_session, w);
  issue = λ r i d t w. (some [], w);
  clear = λ r w. ([], w);
}

abbrev tokens : Tokens
tokens = record { id_token = ""; access_token = "a"; refresh_token = ""; expiry = 0 }

abbrev handlers : Handlers (Unit {0})
handlers = record {
  idp = record {
    uses_pkce = true;
    auth_code_url = λ s n v. "https://idp";
    exchange = λ c v n w. (some (tokens, record { subject = "alice"; claims = [] }), w);
    user_info = λ t w. (none, w);
  };
  sess = sessions;
  codec = record {
    marshal = λ ls. "ls";
    unmarshal = λ t.
        some
          (record { state = "s1"; nonce = "n1"; verifier = "v1"; return_to = safe_return_to "" });
  };
  aead = toy_aead;
  key = "key";
  query = query_of;
  digest = λ s. s;
  post_logout_redirect = "/";
  location = λ r target. target;
  id_cfg = identity_config;
}

abbrev begin : Exchange (Unit {0})
begin = record {
  writer = record { header = []; set_cookies = []; status = none; body = "" };
  world = tt;
}

nothing_carried : ¬ IsStarted handlers request
unfolding login_cookie_of cookie_named
nothing_carried (name, value, ls, carried, opened, same) = cc (carried, no_cookie)
  where
    no_cookie : login_cookie_of handlers (query_of "/" "state") [] ≡ none
    no_cookie = refl

callback-forged_example :
    ((callback handlers request begin).world ≡ tt) ⊎ ((callback handlers request begin).world ≡ tt)
callback-forged_example = callback-forged handlers request begin nothing_carried

abbrev begun : LoginState
begun = started handlers "s1" "n1" "v1" request

abbrev back : Request
back = record request {
  uri = "s1";
  cookies =
      accept (login handlers "s1" "n1" "v1" "nonce-of-12b" request begin).writer.set_cookies [];
}
