-- ===== src/Session/Manager/Tests.antt =====
-- A session that is issued and read back.
use hog.Base.{ap, ◌≤◌, ◌^◌, none, some, [], ◌∷◌, ◌≡◌, ◌≢◌, refl, ok, arith}
use hog.Base.Text
use hog.Base.Text.{size}
use hog.Http.{Request}
use hog.Session.Principal.{empty_context}
use hog.Session.Sealer.{seal}
use hog.Session.Record.{Config, Identity, Tokens, make_session, compute_fingerprint}
use hog.Session.Manager.{Platform, IsFaithful, issue, read}
use hog.Base.{err}
use hog.Session.Manager.{clear, no_session}
use hog.Session.Manager.SignedOut.{read-clear}
use hog.Session.Manager.Browser.{accept}
use hog.Session.Manager.RoundTrip.{read-issue, made, sealed}
use hog.Session.Fixtures.{toy_aead, toy_aead-IsSound, write_clear}

abbrev config : Config
config = record {
  cookie_name = "hog_session";
  key = "key";
  ttl = 3600;
  fingerprint_headers = [];
  passport_claims = "sub" ∷ [];
  groups = none;
  info_path = "/session";
  post_logout_redirect = "/";
  subject_claim = "sub";
}

abbrev alice : Identity
alice = record { subject = "alice"; claims = [] }

abbrev tokens : Tokens
tokens = record { id_token = "i"; access_token = "a"; refresh_token = "rt1"; expiry = 300 }

abbrev login : Request
login = record {
  method = "GET";
  path = "/auth/callback";
  uri = "/auth/callback";
  pattern = "";
  host = "x";
  remote_addr = "";
  header = [];
  cookies = record { name = "hog_session.0"; value = "old" } ∷ [];
  context = empty_context;
}

abbrev platform : Platform
platform = record {
  lower = Text.lower_char;
  hash = λ s. s;
  aead = toy_aead;
  marshal = λ s. "alice";
  unmarshal = λ t. some (make_session Text.lower_char (λ s. s) 100 config alice [] tokens login);
}

abbrev next : Request
next = record login {
  cookies = accept (issue platform config 100 "nonce-of-12b" login alice [] tokens) login.cookies;
}

faithful :
    IsFaithful platform
      (made platform config toy_aead-IsSound "nonce-of-12b" alice [] tokens login 100)
unfolding make_session
faithful = refl

same_fingerprint : compute_fingerprint (λ s. s) [] login ≡ compute_fingerprint (λ s. s) [] next
unfolding compute_fingerprint
same_fingerprint = refl

not_empty : sealed platform config toy_aead-IsSound "nonce-of-12b" alice [] tokens login 100 ≢ ""
unfolding seal write_clear
not_empty e = absurd (omega (arith, ap size e))

small :
    size (sealed platform config toy_aead-IsSound "nonce-of-12b" alice [] tokens login 100) ≤ 2 ^ 63
unfolding seal write_clear
small = omega arith

read-issue_example :
    read platform config 200 next
    ≡ ok (made platform config toy_aead-IsSound "nonce-of-12b" alice [] tokens login 100)
read-issue_example =
    read-issue platform config toy_aead-IsSound "nonce-of-12b" alice [] tokens login 100 next 200
      faithful refl not_empty small refl same_fingerprint (omega arith)

abbrev signed_out : Request
signed_out = record login { cookies = accept (clear platform config login) login.cookies }

read-clear_example : read platform config 300 signed_out ≡ err no_session
read-clear_example = read-clear platform config login signed_out 300 refl
