-- ===== src/Terminal/Forward/Tests.antt =====
-- A route that forwards the access token, for a client that sends credentials of its own.
use hog.Base.{
  String, true, false, Option, none, some, [], ◌∷◌, ◌≡◌, refl, inl, ap, arith, ◌==◌, ◌&&◌,
  if◌then◌else◌,
}
use hog.Base.Text
use hog.Http.{Request, get}
use hog.Session.Principal.{Context}
use hog.Terminal.Forward.{
  ForwardOptions, prepare_backend_request, default_assertion_header, assertion_header_of,
}
use hog.Terminal.Forward.Backend.{IsOwn, prepare_backend_request_assertion}

abbrev context : Context
context = record {
  principal = some (
      some (record {
        subject = "u";
        passport = [];
        groups = [];
        access_token = "token";
        session_id = "s";
      }));
  bearer_error = false;
  assertion_header = "";
}

abbrev request : Request
request = record {
  method = "GET";
  path = "/";
  uri = "/";
  pattern = "";
  host = "x";
  remote_addr = "10.0.0.2";
  header = ("X-Hog-Identity", "signed" ∷ []) ∷ ("Authorization", "Bearer own" ∷ []) ∷ [];
  cookies = [];
  context = context;
}

abbrev options : ForwardOptions
options = record { forward_access_token = true; forward_cookies = false; forward_identity = true }

abbrev split_host : String → Option String
split_host addr = none

default-IsOwn : IsOwn default_assertion_header
unfolding Text.canonical
default-IsOwn = (
  (λ e. omega (arith, ap Text.size e)),
  (λ e. omega (arith, ap Text.size e)),
  λ e. omega (arith, ap Text.size e),
)

prepare_backend_request_assertion_example :
    get default_assertion_header (prepare_backend_request split_host options request request.header)
    ≡ (if true
          && Text.canonical default_assertion_header == Text.canonical (assertion_header_of context)
        then get default_assertion_header request.header
        else "")
prepare_backend_request_assertion_example =
    prepare_backend_request_assertion split_host options request request.header
      default_assertion_header default-IsOwn (inl refl)
