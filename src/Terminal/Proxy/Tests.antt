-- ===== src/Terminal/Proxy/Tests.antt =====
-- A proxy that forwards the access token, for a client that sends credentials of its own.
use hog.Base.{
  String, ◌<>◌, true, false, Option, none, some, [], ◌∷◌, ok, ◌≡◌, ◌≢◌, refl, ap, arith, ◌==◌, ◌&&◌,
  not, if◌then◌else◌, String-discrete,
}
use hog.Base.Text
use hog.Http.{Request, get}
use hog.Session.Principal.{Context, from_context}
use hog.Terminal.Forward.{token_of, assertion_header_of}
use hog.Terminal.Aggregate.{Url, Parsers}
use hog.Terminal.Proxy.{ProxyConfig, ProxyHandler, Outgoing, new_proxy, rewrite}
use hog.Terminal.Proxy.Rewritten.{rewrite_authorization}

abbrev context : Context
context = record {
  principal = some (
      some (record {
        subject = "u";
        passport = [];
        groups = [];
        access_token = "token";
        session_id = "s";
      }));
  bearer_error = false;
  assertion_header = "";
}

abbrev request : Request
request = record {
  method = "GET";
  path = "/";
  uri = "/";
  pattern = "";
  host = "x";
  remote_addr = "10.0.0.2";
  header = ("X-Hog-Identity", "signed" ∷ []) ∷ ("Authorization", "Bearer own" ∷ []) ∷ [];
  cookies = [];
  context = context;
}

default_apart : Text.canonical (assertion_header_of context) ≢ "Authorization"
unfolding Text.canonical String-discrete
default_apart e = omega (arith, ap Text.size e)

abbrev upstream : Url
upstream = record { scheme = "http"; host = "a"; path = ""; raw_query = "" }

abbrev parsers : Parsers
parsers = record {
  parse_url = λ s. some upstream;
  parse_duration = λ s. none;
  valid_request = λ m u. true;
}

abbrev config : ProxyConfig
config = record {
  upstream = "http://a";
  strip_prefix = "/api";
  preserve_host = false;
  forward_access_token = true;
  forward_cookies = false;
  forward_identity = false;
  timeout = "";
  insecure_skip_verify = false;
}

abbrev handler : ProxyHandler
handler = record {
  target = upstream;
  strip_prefix = "/api";
  preserve_host = false;
  opts = record { forward_access_token = true; forward_cookies = false; forward_identity = false };
  timeout = none;
  insecure = false;
}

built : new_proxy parsers config ≡ ok handler
unfolding new_proxy String-discrete
built = refl

abbrev outgoing : Outgoing
outgoing = record {
  url = record { scheme = ""; host = ""; path = "/api/users"; raw_query = "" };
  raw_path = "";
  host = "x";
  header = request.header;
}

abbrev set_url : Url → Url → Url
set_url target url = record target { path = url.path }

abbrev split_host : String → Option String
split_host addr = none

rewrite_authorization_example :
    get "Authorization" (rewrite set_url split_host handler request outgoing).header ≡ (
      if true && not (token_of (from_context context) == "")
      then "Bearer " <> token_of (from_context context)
      else "")
rewrite_authorization_example =
    rewrite_authorization set_url split_host parsers config handler request outgoing built
      default_apart
