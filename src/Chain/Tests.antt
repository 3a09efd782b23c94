-- ===== src/Chain/Tests.antt =====
-- Proxies that are trusted, and a request without a session.
use hog.Base.{String, false, none, some, [], ◌∷◌, ◌≡◌, refl, ◌==◌, err, String-discrete}
use hog.Base.Text
use hog.Http.{Request, Exchange, Handler}
use hog.Session.Principal.{empty_context, from_context}
use hog.Session.Manager.{no_session}
use hog.Session.Interface.{Manager}
use hog.Chain.{Middleware}
use hog.Chain.Forwarded.{Netip, TrustedProxies, parse_trusted_proxies}
use hog.Auth.Gates.{Urls}

-- addresses as texts; a prefix holds the address it is
abbrev netip : Netip
netip = record {
  Addr = String;
  Prefix = String;
  parse_prefix = λ s. none;
  masked = λ p. p;
  parse_addr = λ s. some s;
  host_prefix = λ a. a;
  has_addr = λ p a. p == a;
  unmap = λ a. a;
  split_host = λ s. none;
}

abbrev proxies : TrustedProxies netip
proxies = record { prefixes = "10.0.0.1" ∷ []; everyone = false }

parsed : parse_trusted_proxies netip ("10.0.0.1 " ∷ []) ≡ some proxies
unfolding parse_trusted_proxies String-discrete Text.trim_space Text.contains
parsed = refl

abbrev request : Request
request = record {
  method = "GET";
  path = "/";
  uri = "/";
  pattern = "";
  host = "x";
  remote_addr = "10.0.0.2";
  header = ("X-Forwarded-Proto", "https" ∷ []) ∷ [];
  cookies = [];
  context = empty_context;
}

abbrev urls : Urls
urls = record { with_param = λ u n v. none; query_escape = λ s. s }

abbrev no_sessions : Manager (Unit {0})
no_sessions = record {
  read = λ r w. (err no_session, w);
  issue = λ r i d t w. (none, w);
  clear = λ r w. ([], w);
}

abbrev pass : Middleware (Unit {0})
pass next = next

abbrev start : Exchange (Unit {0})
start = record {
  writer = record { header = []; set_cookies = []; status = none; body = "" };
  world = tt;
}

abbrev quiet : Handler (Unit {0})
quiet r x = x

abbrev loud : Handler (Unit {0})
loud r x = start

anonymous : from_context empty_context ≡ none
unfolding from_context
anonymous = refl
