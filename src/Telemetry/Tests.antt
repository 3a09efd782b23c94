-- ===== src/Telemetry/Tests.antt =====
-- A request with a code in its query and a bearer token, which the configuration tries to log.
use hog.Base.{String, ◌<>◌, List, none, some, [], ◌∷◌}
use hog.Base.Text
use hog.Http.{Request, Header}
use hog.Session.Principal.{empty_context}
use hog.Telemetry.{AccessLogConfig, Observed, Queries}
use hog.Base.Dict
use hog.Base.Dict.{Dict}

-- the values, one after another
written : Dict (List String) → String
written [] = ""
written ((k, vs) ∷ rest) = k <> ("=" <> (Text.join vs "," <> ("&" <> written rest)))

abbrev queries : Queries
queries = record {
  parse_query = λ raw. some (("code", raw ∷ []) ∷ ("page", "2" ∷ []) ∷ []);
  encode = written;
}

abbrev config : AccessLogConfig
config = record {
  properties = "query" ∷ "path" ∷ [];
  headers = ("auth", "Authorization") ∷ [];
  fields = [];
}

abbrev request : Request
request = record {
  method = "GET";
  path = "/";
  uri = "/";
  pattern = "";
  host = "x";
  remote_addr = "10.0.0.2";
  header = ("Authorization", "Bearer t1" ∷ []) ∷ [];
  cookies = [];
  context = empty_context;
}

abbrev observed : Observed
observed = record {
  raw_query = "secret";
  proto = "HTTP/1.1";
  status = "200";
  duration_ms = "1";
  bytes_out = "0";
  trace_id = none;
  span_id = none;
}

abbrev bearing : String → Header
bearing token = ("Authorization", ("Bearer " <> token) ∷ []) ∷ []
