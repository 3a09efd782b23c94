-- ===== src/Telemetry.antt =====
-- telemetry/accesslog.go: what the access log records of a request. The span, the clock and net/url are parameters; a
-- record is a list of fields.
pub mod Redacted
mod Tests
use hog.Base.{
  String, ℕ, ◌+◌, Bool, true, false, Option, none, some, List, [], ◌∷◌, ◌++◌, map, ◌==◌, not,
  if◌then◌else◌, contains,
}
use hog.Base.Text
use hog.Base.Dict.{Dict}
use hog.Http.{Request, Header, Writer, Exchange, Handler, get}
use hog.Session.Principal.{Principal, from_context}
use hog.Chain.{Middleware}

-- `AccessLogConfig`
pub record AccessLogConfig : Type 0 where
  pub properties : List String
  pub headers : Dict String
  pub fields : Dict String

-- what a record takes from elsewhere: the parts of the request and the response that the model of net/http leaves out
pub record Observed : Type 0 where
  pub raw_query : String
  pub proto : String
  pub status : String
  pub duration_ms : String
  pub bytes_out : String
  pub trace_id : Option String
  pub span_id : Option String

abbrev pub credential_headers : List String
credential_headers =
    "authorization" ∷ "proxy-authorization" ∷ "cookie" ∷ "set-cookie" ∷ "x-hog-identity" ∷ []

-- `isCredentialHeader`
pub is_credential_header : String → Bool
is_credential_header header = contains credential_headers (Text.to_lower header)

-- `redactHeader`
pub redact_header : String → String → String
unfolding is_credential_header
redact_header header value = if is_credential_header header then "REDACTED" else value

abbrev pub sensitive_params : List String
sensitive_params =
    "code" ∷ "state" ∷ "token" ∷ "access_token" ∷ "id_token" ∷ "refresh_token" ∷ "api_key"
    ∷ "apikey" ∷ "client_secret" ∷ "password" ∷ "assertion" ∷ []

abbrev pub is_sensitive : String → Bool
is_sensitive k = contains sensitive_params (Text.to_lower k)

-- `url.ParseQuery` and `Values.Encode`
pub record Queries : Type 0 where
  pub parse_query : String → Option (Dict (List String))
  pub encode : Dict (List String) → String

-- the loop of `redactQuery`
unfoldable pub redact_values : Dict (List String) → Dict (List String)
redact_values [] = []
redact_values ((k, vs) ∷ rest) =
    (k, if is_sensitive k then "REDACTED" ∷ [] else vs) ∷ redact_values rest

abbrev or_nothing : Queries → Option (Dict (List String)) → String
or_nothing q none = ""
or_nothing q (some vals) = q.encode (redact_values vals)

abbrev subject_of : Option Principal → Option String
subject_of none = none
subject_of (some p) = some p.subject

abbrev session_of : Option Principal → Option String
session_of none = none
session_of (some p) = if p.session_id == "" then none else some p.session_id

abbrev unless_empty : String → Option String
unless_empty s = if s == "" then none else some s

module _ (q : Queries) (split_host : String → Option String) where
  -- `redactQuery`
  unfoldable pub redact_query : String → String
  unfolding redact_values
  redact_query raw = if raw == "" then "" else or_nothing q (q.parse_query raw)

  abbrev host_or : Option String → String → String
  host_or none addr = addr
  host_or (some host) addr = host

  -- `accessLogClientIP`
  pub access_log_client_ip : Request → String
  access_log_client_ip r = host_or (split_host r.remote_addr) r.remote_addr

  -- `accessLogProperty`, of the response's headers; none where there is no such field
  unfoldable pub access_log_property : String → Request → Header → Observed → Option String
  unfolding redact_query access_log_client_ip
  access_log_property name r out o =
      if name == "method"
      then some r.method
      else if name == "path"
      then some r.path
      else if name == "route"
      then some r.pattern
      else if name == "query"
      then some (redact_query o.raw_query)
      else if name == "status"
      then some o.status
      else if name == "duration_ms"
      then some o.duration_ms
      else if name == "bytes_out"
      then some o.bytes_out
      else if name == "client_ip"
      then some (access_log_client_ip r)
      else if name == "host"
      then some r.host
      else if name == "protocol"
      then some o.proto
      else if name == "user_id"
      then subject_of (from_context r.context)
      else if name == "session_id"
      then session_of (from_context r.context)
      else if name == "request_id"
      then unless_empty (get "X-Request-Id" out)
      else if name == "trace_id"
      then o.trace_id
      else if name == "span_id"
      then o.span_id
      else none

  abbrev with_value : String → Option String → List (String × String) → List (String × String)
  with_value name none rest = rest
  with_value name (some v) rest = (name, v) ∷ rest

  -- the three loops of `AccessLog`
  unfoldable pub property_fields :
      List String → Request → Header → Observed → List (String × String)
  unfolding access_log_property
  property_fields [] r out o = []
  property_fields (p ∷ ps) r out o =
      with_value p (access_log_property p r out o) (property_fields ps r out o)

  unfoldable pub header_fields : Dict String → Request → List (String × String)
  unfolding redact_header
  header_fields [] r = []
  header_fields ((field, header) ∷ rest) r =
      let v = get header r.header in
      let later = header_fields rest r in
      if v == "" then later else (field, redact_header header v) ∷ later

  -- the record of one request
  unfoldable pub access_record :
      AccessLogConfig → Request → Header → Observed → List (String × String)
  unfolding property_fields header_fields
  access_record cfg r out o =
      property_fields cfg.properties r out o ++ (header_fields cfg.headers r ++ cfg.fields)
