-- ===== src/Terminal/Aggregate.antt =====
-- terminal/aggregate.go: the handler that asks several backends and answers with one document. net/url, time,
-- json.Valid, the encoder of a JSON object, and the round trip to a backend are parameters.
pub mod Params
pub mod Document
pub mod Registered
mod Tests
use hog.Base.{
  String, ◌<>◌, ℕ, zero, suc, Bool, true, false, Option, none, some, List, [], ◌∷◌, ◌++◌, map,
  Result, ok, err, guard, or_fail, to_option, ◌>>◌, ◌>>=◌, ◌==◌, not, ◌&&◌, ◌||◌, contains, ltb,
  leb, if◌then◌else◌,
}
use hog.Base.Text
use hog.Base.Text.Paths.{join_path}
use hog.Base.Dict
use hog.Base.Dict.{Dict}
use hog.Http.{Request, Header, Writer, get, set_header, write_header, error}
use hog.Terminal.Forward.{ForwardOptions, prepare_backend_request}
use hog.Terminal.Aggregate.Params.{substitute_params}

-- the parts of a `url.URL` that the code reads or sets
pub record Url : Type 0 where
  pub scheme : String
  pub host : String
  pub path : String
  pub raw_query : String

-- `backendConfig`
pub record BackendConfig : Type 0 where
  pub group : String
  pub upstream : String
  pub path : String
  pub method : String
  pub required : Option Bool
  pub forward_query : Bool
  pub forward_access_token : Bool
  pub forward_identity : Bool

-- `apiConfig`
pub record ApiConfig : Type 0 where
  pub timeout : String
  pub backends : List BackendConfig

-- `backend`
pub record Backend : Type 0 where
  pub group : String
  pub base : Url
  pub path : String
  pub method : String
  pub required : Bool
  pub forward_query : Bool
  pub opts : ForwardOptions

-- the errors of the factory
pub data ApiError : Type 0 where
  no_backends bad_timeout group_required : ApiError
  duplicate_group path_required invalid_upstream invalid_method : String → ApiError

-- `apiHandler`; no timeout is one that is not positive
pub record ApiHandler : Type 0 where
  pub backends : List Backend
  pub timeout : Option ℕ

-- What the factory calls: `url.Parse`, `time.ParseDuration` (none in it for what is not positive), and whether
-- `http.NewRequest` takes a method and an address.
pub record Parsers : Type 0 where
  pub parse_url : String → Option Url
  pub parse_duration : String → Option (Option ℕ)
  pub valid_request : String → Url → Bool

abbrev default_get : String → String
default_get m = if m == "" then "GET" else m

abbrev default_true : Option Bool → Bool
default_true none = true
default_true (some b) = b

has_origin : Option Url → Option Url
has_origin none = none
has_origin (some u) = if not (u.scheme == "") && not (u.host == "") then some u else none

module _ (std : Parsers) where
  parse_timeout : String → Result ApiError (Option ℕ)
  parse_timeout s = if s == "" then ok none else or_fail (std.parse_duration s) bad_timeout

  pub new_backend : BackendConfig → Result ApiError Backend
  unfolding has_origin
  new_backend b =
      guard (not (b.path == "")) (path_required b.group)
      >> (or_fail (has_origin (std.parse_url b.upstream)) (invalid_upstream b.group) >>= λ base.
          guard (std.valid_request (default_get b.method) base) (invalid_method b.group)
          >> ok (record {
            group = b.group;
            base = base;
            path = b.path;
            method = default_get b.method;
            required = default_true b.required;
            forward_query = b.forward_query;
            opts = record {
              forward_access_token = b.forward_access_token;
              forward_cookies = false;
              forward_identity = b.forward_identity;
            };
          }))

  -- the loop over the backends, with the groups seen before
  unfoldable pub new_backends : List String → List BackendConfig → Result ApiError (List Backend)
  unfolding new_backend
  new_backends seen [] = ok []
  new_backends seen (b ∷ bs) =
      guard (not (b.group == "")) group_required
      >> (guard (not (contains seen b.group)) (duplicate_group b.group)
          >> (new_backend b >>= λ backend.
              new_backends (b.group ∷ seen) bs >>= λ rest. ok (backend ∷ rest)))

  -- the factory of `registerAPI`
  unfoldable pub new_api : ApiConfig → Result ApiError ApiHandler
  unfolding parse_timeout new_backends
  new_api ac = elim ac.backends [
    | [] ↦ err no_backends
    | b ∷ bs ↦ parse_timeout ac.timeout >>= λ timeout. new_backends [] (b ∷ bs) >>= λ backends.
        ok (record { backends = backends; timeout = timeout })
  ]

-- a request to a backend, with the deadline of its context
pub record Outbound : Type 0 where
  pub method : String
  pub url : Url
  pub header : Header
  pub deadline : Option ℕ

-- a backend's response, its body as far as it is read, none where reading fails
pub record Response : Type 0 where
  pub status : ℕ
  pub body : Option String

-- what a round trip ends with
pub data RoundTrip : Type 0 where
  answered : Response → RoundTrip
  deadline_exceeded transport_error : RoundTrip

-- `backendResult`: `ok` with the body, or not, with `timeout`
pub data BackendResult : Type 0 where
  body_ok : String → BackendResult
  failed : Bool → BackendResult

-- what a handler of the route has: the parameters of the route's pattern, the query, and the round trip of the transport
pub record Env : Type 0 where
  pub path_value : String → String
  pub raw_query : String
  pub split_host : String → Option String
  pub new_request_fails : String → Url → Bool
  pub round_trip : Outbound → RoundTrip
  pub json_valid : String → Bool
  pub encode_object : Dict String → String

module _ (env : Env) where
  body_result : Option String → BackendResult
  body_result none = failed false
  body_result (some body) = if env.json_valid body then body_ok body else failed false

  classify : RoundTrip → BackendResult
  unfolding body_result
  classify deadline_exceeded = failed true
  classify transport_error = failed false
  classify (answered resp) =
      if ltb resp.status 200 || leb 300 resp.status then failed false else body_result resp.body

  backend_url : Backend → String → Url
  backend_url b sub = record {
    scheme = b.base.scheme;
    host = b.base.host;
    path = join_path b.base.path sub;
    raw_query = if b.forward_query then env.raw_query else b.base.raw_query;
  }

  -- `call`
  unfoldable pub call : Option ℕ → Request → Backend → BackendResult
  unfolding classify backend_url
  call timeout r b = elim (substitute_params b.path env.path_value) [
    | err e ↦ failed false
    | ok sub ↦
        let url = backend_url b sub in
        if env.new_request_fails b.method url
        then failed false
        else classify (
            env.round_trip (record {
              method = b.method;
              url = url;
              header = prepare_backend_request env.split_host b.opts r [];
              deadline = timeout;
            }))
  ]

-- what the merge ends with: the document and the groups left out, or the failure of a required backend
pub data Merged : Type 0 where
  merged : Dict String → List String → Merged
  required_failed : Bool → Merged

-- the loop that merges the results
unfoldable pub merge : List (Backend × BackendResult) → Dict String → List String → Merged
merge [] doc omitted = merged doc omitted
merge ((b, body_ok body) ∷ rest) doc omitted = merge rest (Dict.insert b.group body doc) omitted
merge ((b, failed timeout) ∷ rest) doc omitted =
    let later = merge rest doc (omitted ++ (b.group ∷ [])) in
    if b.required then required_failed timeout else later

abbrev pub mark_partial : List String → Writer → Writer
mark_partial [] w = w
mark_partial (g ∷ gs) w = set_header "X-Hog-Partial" (Text.join (g ∷ gs) ",") w

-- the answer
unfoldable pub respond : (Dict String → String) → Merged → Writer → Writer
respond encode_object (required_failed timeout) w =
    error "upstream error" (if timeout then 504 else 502) w
respond encode_object (merged doc omitted) w =
    let w' =
      write_header 200 (set_header "Content-Type" "application/json" (mark_partial omitted w)) in
    record w' { body = w'.body <> (encode_object doc <> "\n") }

-- the results of the goroutines, each in the slot of its backend
unfoldable pub results : Env → ApiHandler → Request → List (Backend × BackendResult)
unfolding call
results env h r = map (λ b. (b, call env h.timeout r b)) h.backends

-- `ServeHTTP`
unfoldable pub serve_api : Env → ApiHandler → Request → Writer → Writer
unfolding results merge respond
serve_api env h r w = respond env.encode_object (merge (results env h r) [] []) w
