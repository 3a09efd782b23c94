-- ===== src/Terminal/Forward.antt =====
-- terminal/forward.go: the headers of a request to a backend. net.SplitHostPort is a parameter; the
-- transports are not modelled.
pub mod Backend
mod Tests
use hog.Base.{
  String, ◌<>◌, Bool, true, false, Option, none, some, List, [], ◌∷◌, ◌==◌, not, ◌&&◌,
  if◌then◌else◌,
}
use hog.Base.Text
use hog.Base.Dict
use hog.Base.Dict.{Dict}
use hog.Http.{Request, Header, get, set, del}
use hog.Session.Principal.{Principal, Context, from_context}

-- `forwardOptions`
pub record ForwardOptions : Type 0 where
  pub forward_access_token : Bool
  pub forward_cookies : Bool
  pub forward_identity : Bool

abbrev pub default_assertion_header : String
default_assertion_header = "X-Hog-Identity"

-- `if test { h = change(h) }`
abbrev pub when : Bool → (Header → Header) → Header → Header
when test change h = if test then change h else h

-- the loop over the inbound headers
pub copy_user_headers : Header → Header → Header
copy_user_headers [] out = out
copy_user_headers ((k, vs) ∷ inbound) out =
    copy_user_headers inbound (if Text.has_prefix k "X-User-" then Dict.insert k vs out else out)

abbrev pub token_of : Option Principal → String
token_of none = ""
token_of (some p) = p.access_token

-- the header that carries the identity assertion
abbrev pub assertion_header_of : Context → String
assertion_header_of ctx =
    if ctx.assertion_header == "" then default_assertion_header else ctx.assertion_header

host_part : Option String → String → String
host_part none addr = addr
host_part (some host) addr = host

module _ (split_host : String → Option String) where
  -- `clientIP`
  pub client_ip : Request → String
  unfolding host_part
  client_ip r = host_part (split_host r.remote_addr) r.remote_addr

  -- the three statements of `setXForwarded`
  unfoldable pub add_for : Request → Header → Header
  unfolding client_ip
  add_for r h =
      let ip = client_ip r in
      let prior = get "X-Forwarded-For" r.header in
      when (not (ip == ""))
        (set "X-Forwarded-For" (if not (prior == "") then prior <> (", " <> ip) else ip)) h

  unfoldable pub add_host : Request → Header → Header
  add_host r h = when (not (r.host == "")) (set "X-Forwarded-Host" r.host) h

  unfoldable pub add_proto : Request → Header → Header
  add_proto r h =
      let proto = get "X-Forwarded-Proto" r.header in
      when (not (proto == "")) (set "X-Forwarded-Proto" proto) h

  -- `setXForwarded`
  unfoldable pub set_x_forwarded : Request → Header → Header
  unfolding add_for add_host add_proto
  set_x_forwarded r h = add_proto r (add_host r (add_for r h))

  -- the steps of `prepareBackendRequest`: cookies and identity headers, the bearer token, the assertion
  pub carry_over : ForwardOptions → Request → Header → Header
  unfolding copy_user_headers
  carry_over opts r out =
      copy_user_headers r.header (when (not opts.forward_cookies) (del "Cookie") out)

  unfoldable pub authorize : ForwardOptions → Request → Header → Header
  authorize opts r h =
      let token = token_of (from_context r.context) in
      when (opts.forward_access_token && not (token == ""))
        (set "Authorization" ("Bearer " <> token)) (del "Authorization" h)

  unfoldable pub strip_assertion : String → Header → Header
  strip_assertion name h =
      when (not (name == default_assertion_header)) (del name) (del default_assertion_header h)

  unfoldable pub hand_over : ForwardOptions → Request → Header → Header
  unfolding strip_assertion
  hand_over opts r h =
      let name = assertion_header_of r.context in
      let value = get name r.header in
      when (opts.forward_identity && not (value == "")) (set name value) (strip_assertion name h)

  -- `prepareBackendRequest`: the outbound headers, of the inbound request and the outbound headers before
  unfoldable pub prepare_backend_request : ForwardOptions → Request → Header → Header
  unfolding carry_over authorize hand_over
  prepare_backend_request opts r out =
      set_x_forwarded r (hand_over opts r (authorize opts r (carry_over opts r out)))
