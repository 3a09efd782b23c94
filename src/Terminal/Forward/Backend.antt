-- ===== src/Terminal/Forward/Backend.antt =====
-- Which credentials reach a backend.
use hog.Base.{
  String, ◌<>◌, Bool, true, false, Option, [], ◌∷◌, ◌==◌, not, ◌&&◌, if◌then◌else◌, ◌≡◌, ◌≢◌, ◌⊎◌,
  refl, ap, sym, ◌∙◌, arith,
}
use hog.Base.Text
use hog.Base.Dict
use hog.Base.Dict.{Dict, lookup}
use hog.Http.{Request, Header, get, set, del}
use hog.Http.Headers.{get-set, get-del}
use hog.Session.Principal.{from_context}
use hog.Terminal.Forward.{
  ForwardOptions, default_assertion_header, when, copy_user_headers, token_of, assertion_header_of,
  add_for, add_host, add_proto, client_ip, set_x_forwarded, carry_over, authorize, strip_assertion,
  hand_over, prepare_backend_request,
}

get-copy_user_headers :
    (j : String) (inbound out : Header)
    → Text.has_prefix (Text.canonical j) "X-User-" ≡ false
    → get j (copy_user_headers inbound out) ≡ get j out
unfolding get copy_user_headers
get-copy_user_headers j [] out h = refl
get-copy_user_headers j ((k, vs) ∷ inbound) out h = ground (
  arith,
  get-copy_user_headers j inbound out h,
  get-copy_user_headers j inbound (Dict.insert k vs out) h,
  Dict.lookup-insert (Text.canonical j) k vs out,
)

other-set :
    (j k v : String) (h : Header)
    → Text.canonical j ≢ Text.canonical k
    → get j (set k v h) ≡ get j h
other-set j k v h ne = ground (arith, get-set j k v h, ne)

other-del :
    (j k : String) (h : Header) → Text.canonical j ≢ Text.canonical k → get j (del k h) ≡ get j h
other-del j k h ne = ground (arith, get-del j k h, ne)

-- A header that a step may set or delete, seen from another.
other-when-set :
    (j k v : String) (test : Bool) (h : Header)
    → Text.canonical j ≢ Text.canonical k
    → get j (when test (set k v) h) ≡ get j h
other-when-set j k v true h ne = other-set j k v h ne
other-when-set j k v false h ne = refl

other-when-del :
    (j k : String) (test : Bool) (h : Header)
    → Text.canonical j ≢ Text.canonical k
    → get j (when test (del k) h) ≡ get j h
other-when-del j k true h ne = other-del j k h ne
other-when-del j k false h ne = refl

get-same : (j k : String) (h : Header) → Text.canonical j ≡ Text.canonical k → get j h ≡ get k h
unfolding get
get-same j k h e = rw e

authorization_canonical : Text.canonical "Authorization" ≡ "Authorization"
unfolding Text.canonical
authorization_canonical = refl

-- A name that is none of the forwarding headers'.
abbrev pub IsOwn : String → Type 0
IsOwn j =
    (Text.canonical j ≢ Text.canonical "X-Forwarded-For")
    × (Text.canonical j ≢ Text.canonical "X-Forwarded-Host")
    × (Text.canonical j ≢ Text.canonical "X-Forwarded-Proto")

authorization-IsOwn : IsOwn "Authorization"
unfolding Text.canonical
authorization-IsOwn = (
  (λ e. omega (arith, ap Text.size e)),
  (λ e. omega (arith, ap Text.size e)),
  λ e. omega (arith, ap Text.size e),
)

authorization_not_default : Text.canonical "Authorization" ≢ Text.canonical default_assertion_header
unfolding Text.canonical
authorization_not_default e = omega (arith, ap Text.size e)

module _ (split_host : String → Option String) (opts : ForwardOptions) (r : Request) where
  get-add_for : (j : String) (h : Header) → IsOwn j → get j (add_for split_host r h) ≡ get j h
  unfolding add_for
  get-add_for j h (a, b, c) =
      let ip = client_ip split_host r in
      let prior = get "X-Forwarded-For" r.header in
      other-when-set j "X-Forwarded-For" (if not (prior == "") then prior <> (", " <> ip) else ip)
        (not (ip == "")) h a

  get-set_x_forwarded :
      (j : String) (h : Header) → IsOwn j → get j (set_x_forwarded split_host r h) ≡ get j h
  unfolding set_x_forwarded add_host add_proto
  get-set_x_forwarded j h own =
      let (a, b, c) = own in
      let h1 = add_for split_host r h in
      let proto = get "X-Forwarded-Proto" r.header in
      other-when-set j "X-Forwarded-Proto" proto (not (proto == "")) (add_host split_host r h1) c
      ∙ (other-when-set j "X-Forwarded-Host" r.host (not (r.host == "")) h1 b ∙ get-add_for j h own)

  get-hand_over :
      (j : String) (h : Header)
      → Text.canonical j ≢ Text.canonical default_assertion_header
      → Text.canonical j ≢ Text.canonical (assertion_header_of r.context)
      → get j (hand_over split_host opts r h) ≡ get j h
  unfolding hand_over strip_assertion
  get-hand_over j h a b =
      let name = assertion_header_of r.context in
      let test = not (name == default_assertion_header) in
      let h1 = del default_assertion_header h in
      other-when-set j name (get name r.header)
        (opts.forward_identity && not (get name r.header == "")) (when test (del name) h1) b
      ∙ (other-when-del j name test h1 b ∙ other-del j default_assertion_header h a)

  get-hand_over_named :
      (j : String) (h : Header)
      → (Text.canonical j ≡ Text.canonical default_assertion_header)
        ⊎ (Text.canonical j ≡ Text.canonical (assertion_header_of r.context))
      → get j (hand_over split_host opts r h) ≡ (
          if opts.forward_identity
            && Text.canonical j == Text.canonical (assertion_header_of r.context)
          then get j r.header
          else "")
  unfolding hand_over strip_assertion
  get-hand_over_named j h named =
      let name = assertion_header_of r.context in
      let h1 = del default_assertion_header h in
      let h2 = when (not (name == default_assertion_header)) (del name) h1 in
      ground (
        arith,
        named,
        get-set j name (get name r.header) h2,
        get-del j name h1,
        get-del j default_assertion_header h,
        get-same j name r.header,
      )

  get-authorize :
      (h : Header)
      → get "Authorization" (authorize split_host opts r h) ≡ (
          if opts.forward_access_token && not (token_of (from_context r.context) == "")
          then "Bearer " <> token_of (from_context r.context)
          else "")
  unfolding authorize
  get-authorize h = ground (
    arith,
    get-set "Authorization" "Authorization" ("Bearer " <> token_of (from_context r.context))
        (del "Authorization" h),
    get-del "Authorization" "Authorization" h,
  )

  -- The only bearer token that a backend is sent is the principal's own, where the route forwards it, whatever the client
  -- sent; if the assertion's header is not Authorization.
  pub prepare_backend_request_authorization :
      (out : Header)
      → Text.canonical (assertion_header_of r.context) ≢ "Authorization"
      → get "Authorization" (prepare_backend_request split_host opts r out) ≡ (
          if opts.forward_access_token && not (token_of (from_context r.context) == "")
          then "Bearer " <> token_of (from_context r.context)
          else "")
  unfolding prepare_backend_request
  prepare_backend_request_authorization out apart =
      let h = carry_over split_host opts r out in
      let h1 = authorize split_host opts r h in
      get-set_x_forwarded "Authorization" (hand_over split_host opts r h1) authorization-IsOwn
      ∙ (get-hand_over "Authorization" h1 authorization_not_default
            (λ e. apart (sym e ∙ authorization_canonical))
          ∙ get-authorize h)

  -- A backend is sent an identity assertion, under the default name or the configured one, only where the route
  -- forwards it, and then the one that this gateway put on the request under that name; if the configured name is none of
  -- the forwarding headers'.
  pub prepare_backend_request_assertion :
      (out : Header) (j : String)
      → IsOwn j
      → (Text.canonical j ≡ Text.canonical default_assertion_header)
        ⊎ (Text.canonical j ≡ Text.canonical (assertion_header_of r.context))
      → get j (prepare_backend_request split_host opts r out) ≡ (
          if opts.forward_identity
            && Text.canonical j == Text.canonical (assertion_header_of r.context)
          then get j r.header
          else "")
  unfolding prepare_backend_request
  prepare_backend_request_assertion out j own named =
      let h = authorize split_host opts r (carry_over split_host opts r out) in
      get-set_x_forwarded j (hand_over split_host opts r h) own ∙ get-hand_over_named j h named
