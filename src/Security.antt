-- ===== src/Security.antt =====
-- security/security.go: the headers of every response, and the place of CSRF protection. http.CrossOriginProtection is a
-- parameter, by what it makes of a handler.
pub mod Headers
mod Tests
use hog.Base.{
  String, ◌<>◌, ℕ, Bool, true, false, Option, none, some, List, [], ◌∷◌, ◌++◌, Result, ok, err,
  ◌>>=◌, ◌==◌, not, if◌then◌else◌,
}
use hog.Base.Text
use hog.Base.Decimal.{show}
use hog.Http.{Handler, Writer, Header, writing, set}
use hog.Chain.{Middleware}

-- `HSTSConfig`; a max-age may be negative
pub record HstsConfig : Type 0 where
  pub enabled : Option Bool
  pub max_age : Option (Bool × ℕ)  -- whether there is a minus, and the digits
  pub include_sub_domains : Option Bool
  pub preload : Bool

-- `HeadersConfig`
pub record HeadersConfig : Type 0 where
  pub frame_options : Option String
  pub content_type_options : Option String
  pub referrer_policy : Option String
  pub hsts : HstsConfig
  pub content_security_policy : String

-- `CSRFConfig`
pub record CsrfConfig : Type 0 where
  pub enabled : Option Bool
  pub trusted_origins : List String
  pub bypass_patterns : List String

-- `Config`
pub record Config : Type 0 where
  pub csrf : CsrfConfig
  pub headers : HeadersConfig

-- `deref` and `derefBool`
abbrev pub deref {ℓ} : {A : Type ℓ} → Option A → A → A
deref none default = default
deref (some a) default = a

abbrev signed : Bool × ℕ → String
signed (minus, n) = if minus then "-" <> show n else show n

-- `hstsValue`
pub hsts_value : HstsConfig → String
hsts_value h =
    let parts = ("max-age=" <> signed (deref h.max_age (false, 31536000))) ∷ [] in
    let parts' =
      if deref h.include_sub_domains true then parts ++ ("includeSubDomains" ∷ []) else parts in
    Text.join (if h.preload then parts' ++ ("preload" ∷ []) else parts') "; "

-- `if test { hd.Set(name, value) }`
abbrev pub set_if : Bool → String → String → Header → Header
set_if test name value h = if test then set name value h else h

-- the headers that `headersHandler` sets
unfoldable pub security_headers : HeadersConfig → Header → Header
security_headers h hd =
    let frame = deref h.frame_options "DENY" in
    let nosniff = deref h.content_type_options "nosniff" in
    let referrer = deref h.referrer_policy "strict-origin-when-cross-origin" in
    let csp = h.content_security_policy in
    set_if (not (csp == "")) "Content-Security-Policy" csp (
      set_if (deref h.hsts.enabled true) "Strict-Transport-Security" (hsts_value h.hsts) (
        set_if (not (referrer == "")) "Referrer-Policy" referrer (
          set_if (not (nosniff == "")) "X-Content-Type-Options" nosniff
            (set_if (not (frame == "")) "X-Frame-Options" frame hd))))

-- `headersHandler`
unfoldable pub headers_handler : {World : Type 0} → HeadersConfig → Middleware World
unfolding security_headers
headers_handler h next r x =
    next r (writing (λ w. record w { header = security_headers h w.header }) x)

pub data SecurityError : Type 0 where
  bad_trusted_origin bad_bypass_pattern : String → SecurityError

-- `http.CrossOriginProtection`: none where an origin or a pattern is refused
pub record CrossOriginProtection (World : Type 0) : Type 1 where
  pub State : Type 0
  pub new : State
  pub add_trusted_origin : String → State → Option State
  pub add_insecure_bypass_pattern : String → State → Option State
  pub protect : State → Middleware World

module _ {World : Type 0} (cop : CrossOriginProtection World) where
  add_all :
      (String → cop.State → Option cop.State)
      → (String → SecurityError)
      → List String
      → cop.State
      → Result SecurityError cop.State
  add_all add e [] s = ok s
  add_all add e (t ∷ ts) s = elim (add t s) [ none ↦ err (e t) | some s' ↦ add_all add e ts s' ]

  -- `Build`
  unfoldable pub build : Config → Result SecurityError (Middleware World)
  unfolding add_all headers_handler
  build cfg =
      if not (deref cfg.csrf.enabled true)
      then ok (headers_handler cfg.headers)
      else add_all cop.add_trusted_origin bad_trusted_origin cfg.csrf.trusted_origins cop.new
        >>= λ s.
            add_all cop.add_insecure_bypass_pattern bad_bypass_pattern cfg.csrf.bypass_patterns s
            >>= λ s'. ok (λ next. headers_handler cfg.headers (cop.protect s' next))
