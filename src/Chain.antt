-- ===== src/Chain.antt =====
-- chain/middleware.go and chain/builtin.go: how middlewares wrap a handler, and the fixed skeleton.
pub mod Forwarded
pub mod Guard
mod Tests
use hog.Base.{String, Option, none, some, List, [], ◌∷◌, ◌++◌, ◌==◌, if◌then◌else◌, map}
use hog.Http.{Request, Exchange, Handler, writing, set_header, get}

-- `Middleware`, by its `Wrap`
abbrev pub Middleware : Type 0 → Type 0
Middleware World = Handler World → Handler World

module _ {World : Type 0} where
  -- `Compose`: the first middleware is the outermost
  unfoldable pub compose : Handler World → List (Middleware World) → Handler World
  compose terminal [] = terminal
  compose terminal (mw ∷ mws) = mw (compose terminal mws)

  -- `reserved`
  pub reserved : Middleware World
  reserved next = next

  -- `orReserved`
  unfoldable pub or_reserved : Option (Middleware World) → Middleware World
  unfolding reserved
  or_reserved none = reserved
  or_reserved (some mw) = mw

  -- `requestIDMW`, given the id that it would draw
  unfoldable pub request_id_mw : String → Middleware World
  request_id_mw drawn next r x =
      let id = get "X-Request-Id" r.header in
      next r (writing (set_header "X-Request-Id" (if id == "" then drawn else id)) x)

-- `Gates`
pub record Gates (World : Type 0) : Type 0 where
  pub session : Option (Middleware World)
  pub auth_gate : Option (Middleware World)
  pub authz : Option (Middleware World)
  pub projection : Option (Middleware World)

-- `skeleton`: the names with the middlewares, given the ones that recover and log
unfoldable pub skeleton :
    {World : Type 0}
    → Middleware World
    → String
    → Middleware World
    → Gates World
    → List (String × Middleware World)
unfolding or_reserved request_id_mw
skeleton recover drawn access_log gates =
    ("recover", recover)
    ∷ ("request-id", request_id_mw drawn)
    ∷ ("access-log", access_log)
    ∷ ("session", or_reserved gates.session)
    ∷ ("auth-gate", or_reserved gates.auth_gate)
    ∷ ("authz", or_reserved gates.authz)
    ∷ ("projection", or_reserved gates.projection)
    ∷ []
