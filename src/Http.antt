-- ===== src/Http.antt =====
-- What the code uses of net/http: header maps, requests, response writers and handlers.
pub mod Headers
use hog.Base.{String, ◌<>◌, ℕ, Bool, true, false, Option, none, some, List, [], ◌∷◌, ◌++◌}
use hog.Base.Text
use hog.Base.Dict
use hog.Base.Dict.{Dict}
use hog.Session.Principal.{Context}

-- `http.Header`: canonical names to lists of values
abbrev pub Header : Type 0
Header = Dict (List String)

abbrev first : Option (List String) → String
first none = ""
first (some []) = ""
first (some (v ∷ _)) = v

-- `Header.Get`
unfoldable pub get : String → Header → String
get name h = first (Dict.lookup (Text.canonical name) h)

-- `Header.Set`
unfoldable pub set : String → String → Header → Header
set name v h = Dict.insert (Text.canonical name) (v ∷ []) h

-- `Header.Del`
unfoldable pub del : String → Header → Header
del name h = Dict.erase (Text.canonical name) h

-- a cookie of a request
pub record Cookie : Type 0 where
  pub name : String
  pub value : String

-- a `Set-Cookie` of a response: `max_age` is none for a session cookie, `some 0` for one that is
-- expired at once (Go's MaxAge < 0)
pub record SetCookie : Type 0 where
  pub name : String
  pub value : String
  pub max_age : Option ℕ
  pub secure : Bool

-- the parts of an `http.Request` that the code reads or changes
pub record Request : Type 0 where
  pub method : String
  pub path : String
  pub uri : String  -- URL.RequestURI()
  pub pattern : String
  pub host : String
  pub remote_addr : String
  pub header : Header
  pub cookies : List Cookie
  pub context : Context

-- an `http.ResponseWriter`: what was written so far
pub record Writer : Type 0 where
  pub header : Header
  pub set_cookies : List SetCookie
  pub status : Option ℕ
  pub body : String

abbrev pub new_writer : Writer
new_writer = record { header = []; set_cookies = []; status = none; body = "" }

-- `http.SetCookie`
abbrev pub set_cookie : SetCookie → Writer → Writer
set_cookie c w = record w { set_cookies = w.set_cookies ++ (c ∷ []) }

abbrev pub set_header : String → String → Writer → Writer
set_header name v w = record w { header = set name v w.header }

abbrev pub or_else : Option ℕ → ℕ → Option ℕ
or_else none code = some code
or_else (some old) code = some old

-- `WriteHeader`: only the first status counts
abbrev pub write_header : ℕ → Writer → Writer
write_header code w = record w { status = or_else w.status code }

-- `http.Error`
unfoldable pub error : String → ℕ → Writer → Writer
error msg code w =
    let w' = write_header code (
      set_header "X-Content-Type-Options" "nosniff"
        (set_header "Content-Type" "text/plain; charset=utf-8" w)) in
    record w' { body = w'.body <> msg <> "\n" }

-- `http.Redirect`, without net/http's cleaning of a relative target
unfoldable pub redirect : String → ℕ → Writer → Writer
redirect target code w = write_header code (set_header "Location" target w)

-- A handler answers a request by writing. `World` is the rest of the state that handlers change:
-- stores, backends, logs.
pub record Exchange (World : Type 0) : Type 0 where
  pub writer : Writer
  pub world : World

abbrev pub Handler : Type 0 → Type 0
Handler World = Request → Exchange World → Exchange World

abbrev pub writing : {World : Type 0} → (Writer → Writer) → Exchange World → Exchange World
writing f x = record x { writer = f x.writer }

-- `r.WithContext`
abbrev pub with_context : Context → Request → Request
with_context ctx r = record r { context = ctx }

abbrev pub with_header : Header → Request → Request
with_header h r = record r { header = h }
