-- ===== src/Session/Principal.antt =====
-- session/principal.go: the authenticated user, and the values that a request's context carries.
use hog.Base.{String, Bool, false, Option, none, some, List, contains}
use hog.Base.Dict.{Dict, lookup}
use hog.Session.Value.{Value}

-- `Principal`
pub record Principal : Type 0 where
  pub subject : String
  pub passport : Dict Value
  pub groups : List String
  pub access_token : String
  pub session_id : String

-- A request's context: the stored principal, which may be a nil pointer, the mark of an invalid
-- bearer token, and the name of the assertion header.
pub record Context : Type 0 where
  pub principal : Option (Option Principal)
  pub bearer_error : Bool
  pub assertion_header : String

abbrev pub empty_context : Context
empty_context = record { principal = none; bearer_error = false; assertion_header = "" }

-- `WithPrincipal`
abbrev pub with_principal : Context → Option Principal → Context
with_principal ctx p = record ctx { principal = some p }

abbrev stored : Option (Option Principal) → Option Principal
stored none = none
stored (some p) = p

-- `FromContext`: a stored nil pointer counts as absent
unfoldable pub from_context : Context → Option Principal
from_context ctx = stored ctx.principal

-- `InGroup`
pub in_group : Context → String → Bool
in_group ctx g = elim (from_context ctx) [ none ↦ false | some p ↦ contains p.groups g ]

-- `Claim`
pub claim : Context → String → Option Value
claim ctx name = elim (from_context ctx) [ none ↦ none | some p ↦ lookup name p.passport ]
