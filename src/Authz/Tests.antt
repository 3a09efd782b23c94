-- ===== src/Authz/Tests.antt =====
-- A policy for the staff, compiled and asked.
use hog.Base.{String, true, none, some, [], ◌∷◌, ◌≡◌, ◌⊎◌, ◌↔◌, refl, ok, All, String-discrete}
use hog.Base.Dict.{lookup, insert}
use hog.Config.{Resource}
use hog.Http.{Request, Exchange, Handler}
use hog.Session.Value.{Value}
use hog.Session.Principal.{Principal, empty_context}
use hog.Authz.{Require}
use hog.Authz.Policy.{
  Policy, Compiler, PolicySpec, no_result, allow, decision, build_input, IsMet, IsSilent,
  decision_allows_iff, compile, compile_one,
}
use hog.Authz.Policy.Compiled.{IsEntry, compile-IsEntry}
use hog.Authz.Gate.{gate, Allows, Refuses, gate_lem}

abbrev rule : Require
rule = record { groups = "staff" ∷ []; claims = [] }

abbrev alice : Principal
alice = record {
  subject = "alice";
  passport = [];
  groups = "staff" ∷ [];
  access_token = "a";
  session_id = "";
}

abbrev sprint : Value → String
sprint v = ""

abbrev staff_only : Policy
staff_only = record { name = "staff-only"; require = some rule; engine = none }

abbrev request : Request
request = record {
  method = "GET";
  path = "/";
  uri = "/";
  pattern = "";
  host = "x";
  remote_addr = "";
  header = [];
  cookies = [];
  context = empty_context;
}

decision_allows_iff_example :
    (decision sprint staff_only (some alice) (build_input (some alice) request "r" []) ≡ allow) ↔ (
      IsMet sprint staff_only.require (some alice)
      × IsSilent staff_only.engine (build_input (some alice) request "r" []))
decision_allows_iff_example =
    decision_allows_iff sprint staff_only (some alice) (build_input (some alice) request "r" [])

gate_lem_example :
    (All (Allows sprint request "r" []) (staff_only ∷ [])
      × ((next : Handler (Unit {0})) (x : Exchange (Unit {0}))
          → gate sprint (staff_only ∷ []) "r" [] "/denied" next request x ≡ next request x))
    ⊎ Refuses sprint (Unit {0}) (staff_only ∷ []) "r" "/denied" [] request
gate_lem_example = gate_lem sprint (staff_only ∷ []) "r" "/denied" [] request

abbrev compiler : Compiler PolicySpec
compiler = record {
  decode = λ s. some s;
  Module = Unit {0};
  load_modules = λ path. none;
  compile_modules = λ ms. true;
  has_deny_rule = λ ms. true;
  prepare = λ ms. some (λ i. no_result);
}

abbrev resource : Resource PolicySpec
resource = record {
  api_version = "v2";
  kind = "Policy";
  metadata = record { name = "staff-only"; labels = [] };
  spec = record { require = some rule; rego_path = "" };
}

compiled : compile compiler (resource ∷ []) ≡ ok (("staff-only", staff_only) ∷ [])
unfolding compile compile_one insert lookup String-discrete
compiled = refl

found : lookup "staff-only" (("staff-only", staff_only) ∷ []) ≡ some staff_only
unfolding lookup String-discrete
found = refl

compile-IsEntry_example : IsEntry ("staff-only", staff_only)
compile-IsEntry_example =
    compile-IsEntry compiler (resource ∷ []) (("staff-only", staff_only) ∷ []) "staff-only"
      staff_only compiled found
