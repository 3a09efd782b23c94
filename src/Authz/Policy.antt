-- ===== src/Authz/Policy.antt =====
-- authz/policy.go, authz/input.go and the result of a Rego query in authz/engine.go.
pub mod Compiled
use hog.Base.{
  String, ◌<>◌, Bool, true, false, Option, none, some, List, [], ◌∷◌, ◌++◌, not, ◌&&◌, ◌||◌, any,
  contains, if◌then◌else◌, ◌==◌, is_some,
}
use hog.Base.{
  ◌⊎◌, ◌↔◌, ap, ◌≡◌, refl, sym, arith, Result, ok, err, ◌>>=◌, ◌>>◌, guard, Bool-cases,
  Option-cases, inl, inr,
}
use hog.Base.Text
use hog.Base.Dict
use hog.Base.Dict.{Dict, lookup, insert}
use hog.Config.{Resource}
use hog.Http.{Request}
use hog.Session.Value.{Value, Items, nil, cons, arr, str}
use hog.Session.Principal.{Principal}
use hog.Authz.{Require, empty, is_empty, satisfied}

-- the input of a policy, from `buildInput`; a nil principal has empty fields
pub record Input : Type 0 where
  pub subject : String
  pub groups : List String
  pub claims : Dict Value
  pub method : String
  pub path : String
  pub route : String
  pub route_name : String
  pub labels : Dict String

-- `buildInput`
unfoldable pub build_input : Option Principal → Request → String → Dict String → Input
build_input none r name labels = record {
  subject = "";
  groups = [];
  claims = [];
  method = r.method;
  path = r.path;
  route = r.pattern;
  route_name = name;
  labels = labels;
}
build_input (some p) r name labels = record {
  subject = p.subject;
  groups = p.groups;
  claims = p.passport;
  method = r.method;
  path = r.path;
  route = r.pattern;
  route_name = name;
  labels = labels;
}

-- what OPA answers for `data.hog.authz.deny`: an error, no result, or the first expression's value
pub data QueryResult : Type 0 where
  query_error no_result : QueryResult
  result : Value → QueryResult

-- `Policy`; an engine is its prepared query
pub record Policy : Type 0 where
  pub name : String
  pub require : Option Require
  pub engine : Option (Input → QueryResult)

-- `Decision`'s results: the reason of a denial, or the error of the evaluation
pub data Decision : Type 0 where
  allow : Decision
  deny : String → Decision
  fail : Decision

-- the strings of the deny set
reasons : (Value → String) → Items → List String
reasons sprint nil = []
reasons sprint (cons (str s) vs) = s ∷ reasons sprint vs
reasons sprint (cons v vs) = sprint v ∷ reasons sprint vs

-- `Engine.Eval`; an error is none
unfoldable pub eval : (Value → String) → (Input → QueryResult) → Input → Option (List String)
unfolding reasons
eval sprint query input = elim (query input) [
  | query_error ↦ none
  | no_result ↦ some []
  | result (arr vs) ↦ some (reasons sprint vs)
  | result _ ↦ none
]

engine_decision : Option (List String) → Decision
engine_decision none = fail
engine_decision (some []) = allow
engine_decision (some (r ∷ rs)) = deny (Text.join (r ∷ rs) "; ")

meets : (Value → String) → Option Require → Option Principal → Bool
unfolding satisfied
meets sprint none p = true
meets sprint (some r) p = satisfied sprint r p

rego_decision : (Value → String) → Option (Input → QueryResult) → Input → Decision
unfolding engine_decision eval
rego_decision sprint none input = allow
rego_decision sprint (some query) input = engine_decision (eval sprint query input)

-- `Policy.Decision`
unfoldable pub decision : (Value → String) → Policy → Option Principal → Input → Decision
unfolding rego_decision meets
decision sprint pol p input =
    if not (meets sprint pol.require p)
    then deny "require not satisfied"
    else rego_decision sprint pol.engine input

-- A query that denies nothing: it has no result, or an empty []any, which is what OPA makes of an empty set and of an
-- empty array alike.
abbrev pub IsSilent : Option (Input → QueryResult) → Input → Type 0
IsSilent none input = Unit {0}
IsSilent (some query) input = (query input ≡ no_result) ⊎ (query input ≡ result (arr nil))

-- The rule, when there is one, is satisfied.
abbrev pub IsMet : (Value → String) → Option Require → Option Principal → Type 0
IsMet sprint none p = Unit {0}
IsMet sprint (some r) p = satisfied sprint r p ≡ true

module _ (sprint : Value → String) where
  eval-IsSilent :
      (query : Input → QueryResult) (input : Input)
      → engine_decision (eval sprint query input) ≡ allow
      → IsSilent (some query) input
  unfolding eval engine_decision reasons
  eval-IsSilent query input h = silent (query input) h
    where
      silent :
          (q : QueryResult)
          → engine_decision (elim q [
            | query_error ↦ none
            | no_result ↦ some []
            | result (arr vs) ↦ some (reasons sprint vs)
            | result _ ↦ none
          ])
            ≡ allow
          → (q ≡ no_result) ⊎ (q ≡ result (arr nil))
      silent query_error h = absurd (ground arith)
      silent no_result h = inl refl
      silent (result (arr nil)) h = inr refl
      silent (result (arr (cons (str s) vs))) h = absurd (ground arith)
      silent (result (arr (cons v vs))) h = absurd (ground arith)
      silent (result v) h = absurd (ground arith)

  rego-IsSilent :
      (e : Option (Input → QueryResult)) (input : Input)
      → (rego_decision sprint e input ≡ allow) ↔ IsSilent e input
  unfolding rego_decision eval engine_decision reasons
  rego-IsSilent none input = (λ _. tt, λ _. refl)
  rego-IsSilent (some query) input = (eval-IsSilent query input, back)
    where
      back : IsSilent (some query) input → engine_decision (eval sprint query input) ≡ allow
      back (inl e) = ground arith
      back (inr e) = ground arith

  meets-IsMet :
      (r : Option Require) (p : Option Principal) → (meets sprint r p ≡ true) ↔ IsMet sprint r p
  unfolding meets
  meets-IsMet none p = (λ _. tt, λ _. refl)
  meets-IsMet (some r) p = (λ h. h, λ h. h)

  -- A policy allows a request exactly when its rule, if it has one, is satisfied, and its query, if it has one, gives no
  -- result, an empty set or an empty array, which the code cannot tell from the set: an error, a value that is neither, and
  -- a set or an array with a member deny.
  pub decision_allows_iff :
      (pol : Policy) (p : Option Principal) (input : Input)
      → (decision sprint pol p input ≡ allow)
        ↔ (IsMet sprint pol.require p × IsSilent pol.engine input)
  unfolding decision
  decision_allows_iff pol p input =
      let (met, met_back) = meets-IsMet pol.require p in
      let (silent, silent_back) = rego-IsSilent pol.engine input in
      (
        λ h. (met (ground arith), silent (ground arith)),
        λ (m, s). ground (arith, met_back m, silent_back s),
      )

-- `policySpec`: the decoded spec; the path of a `rego` block that has none is empty
pub record PolicySpec : Type 0 where
  pub require : Option Require
  pub rego_path : String

-- why `Compile` fails
pub data PolicyError : Type 0 where
  bad_spec empty_require no_tier empty_values duplicate_policy bad_rego : PolicyError

-- What the compiler is built on: YAML decoding, and OPA's loader and compiler.
pub record Compiler (Node : Type 0) : Type 1 where
  pub decode : Node → Option PolicySpec
  pub Module : Type 0
  pub load_modules : String → Option (List Module)
  pub compile_modules : List Module → Bool  -- whether it succeeds
  pub has_deny_rule : List Module → Bool
  pub prepare : List Module → Option (Input → QueryResult)

abbrev requires_nothing : Option Require → Bool
requires_nothing none = false
requires_nothing (some r) = empty r

abbrev claims_of : Option Require → Dict (List String)
claims_of none = []
claims_of (some r) = r.claims

module _ {Node : Type 0} (c : Compiler Node) where
  engine_from : Option (List c.Module) → Option (Input → QueryResult)
  engine_from none = none
  engine_from (some ms) =
      if is_empty ms
      then none
      else if not (c.compile_modules ms)
      then none
      else if not (c.has_deny_rule ms)
      then none
      else c.prepare ms

  -- `NewEngine`, of a path that is not empty; an error is none
  pub new_engine : String → Option (Input → QueryResult)
  unfolding engine_from
  new_engine path = engine_from (c.load_modules path)

  engine_of : String → Result PolicyError (Option (Input → QueryResult))
  engine_of path =
      if path == ""
      then ok none
      else elim (new_engine path) [ none ↦ err bad_rego | some query ↦ ok (some query) ]

  -- the body of the loop: the checks of one resource, and the policy
  unfoldable pub compile_one : Dict Policy → Resource Node → Result PolicyError Policy
  unfolding engine_of new_engine
  compile_one out r = do
    spec ← elim (c.decode r.spec) [ none ↦ err bad_spec | some s ↦ ok s ]
    guard (not (requires_nothing spec.require)) empty_require
    guard (is_some spec.require || not (spec.rego_path == "")) no_tier
    guard (not (any (λ (claim, allowed). is_empty allowed) (claims_of spec.require))) empty_values
    guard (not (is_some (lookup r.metadata.name out))) duplicate_policy
    engine ← engine_of spec.rego_path
    ok (record { name = r.metadata.name; require = spec.require; engine = engine })

  compile_loop : Dict Policy → List (Resource Node) → Result PolicyError (Dict Policy)
  unfolding compile_one
  compile_loop out [] = ok out
  compile_loop out (r ∷ rs) = do
    p ← compile_one out r
    compile_loop (insert r.metadata.name p out) rs

  -- `Compile`
  unfoldable pub compile : List (Resource Node) → Result PolicyError (Dict Policy)
  unfolding compile_loop
  compile resources = compile_loop [] resources
