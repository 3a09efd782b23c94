-- ===== src/Authz.antt =====
-- authz/: the built-in rule, policies, and the gate that denies a request. The Rego query and
-- `fmt.Sprint` are parameters.
pub mod Rule
pub mod Policy
pub mod Gate
mod Tests
use hog.Base.{
  String, Bool, true, false, Option, none, some, List, [], ◌∷◌, not, ◌&&◌, any, all, contains,
  if◌then◌else◌,
}
use hog.Base.Dict.{Dict, lookup}
use hog.Session.Value.{Value, str}
use hog.Session.Principal.{Principal}

-- `Require`
pub record Require : Type 0 where
  pub groups : List String
  pub claims : Dict (List String)

abbrev pub is_empty {ℓ} : {A : Type ℓ} → List A → Bool
is_empty [] = true
is_empty (x ∷ xs) = false

-- `Require.Empty`
abbrev pub empty : Require → Bool
empty r = is_empty r.groups && is_empty r.claims

-- `anyGroup`
unfoldable pub any_group : List String → List String → Bool
any_group have [] = false
any_group have (w ∷ want) = if contains have w then true else any_group have want

module _ (sprint : Value → String) where
  -- `stringify`
  unfoldable pub stringify : Value → String
  stringify (str s) = s
  stringify v = sprint v

  claim_ok : Option Value → List String → Bool
  unfolding stringify
  claim_ok none allowed = false
  claim_ok (some v) allowed = contains allowed (stringify v)

  -- the loop over the claims
  claims_ok : Dict Value → Dict (List String) → Bool
  unfolding claim_ok
  claims_ok passport [] = true
  claims_ok passport ((claim, allowed) ∷ claims) =
      let rest = claims_ok passport claims in
      if not (claim_ok (lookup claim passport) allowed) then false else rest

  -- `Satisfied`
  unfoldable pub satisfied : Require → Option Principal → Bool
  unfolding claims_ok any_group
  satisfied r p = if empty r then true else elim p [
    | none ↦ false
    | some q ↦
        if not (is_empty r.groups) && not (any_group q.groups r.groups)
        then false
        else claims_ok q.passport r.claims
  ]
