-- ===== src/Authz/Rule.antt =====
-- What the built-in rule asks of a principal.
use hog.Base.{String, true, false, Option, none, some, List, [], ◌∷◌, not, ◌&&◌, contains}
use hog.Base.{◌≡◌, ◌⊎◌, ◌↔◌, inl, inr, refl, arith, All, Bool-cases}
use hog.Base.Dict.{Dict, lookup}
use hog.Session.Value.{Value}
use hog.Session.Principal.{Principal}
use hog.Authz.{Require, empty, is_empty, any_group, stringify, claim_ok, claims_ok, satisfied}

-- A group that both lists name.
abbrev pub IsShared : List String → List String → Type 0
IsShared have want = (g : String) × (contains have g ≡ true) × (contains want g ≡ true)

module _ (sprint : Value → String) where
  -- The passport has the claim, with one of the values that are allowed.
  abbrev pub HasClaim : Dict Value → String × List String → Type 0
  HasClaim passport (claim, allowed) =
      (v : Value) × (lookup claim passport ≡ some v)
      × (contains allowed (stringify sprint v) ≡ true)

  -- A principal in one of the groups, if any are listed, with every claim.
  abbrev pub Meets : Require → Principal → Type 0
  Meets r p = ((r.groups ≡ []) ⊎ IsShared p.groups r.groups) × All (HasClaim p.passport) r.claims

  any_group_sound : (have want : List String) → any_group have want ≡ true → IsShared have want
  unfolding any_group
  any_group_sound have [] h = absurd (ground arith)
  any_group_sound have (w ∷ want) h = elim (Bool-cases (contains have w)) [
    | inl e ↦ (w, e, ground arith)
    | inr e ↦
        let (g, mine, theirs) = any_group_sound have want (ground arith) in (g, mine, ground arith)
  ]

  any_group_complete : (have want : List String) → IsShared have want → any_group have want ≡ true
  unfolding any_group
  any_group_complete have [] (g, mine, theirs) = ground arith
  any_group_complete have (w ∷ want) (g, mine, theirs) =
      ground (arith, λ (e : contains want g ≡ true). any_group_complete have want (g, mine, e))

  claim_ok_sound :
      (passport : Dict Value) (claim : String) (allowed : List String) (o : Option Value)
      → lookup claim passport ≡ o
      → claim_ok sprint o allowed ≡ true
      → HasClaim passport (claim, allowed)
  unfolding claim_ok
  claim_ok_sound passport claim allowed none e h = absurd (ground arith)
  claim_ok_sound passport claim allowed (some v) e h = (v, e, h)

  claims_ok_sound :
      (passport : Dict Value) (cs : Dict (List String))
      → claims_ok sprint passport cs ≡ true
      → All (HasClaim passport) cs
  unfolding claims_ok
  claims_ok_sound passport [] h = tt
  claims_ok_sound passport ((claim, allowed) ∷ cs) h = (
    claim_ok_sound passport claim allowed (lookup claim passport) refl (ground arith),
    claims_ok_sound passport cs (ground arith),
  )

  claims_ok_complete :
      (passport : Dict Value) (cs : Dict (List String))
      → All (HasClaim passport) cs
      → claims_ok sprint passport cs ≡ true
  unfolding claims_ok claim_ok
  claims_ok_complete passport [] h = refl
  claims_ok_complete passport ((claim, allowed) ∷ cs) ((v, has, ok), h) =
      ground (arith, claims_ok_complete passport cs h)

  -- A principal satisfies the rule exactly when the rule is empty, or it shares a group with the rule's, if
  -- any are listed, and has every claim with an allowed value; no principal satisfies only an empty rule.
  pub satisfied_iff :
      (r : Require) (p : Option Principal)
      → (satisfied sprint r p ≡ true)
        ↔ ((empty r ≡ true) ⊎ ((q : Principal) × (p ≡ some q) × Meets r q))
  unfolding satisfied
  satisfied_iff r p = (sound p, complete p)
    where
      groups_cases :
          (gs have : List String)
          → (not (is_empty gs) && not (any_group have gs)) ≡ false
          → (gs ≡ []) ⊎ IsShared have gs
      groups_cases [] have h = inl refl
      groups_cases (g ∷ gs) have h = inr (any_group_sound have (g ∷ gs) (ground arith))

      groups_back :
          (gs have : List String)
          → ((gs ≡ []) ⊎ IsShared have gs)
          → (not (is_empty gs) && not (any_group have gs)) ≡ false
      groups_back [] have h = refl
      groups_back (g ∷ gs) have (inl e) = absurd (ground arith)
      groups_back (g ∷ gs) have (inr shared) =
          ground (arith, any_group_complete have (g ∷ gs) shared)

      sound :
          (o : Option Principal)
          → satisfied sprint r o ≡ true
          → (empty r ≡ true) ⊎ ((q : Principal) × (o ≡ some q) × Meets r q)
      sound none h = inl (ground arith)
      sound (some q) h = elim (Bool-cases (empty r)) [
        | inl e ↦ inl e
        | inr e ↦ inr (
          q,
          refl,
          (
            groups_cases r.groups q.groups (ground arith),
            claims_ok_sound q.passport r.claims (ground arith),
          ),
        )
      ]

      complete :
          (o : Option Principal)
          → (empty r ≡ true) ⊎ ((q : Principal) × (o ≡ some q) × Meets r q)
          → satisfied sprint r o ≡ true
      complete o (inl e) = ground arith
      complete none (inr (q, e, h)) = absurd (ground arith)
      complete (some p') (inr (q, e, (in_groups, has))) = ground (
        arith,
        groups_back r.groups q.groups in_groups,
        claims_ok_complete q.passport r.claims has,
      )
