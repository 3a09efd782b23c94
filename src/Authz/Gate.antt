-- ===== src/Authz/Gate.antt =====
-- authz/gate.go: the middleware that asks every policy of a route.
use hog.Base.{
  String, Bool, true, false, Option, none, some, List, [], ◌∷◌, not, ◌&&◌, ◌==◌, if◌then◌else◌,
}
use hog.Base.{◌≡◌, ◌⊎◌, inl, inr, refl, arith, All, ap, ◌++◌}
use hog.Base.Dict.{Dict}
use hog.Http.{Request, Writer, Exchange, Handler, writing, error, redirect}
use hog.Session.Value.{Value}
use hog.Session.Principal.{Principal, from_context}
use hog.Chain.{Middleware}
use hog.Authz.Policy.{Policy, Decision, allow, deny, fail, decision, build_input, Input}

-- How the gate answers, for one denial: a redirect, when there is one and the policy was evaluated.
unfoldable pub refuse : String → Bool → Writer → Writer
refuse target failed w =
    if not (target == "") && not failed then redirect target 302 w else error "forbidden" 403 w

module _ (sprint : Value → String) where
  -- the loop over the policies: the first denial, whether its evaluation failed
  unfoldable pub first_denial : List Policy → Option Principal → Input → Option Bool
  first_denial [] p input = none
  first_denial (pol ∷ policies) p input =
      let later = first_denial policies p input in
      elim (decision sprint pol p input) [
        | allow ↦ later
        | deny reason ↦ some false
        | fail ↦ some true
      ]

  answer :
      {World : Type 0}
      → String
      → Handler World
      → Request
      → Exchange World
      → Option Bool
      → Exchange World
  unfolding refuse
  answer target next r x none = next r x
  answer target next r x (some failed) = writing (refuse target failed) x

  -- `Gate`; what it logs is left out
  unfoldable pub gate :
      {World : Type 0} → List Policy → String → Dict String → String → Middleware World
  unfolding answer first_denial
  gate policies name labels target next r x =
      let p = from_context r.context in
      answer target next r x (first_denial policies p (build_input p r name labels))

  -- A policy's decision on a request.
  abbrev pub decision_on : Request → String → Dict String → Policy → Decision
  decision_on r name labels pol =
      decision sprint pol (from_context r.context)
        (build_input (from_context r.context) r name labels)

  abbrev pub Allows : Request → String → Dict String → Policy → Type 0
  Allows r name labels pol = decision_on r name labels pol ≡ allow

  -- the first policy of a list that does not allow, and whether its evaluation failed
  abbrev Denied : (Policy → Decision) → List Policy → Option Bool → Type 0
  Denied decide policies found =
      (before : List Policy) × (pol : Policy) × (after : List Policy) × (policies
        ≡ before ++ (pol ∷ after))
      × All (λ q. decide q ≡ allow) before
      × (((reason : String) × (decide pol ≡ deny reason) × (found ≡ some false))
          ⊎ ((decide pol ≡ fail) × (found ≡ some true)))

  first_denial-Denied :
      (policies : List Policy) (p : Option Principal) (input : Input)
      → ((first_denial policies p input ≡ none)
          × All (λ pol. decision sprint pol p input ≡ allow) policies)
        ⊎ Denied (λ pol. decision sprint pol p input) policies (first_denial policies p input)
  unfolding first_denial
  first_denial-Denied [] p input = inl (refl, tt)
  first_denial-Denied (pol ∷ policies) p input =
      by_decision (decision sprint pol p input) refl (first_denial-Denied policies p input)
    where
      by_decision :
          (d : Decision)
          → decision sprint pol p input ≡ d
          → ((first_denial policies p input ≡ none)
              × All (λ q. decision sprint q p input ≡ allow) policies)
            ⊎ Denied (λ q. decision sprint q p input) policies (first_denial policies p input)
          → ((first_denial (pol ∷ policies) p input ≡ none)
              × All (λ q. decision sprint q p input ≡ allow) (pol ∷ policies))
            ⊎ Denied
                (λ q. decision sprint q p input)
                (pol ∷ policies)
                (first_denial (pol ∷ policies) p input)
      by_decision allow e (inl (f, h)) = inl (ground (arith, e, f), (e, h))
      by_decision allow e (inr (before, q, after, split, h, inl (reason, f, found))) = inr (
        pol ∷ before,
        q,
        after,
        ap (λ qs. pol ∷ qs) split,
        (e, h),
        inl (reason, f, ground (arith, e, found)),
      )
      by_decision allow e (inr (before, q, after, split, h, inr (f, found))) = inr (
        pol ∷ before,
        q,
        after,
        ap (λ qs. pol ∷ qs) split,
        (e, h),
        inr (f, ground (arith, e, found)),
      )
      by_decision (deny reason) e rest =
          inr ([], pol, policies, refl, tt, inl (reason, e, ground (arith, e)))
      by_decision fail e rest = inr ([], pol, policies, refl, tt, inr (e, ground (arith, e)))

  -- The answer of the gate alone, for the first policy that does not allow: a redirect, where there is a target and the
  -- policy denied; 403 where there is none, or the policy's evaluation failed.
  abbrev pub Refuses : Type 0 → List Policy → String → String → Dict String → Request → Type 0
  Refuses World policies name target labels r =
      (before : List Policy) × (pol : Policy) × (after : List Policy) × (policies
        ≡ before ++ (pol ∷ after))
      × All (Allows r name labels) before
      × (((reason : String) × (decision_on r name labels pol ≡ deny reason)
            × ((next : Handler World) (x : Exchange World)
                → gate policies name labels target next r x
                  ≡ writing (if target == "" then error "forbidden" 403 else redirect target 302)
                      x))
          ⊎ ((decision_on r name labels pol ≡ fail)
              × ((next : Handler World) (x : Exchange World)
                  → gate policies name labels target next r x ≡ writing (error "forbidden" 403) x)))

  -- A request reaches what is behind the gate if every policy allows it; otherwise the gate alone answers, for the first
  -- policy that does not allow it: if that one denies, by a redirect where there is a target, else by 403; if its
  -- evaluation fails, by 403 always.
  pub gate_lem :
      {World : Type 0} (policies : List Policy) (name target : String) (labels : Dict String)
      (r : Request)
      → (All (Allows r name labels) policies
          × ((next : Handler World) (x : Exchange World)
              → gate policies name labels target next r x ≡ next r x))
        ⊎ Refuses World policies name target labels r
  unfolding gate answer refuse
  gate_lem policies name target labels r =
      elim (first_denial-Denied policies (from_context r.context)
        (build_input (from_context r.context) r name labels)) [
          | inl (e, h) ↦ inl (h, λ next x. rw (e, gate) refl)
          | inr (before, q, after, split, h, inl (reason, f, e)) ↦
              inr (before, q, after, split, h, inl (reason, f, λ next x. ground (arith, e)))
          | inr (before, q, after, split, h, inr (f, e)) ↦
              inr (before, q, after, split, h, inr (f, λ next x. ground (arith, e)))
        ]
