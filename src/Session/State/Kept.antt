-- ===== src/Session/State/Kept.antt =====
-- session/statemanager.go, auth/endpoints.go: a cookie by its name, in what a browser kept of a response.
use hog.Base.{
  String, ℕ, zero, suc, Option, none, some, List, [], ◌∷◌, ◌++◌, ◌≡◌, ◌≢◌, refl, ◌∙◌, ap, arith,
  ◌==◌, Bool-cases, inl, inr,
}
use hog.Http.{Cookie, SetCookie}
use hog.Session.State.{cookie_named}
use hog.Session.Manager.Browser.{remove, accept_one, accept, accept-append}

cookie_named-remove : (name : String) (cs : List Cookie) → cookie_named name (remove name cs) ≡ none
unfolding cookie_named
cookie_named-remove name [] = refl
cookie_named-remove name (c ∷ cs) = elim (Bool-cases (c.name == name)) [
  | inl e ↦ ground (arith, e, cookie_named-remove name cs)
  | inr e ↦ ground (arith, e, cookie_named-remove name cs)
]

cookie_named-append :
    (name value : String) (cs : List Cookie)
    → cookie_named name cs ≡ none
    → cookie_named name (cs ++ (record { name = name; value = value } ∷ [])) ≡ some value
unfolding cookie_named
cookie_named-append name value [] h = ground arith
cookie_named-append name value (c ∷ cs) h = elim (Bool-cases (c.name == name)) [
  | inl e ↦ absurd (ground (arith, e, h))
  | inr e ↦ ground (arith, e, cookie_named-append name value cs (ground (arith, e, h)))
]

cookie_named-accept_one :
    (s : SetCookie) (cs : List Cookie)
    → s.max_age ≢ some 0
    → cookie_named s.name (accept_one s cs) ≡ some s.value
cookie_named-accept_one s cs lasts =
    let found =
      cookie_named-append s.name s.value (remove s.name cs) (cookie_named-remove s.name cs) in
    by_age s.max_age refl found
  where
    by_age :
        (o : Option ℕ)
        → s.max_age ≡ o
        → cookie_named s.name (remove s.name cs ++ (record { name = s.name; value = s.value } ∷ []))
          ≡ some s.value
        → cookie_named s.name (accept_one s cs) ≡ some s.value
    by_age none e found = rw e found
    by_age (some zero) e found = absurd (lasts e)
    by_age (some (suc n)) e found = rw e found

-- The browser's next request carries the last cookie that a response sets, if it does not expire at once.
pub cookie_named-accept :
    (ss : List SetCookie) (s : SetCookie) (cs : List Cookie)
    → s.max_age ≢ some 0
    → cookie_named s.name (accept (ss ++ (s ∷ [])) cs) ≡ some s.value
unfolding accept
cookie_named-accept ss s cs lasts =
    ap (cookie_named s.name) (accept-append ss (s ∷ []) cs)
    ∙ cookie_named-accept_one s (accept ss cs) lasts
