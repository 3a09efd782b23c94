-- ===== src/Selector/Tests.antt =====
use hog.Base.{◌↔◌, String, true, false, [], ◌∷◌, ◌≡◌, refl, String-discrete}
use hog.Base.Dict.{Dict, lookup}
use hog.Selector.{Selector, matches, satisfies}
use hog.Selector.Terms.{Selects, matches_iff}

abbrev labels : Dict String
labels = ("app", "dash") ∷ ("tier", "web") ∷ []

abbrev web : Selector
web = record {
  match_labels = ("tier", "web") ∷ [];
  match_expressions =
      record { key = "app"; operator = "In"; values = "dash" ∷ [] }
      ∷ record { key = "env"; operator = "NotIn"; values = "prod" ∷ [] }
      ∷ [];
}

matches-web : matches web labels ≡ true
unfolding matches satisfies lookup String-discrete
matches-web = refl

unknown_operator :
    matches
      (record {
        match_labels = [];
        match_expressions = record { key = "app"; operator = "in"; values = "dash" ∷ [] } ∷ [];
      })
      labels
    ≡ false
unfolding matches satisfies lookup String-discrete
unknown_operator = refl

matches_iff_example : (matches web labels ≡ true) ↔ Selects web labels
matches_iff_example = matches_iff web labels
