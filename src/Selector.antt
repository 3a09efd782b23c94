-- ===== src/Selector.antt =====
-- selector/selector.go: label selectors, which wire plugins and route groups to routes.
pub mod Terms
mod Tests
use hog.Base.{String, Bool, true, false, Option, none, some, List, [], ◌∷◌, ◌==◌, contains}
use hog.Base.{not, if◌then◌else◌}
use hog.Base.Dict.{Dict, lookup}

-- `Requirement`
pub record Requirement : Type 0 where
  pub key : String
  pub operator : String
  pub values : List String

-- `Selector`
pub record Selector : Type 0 where
  pub match_labels : Dict String
  pub match_expressions : List Requirement

-- `labels[k]`, which is "" for a missing key
abbrev pub label : Dict String → String → String
label labels k = elim (lookup k labels) [ none ↦ "" | some v ↦ v ]

-- `val, present := labels[k]`, and then whether it is listed
abbrev pub listed : List String → Option String → Bool
listed values none = false
listed values (some v) = contains values v

abbrev pub present : Option String → Bool
present none = false
present (some _) = true

-- the `switch r.Operator`, given `val, present := labels[r.Key]`
unfoldable pub apply : String → List String → Option String → Bool
apply operator values found =
    if operator == "In"
    then listed values found
    else if operator == "NotIn"
    then not (listed values found)
    else if operator == "Exists"
    then present found
    else if operator == "DoesNotExist"
    then not (present found)
    else false

unfoldable pub satisfies : Dict String → Requirement → Bool
unfolding apply
satisfies labels r = apply r.operator r.values (lookup r.key labels)

match_labels_loop : Dict String → Dict String → Bool
match_labels_loop labels [] = true
match_labels_loop labels ((k, v) ∷ terms) = elim (label labels k == v) [
  | true ↦ match_labels_loop labels terms
  | false ↦ false
]

expressions_loop : Dict String → List Requirement → Bool
expressions_loop labels [] = true
expressions_loop labels (r ∷ rs) = elim (satisfies labels r) [
  | true ↦ expressions_loop labels rs
  | false ↦ false
]

-- `Selector.Matches`
unfoldable pub matches : Selector → Dict String → Bool
unfolding match_labels_loop expressions_loop
matches s labels = elim (match_labels_loop labels s.match_labels) [
  | true ↦ expressions_loop labels s.match_expressions
  | false ↦ false
]
