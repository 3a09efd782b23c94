-- ===== src/Selector/Terms.antt =====
-- What `Matches` decides: every term of the selector holds of the labels.
use hog.Base.{String, true, false, Option, none, some, List, [], ◌∷◌, ◌≡◌, ◌≢◌, ◌↔◌, arith}
use hog.Base.{refl, contains, All, String-discrete}
use hog.Base.Dict.{Dict, lookup}
use hog.Selector.{Requirement, Selector, label, apply, satisfies, matches}
use hog.Selector.{match_labels_loop, expressions_loop}

-- The four operators of a set-based term, given its values and the label of its key.
pub data Holds (op : String) (values : List String) (found : Option String) : Type 0 where
  is_in :
      (v : String) → op ≡ "In" → found ≡ some v → contains values v ≡ true → Holds op values found
  not_in :
      op ≡ "NotIn"
      → ((v : String) → found ≡ some v → contains values v ≡ false)
      → Holds op values found
  exists : (v : String) → op ≡ "Exists" → found ≡ some v → Holds op values found
  absent : op ≡ "DoesNotExist" → found ≡ none → Holds op values found

-- Every term of the selector: the labels that it lists, and its requirements.
pub record Selects (s : Selector) (labels : Dict String) : Type 0 where
  pub same : All (λ (k, v). label labels k ≡ v) s.match_labels
  pub holds : All (λ r. Holds r.operator r.values (lookup r.key labels)) s.match_expressions

module _ (values : List String) where
  apply_in : (found : Option String) → apply "In" values found ≡ true → Holds "In" values found
  unfolding apply String-discrete
  apply_in none h = cc
  apply_in (some v) h = is_in v refl refl h

  apply_not_in :
      (found : Option String) → apply "NotIn" values found ≡ true → Holds "NotIn" values found
  unfolding apply String-discrete
  apply_not_in none h = not_in refl (λ v e. cc)
  apply_not_in (some v) h = not_in refl (λ w e. ground arith)

  apply_exists :
      (found : Option String) → apply "Exists" values found ≡ true → Holds "Exists" values found
  unfolding apply String-discrete
  apply_exists none h = cc
  apply_exists (some v) h = exists v refl refl

  apply_absent :
      (found : Option String)
      → apply "DoesNotExist" values found ≡ true
      → Holds "DoesNotExist" values found
  unfolding apply String-discrete
  apply_absent none h = absent refl refl
  apply_absent (some v) h = cc

  apply_unknown :
      (op : String) (found : Option String)
      → op ≢ "In"
      → op ≢ "NotIn"
      → op ≢ "Exists"
      → op ≢ "DoesNotExist"
      → apply op values found ≡ false
  unfolding apply
  apply_unknown op found a b c d = ground arith

  apply_sound :
      (op : String) (found : Option String) → apply op values found ≡ true → Holds op values found
  apply_sound op found h = elim (String-discrete op "In") [
    | yes a ↦ rw a (apply_in found (rw a at h))
    | no a ↦ elim (String-discrete op "NotIn") [
      | yes b ↦ rw b (apply_not_in found (rw b at h))
      | no b ↦ elim (String-discrete op "Exists") [
        | yes c ↦ rw c (apply_exists found (rw c at h))
        | no c ↦ elim (String-discrete op "DoesNotExist") [
          | yes d ↦ rw d (apply_absent found (rw d at h))
          | no d ↦ cc (apply_unknown op found a b c d)
        ]
      ]
    ]
  ]

  not_in_holds :
      (found : Option String)
      → ((v : String) → found ≡ some v → contains values v ≡ false)
      → apply "NotIn" values found ≡ true
  unfolding apply String-discrete
  not_in_holds none n = refl
  not_in_holds (some v) n = ground (arith, n v)

  apply_complete :
      (op : String) (found : Option String) → Holds op values found → apply op values found ≡ true
  unfolding apply String-discrete
  apply_complete op found (is_in v o f c) = rw (o, f) c
  apply_complete op found (not_in o n) = rw o (not_in_holds found n)
  apply_complete op found (exists v o f) = rw (o, f)
  apply_complete op found (absent o f) = rw (o, f)

module _ (labels : Dict String) where
  labels_sound :
      (terms : Dict String)
      → match_labels_loop labels terms ≡ true
      → All (λ (k, v). label labels k ≡ v) terms
  unfolding match_labels_loop
  labels_sound [] h = tt
  labels_sound ((k, v) ∷ terms) h = (ground arith, labels_sound terms (ground arith))

  labels_complete :
      (terms : Dict String)
      → All (λ (k, v). label labels k ≡ v) terms
      → match_labels_loop labels terms ≡ true
  unfolding match_labels_loop
  labels_complete [] h = refl
  labels_complete ((k, v) ∷ terms) (e, h) = ground (arith, labels_complete terms h)

  expressions_sound :
      (rs : List Requirement)
      → expressions_loop labels rs ≡ true
      → All (λ r. Holds r.operator r.values (lookup r.key labels)) rs
  unfolding expressions_loop satisfies
  expressions_sound [] h = tt
  expressions_sound (r ∷ rs) h = (
    apply_sound r.values r.operator (lookup r.key labels) (ground arith),
    expressions_sound rs (ground arith),
  )

  expressions_complete :
      (rs : List Requirement)
      → All (λ r. Holds r.operator r.values (lookup r.key labels)) rs
      → expressions_loop labels rs ≡ true
  unfolding expressions_loop satisfies
  expressions_complete [] h = refl
  expressions_complete (r ∷ rs) (here, later) = ground (
    arith,
    apply_complete r.values r.operator (lookup r.key labels) here,
    expressions_complete rs later,
  )

-- `Matches` answers true exactly when every label that the selector lists has its value (a missing
-- label counts as "") and every requirement holds: `In` of a present label among the values,
-- `NotIn` of one that is not among them or is absent, `Exists`, `DoesNotExist`, and no other operator.
pub matches_iff :
    (s : Selector) (labels : Dict String) → (matches s labels ≡ true) ↔ Selects s labels
unfolding matches
matches_iff s labels = (
  (λ h. record {
    same = labels_sound labels s.match_labels (ground arith);
    holds = expressions_sound labels s.match_expressions (ground arith);
  }),
  (λ h. ground (
    arith,
    labels_complete labels s.match_labels h.same,
    expressions_complete labels s.match_expressions h.holds,
  )),
)
