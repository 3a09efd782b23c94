-- ===== src/Terminal/Aggregate/Document.antt =====
-- What the handler answers.
use hog.Base.{
  String, Bool, Option, none, some, List, [], ◌∷◌, ◌++◌, map, ◌≡◌, refl, arith, ◌==◌, if◌then◌else◌,
}
use hog.Base.Dict
use hog.Base.Dict.{Dict}
use hog.Http.{Request, Writer, error}
use hog.Base.Text
use hog.Terminal.Aggregate.{
  Backend, ApiHandler, BackendResult, body_ok, failed, Env, merged, required_failed, merge, results,
  serve_api,
}

abbrev groups_of : List (Backend × BackendResult) → List String
groups_of xs = map (λ p. p.0.group) xs

-- the first required backend that failed, and whether it timed out
unfoldable pub first_failure : List (Backend × BackendResult) → Option Bool
first_failure [] = none
first_failure ((b, body_ok body) ∷ rest) = first_failure rest
first_failure ((b, failed timeout) ∷ rest) =
    let later = first_failure rest in if b.required then some timeout else later

-- the backends that failed
unfoldable pub failures : List (Backend × BackendResult) → List String
failures [] = []
failures ((b, body_ok body) ∷ rest) = failures rest
failures ((b, failed timeout) ∷ rest) = b.group ∷ failures rest

abbrev body_of : BackendResult → Option String
body_of (body_ok body) = some body
body_of (failed timeout) = none

-- what the backend of a group answered
unfoldable pub answer_of : String → List (Backend × BackendResult) → Option String
answer_of g [] = none
answer_of g ((b, res) ∷ rest) =
    let later = answer_of g rest in if g == b.group then body_of res else later

merge-required_failed :
    (xs : List (Backend × BackendResult)) (doc : Dict String) (omitted : List String) (t : Bool)
    → first_failure xs ≡ some t
    → merge xs doc omitted ≡ required_failed t
unfolding first_failure merge
merge-required_failed [] doc omitted t e = absurd (ground arith)
merge-required_failed ((b, body_ok body) ∷ rest) doc omitted t e =
    merge-required_failed rest (Dict.insert b.group body doc) omitted t e
merge-required_failed ((b, failed timeout) ∷ rest) doc omitted t e =
    ground (arith, merge-required_failed rest doc (omitted ++ (b.group ∷ [])) t)

-- Where a required backend fails, the client is told so, and nothing that any backend said: with the status of a
-- timeout, if that is what the first of them failed with.
pub serve_api-required :
    (env : Env) (h : ApiHandler) (r : Request) (w : Writer) (t : Bool)
    → first_failure (results env h r) ≡ some t
    → serve_api env h r w ≡ error "upstream error" (if t then 504 else 502) w
unfolding serve_api
serve_api-required env h r w t e = rw (merge-required_failed (results env h r) [] [] t e) refl

-- The document of a merge that goes through.
abbrev Documents : List (Backend × BackendResult) → Dict String → List String → String → Type 0
Documents xs doc omitted g =
    (out : Dict String) × (merge xs doc omitted ≡ merged out (omitted ++ failures xs))
    × (Dict.lookup g out
        ≡ (elim (answer_of g xs) [ none ↦ Dict.lookup g doc | some body ↦ some body ]))

-- the header that names the groups left out, where there is one
abbrev pub partial_value : List String → String → String
partial_value [] before = before
partial_value (g ∷ gs) before = Text.join (g ∷ gs) ","
