-- ===== src/Session/Passport/Claims.antt =====
-- The passport holds exactly the allowlisted claims, and the subject is never emptied.
use hog.Base.{◌⊎◌, inl, inr, String, Option, none, some, List, [], ◌∷◌, ◌≡◌, ◌≢◌, refl, arith, ◌==◌}
use hog.Base.{sym, ap, inl, inr, String-discrete, ◌∙◌, contains, if◌then◌else◌}
use hog.Base.Dict.{Dict, lookup, lookup-insert}
use hog.Session.Value.{Value, null, bool, num, str, arr, strs, obj, string_or_empty}
use hog.Session.Passport.{or_claim, put, project_loop, project_passport, resolve_subject}

lookup-put :
    (j k : String) (o : Option Value) (out : Dict Value)
    → lookup j (put k o out) ≡ (if j == k then or_claim o (lookup j out) else lookup j out)
lookup-put j k none out = ground arith
lookup-put j k (some v) out = lookup-insert j k v out ∙ ground arith

module _ (id_claims userinfo : Dict Value) (n : String) where
  -- the value that the sources give to the claim
  abbrev sourced : Option Value
  sourced = or_claim (lookup n userinfo) (lookup n id_claims)

  lookup-project_loop :
      (claims : List String) (out : Dict Value)
      → lookup n (project_loop claims id_claims userinfo out)
        ≡ (if contains claims n then or_claim sourced (lookup n out) else lookup n out)
  unfolding project_loop
  lookup-project_loop [] out = refl
  lookup-project_loop (name ∷ names) out =
      lookup-project_loop names
        (put name (or_claim (lookup name userinfo) (lookup name id_claims)) out)
      ∙ ground
          (arith, lookup-put n name (or_claim (lookup name userinfo) (lookup name id_claims)) out)

  -- A passport holds of an allowlisted claim its userinfo value, else the token's, and no other
  -- claim at all.
  pub lookup-project_passport :
      (claims : List String)
      → lookup n (project_passport claims id_claims userinfo)
        ≡ (if contains claims n then or_claim (lookup n userinfo) (lookup n id_claims) else none)
  unfolding project_passport lookup
  lookup-project_passport claims = lookup-project_loop claims [] ∙ ground arith

-- What may become the subject: the fallback, or a text that the configured claim has.
pub data Resolves (claim fallback : String) (id_claims userinfo : Dict Value) (s : String)
    : Type 0 where
  kept : s ≡ fallback → Resolves claim fallback id_claims userinfo s
  from_userinfo :
      claim ≢ "sub"
      → lookup claim userinfo ≡ some (str s)
      → s ≢ ""
      → Resolves claim fallback id_claims userinfo s
  from_token :
      claim ≢ "sub"
      → lookup claim id_claims ≡ some (str s)
      → s ≢ ""
      → Resolves claim fallback id_claims userinfo s

string_or_empty_sound :
    (o : Option Value) (s : String) → string_or_empty o ≡ s → s ≢ "" → o ≡ some (str s)
string_or_empty_sound (some (str t)) s e n = ap (λ x. some (str x)) e
string_or_empty_sound (some null) s e n = absurd (n (sym e))
string_or_empty_sound (some (bool _)) s e n = absurd (n (sym e))
string_or_empty_sound (some (num _)) s e n = absurd (n (sym e))
string_or_empty_sound (some (arr _)) s e n = absurd (n (sym e))
string_or_empty_sound (some (strs _)) s e n = absurd (n (sym e))
string_or_empty_sound (some (obj _)) s e n = absurd (n (sym e))
string_or_empty_sound none s e n = absurd (n (sym e))

module _ (claim fallback : String) (id_claims userinfo : Dict Value) where
  -- The subject is the fallback, or a text that is not empty which the configured claim, other
  -- than "sub", has in userinfo or in the token; so it is empty only if the fallback is.
  pub resolve_subject-Resolves :
      Resolves claim fallback id_claims userinfo (resolve_subject claim fallback id_claims userinfo)
      × ((fallback ≡ "") ⊎ (resolve_subject claim fallback id_claims userinfo ≢ ""))
  unfolding resolve_subject
  resolve_subject-Resolves = (
    elim (String-discrete claim "") [
      | yes e ↦ kept (ground arith)
      | no m ↦ elim (String-discrete claim "sub") [
        | yes e ↦ kept (ground arith)
        | no n ↦ elim (String-discrete (string_or_empty (lookup claim userinfo)) "") [
          | no h ↦
              from_userinfo n (string_or_empty_sound _ _ (ground arith) (ground arith))
                (ground arith)
          | yes u ↦ elim (String-discrete (string_or_empty (lookup claim id_claims)) "") [
            | no h ↦
                from_token n (string_or_empty_sound _ _ (ground arith) (ground arith))
                  (ground arith)
            | yes t ↦ kept (ground arith)
          ]
        ]
      ]
    ],
    elim (String-discrete fallback "") [ yes e ↦ inl e | no n ↦ inr (λ h. ground arith) ],
  )
