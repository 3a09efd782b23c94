-- ===== src/Auth/Bearer.antt =====
-- auth/bearer.go: the access token of an Authorization header as a principal. The verifier is a
-- parameter, over the state that it may change.
use Prim.Native.Char.{Char}
use hog.Base.{
  String, ◌<>◌, true, Option, none, some, not, ◌&&◌, ◌||◌, ◌==◌, if◌then◌else◌, ltb, is_some,
}
use hog.Base.{
  ◌≡◌, ◌≢◌, ◌⊎◌, inl, inr, refl, ap, sym, ◌∙◌, arith, String-discrete, Option-cases, Bool-cases, [],
}
use hog.Base.Text
use hog.Base.Text.{size, split_at_join}
use hog.Base.Dict.{Dict}
use hog.Http.{Request, with_context, get}
use hog.Session.Value.{Value}
use hog.Session.Principal.{Principal, with_principal, from_context}
use hog.Session.Record.{Identity}
use hog.Session.Identity.{IdentityConfig, new_principal, need_user_info_for_token}
use hog.Chain.{Middleware}

-- `BearerVerifier`; an error, or a nil identity, is none
pub record Verifier (World : Type 0) : Type 0 where
  pub verify : String → World → Option Identity × World
  pub user_info : String → World → Option (Dict Value) × World

abbrev pub with_bearer_error : Request → Request
with_bearer_error r = with_context (record r.context { bearer_error = true }) r

-- `parseBearer`; the header is ASCII
unfoldable pub parse_bearer : String → Option String
parse_bearer h =
    if ltb (size h) 7 || not (Text.equal_fold (Text.split_at 7 h).0 "bearer ")
    then none
    else (let token = Text.trim_space (Text.split_at 7 h).1 in
        if token == "" then none else some token)

abbrev or_empty : Option (Dict Value) → Dict Value
or_empty none = []
or_empty (some d) = d

module _ {World : Type 0} (lower : Char → Char) (v : Verifier World) (cfg : IdentityConfig) where
  -- the userinfo that the token still needs; a failure leaves it empty
  fetch_user_info : Identity → String → World → Dict Value × World
  fetch_user_info id token w =
      if need_user_info_for_token cfg id.claims
      then (let (info, w') = v.user_info token w in (or_empty info, w'))
      else ([], w)

  -- the request with the token's principal, or marked as one with an invalid token
  identified : Identity → String → Request → Dict Value × World → Request × World
  identified id token r (info, w) =
      let p = new_principal lower id.subject id.claims info token cfg in
      (
        if p.subject == ""
            then with_bearer_error r
            else with_context (with_principal r.context (some p)) r,
        w,
      )

  authenticate : String → Request → Option Identity × World → Request × World
  unfolding identified fetch_user_info
  authenticate token r (none, w) = (with_bearer_error r, w)
  authenticate token r (some id, w) =
      if (cfg.subject_claim == "" || cfg.subject_claim == "sub") && id.subject == ""
      then (with_bearer_error r, w)
      else identified id token r (fetch_user_info id token w)

  -- what the gate makes of the request
  unfoldable pub resolve_bearer : Request → World → Request × World
  unfolding authenticate parse_bearer
  resolve_bearer r w =
      if is_some (from_context r.context)
      then (r, w)
      else elim (parse_bearer (get "Authorization" r.header)) [
        | none ↦ (r, w)
        | some token ↦ authenticate token r (v.verify token w)
      ]

  -- `BearerGate`
  unfoldable pub bearer_gate : Middleware World
  unfolding resolve_bearer
  bearer_gate next r x = let (r', w) = resolve_bearer r x.world in next r' (record x { world = w })

  -- The header is the scheme Bearer, in any case, and a token that is not empty, with spaces around it.
  abbrev pub Carries : String → String → Type 0
  Carries h token =
      (scheme : String) × (rest : String) × (h ≡ scheme <> rest)
      × (Text.equal_fold scheme "bearer " ≡ true)
      × (token ≡ Text.trim_space rest)
      × (token ≢ "")

  parse_bearer-Carries : (h token : String) → parse_bearer h ≡ some token → Carries h token
  unfolding parse_bearer
  parse_bearer-Carries h token e = (
    (Text.split_at 7 h).0,
    (Text.split_at 7 h).1,
    sym (split_at_join 7 h),
    ground (arith, e),
    ground (arith, e),
    ground (arith, e),
  )

  -- what the provider's userinfo adds: nothing, where the token's claims are enough or the provider fails
  abbrev pub info_of : Identity → String → World → Dict Value
  info_of id token w =
      if need_user_info_for_token cfg id.claims
      then or_empty (v.user_info token (v.verify token w).1).0
      else []

  -- The principal is made of a token that the header carries and the verifier accepts, of that token's identity and of the
  -- userinfo that the provider gives for it, where that is needed, and has a subject.
  abbrev pub IsFromToken : Request → World → Principal → Type 0
  IsFromToken r w p =
      (token : String) × (id : Identity) × Carries (get "Authorization" r.header) token
      × ((v.verify token w).0 ≡ some id)
      × (p ≡ new_principal lower id.subject id.claims (info_of id token w) token cfg)
      × (p.subject ≢ "")

  identified-lem :
      (id : Identity) (token : String) (r : Request) (info : Dict Value) (w : World) (p : Principal)
      → from_context r.context ≡ none
      → from_context (identified id token r (info, w)).0.context ≡ some p
      → (p ≡ new_principal lower id.subject id.claims info token cfg) × (p.subject ≢ "")
  unfolding identified from_context
  identified-lem id token r info w p before h =
      elim (String-discrete (new_principal lower id.subject id.claims info token cfg).subject "") [
        | yes e ↦ absurd (ground (arith, before, h, e))
        | no n ↦
            let same : new_principal lower id.subject id.claims info token cfg ≡ p =
              ground (arith, h, n) in
            (sym same, λ e. n (ap (λ q. q.subject) same ∙ e))
      ]

  authenticate-lem :
      (token : String) (r : Request) (answer : Option Identity × World) (p : Principal)
      → from_context r.context ≡ none
      → from_context (authenticate token r answer).0.context ≡ some p
      → (id : Identity) × (answer.0 ≡ some id)
        × (p
            ≡ new_principal lower id.subject id.claims
                (fetch_user_info id token answer.1).0
                token
                cfg)
        × (p.subject ≢ "")
  unfolding authenticate identified from_context
  authenticate-lem token r (none, w) p before h = absurd (ground (arith, before, h))
  authenticate-lem token r (some id, w) p before h =
      let (info, w') = fetch_user_info id token w in
      elim (Bool-cases
        ((cfg.subject_claim == "" || cfg.subject_claim == "sub") && id.subject == "")) [
          | inl e ↦ absurd (ground (arith, before, h, e))
          | inr e ↦
              let (made, named) =
                identified-lem id token r info w' p before (ground (arith, e, h)) in
              (id, refl, made, named)
        ]

  fetched :
      (id : Identity) (token : String) (w' w : World)
      → w' ≡ (v.verify token w).1
      → (fetch_user_info id token w').0 ≡ info_of id token w
  unfolding fetch_user_info
  fetched id token w' w e = rw e (ground arith)

  -- A principal behind the gate was there before and is kept, or is made of a token that the Authorization header carries
  -- and the verifier accepts: of the token's subject and claims, and of the userinfo that the provider gives for that very
  -- token where the claims are not enough; and it has a subject.
  pub bearer_gate_lem :
      (r : Request) (w : World) (p : Principal)
      → from_context (resolve_bearer r w).0.context ≡ some p
      → (from_context r.context ≡ some p) ⊎ ((from_context r.context ≡ none) × IsFromToken r w p)
  unfolding resolve_bearer
  bearer_gate_lem r w p h = elim (Option-cases (from_context r.context)) [
    | inr (q, e) ↦ inl (ground (arith, e, h))
    | inl e ↦ elim (Option-cases (parse_bearer (get "Authorization" r.header))) [
      | inl f ↦ absurd (ground (arith, e, f, h))
      | inr (token, f) ↦
          let (id, accepted, made, named) =
            authenticate-lem token r (v.verify token w) p e (ground (arith, e, f, h)) in
          inr (
            e,
            (
              token,
              id,
              parse_bearer-Carries _ token f,
              accepted,
              made
                  ∙ ap (λ i. new_principal lower id.subject id.claims i token cfg)
                      (fetched id token (v.verify token w).1 w refl),
              named,
            ),
          )
    ]
  ]
