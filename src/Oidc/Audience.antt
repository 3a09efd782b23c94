-- ===== src/Oidc/Audience.antt =====
-- Whom an accepted token was issued to.
use hog.Base.{
  String, true, false, Option, none, some, List, ok, guard, or_fail, ◌≡◌, refl, ◌≢◌, ◌⊎◌, inl, inr,
  sym, ap, ◌∙◌, arith, ◌==◌, not, ◌&&◌, ◌||◌, if◌then◌else◌, Bool-cases, contains, String-discrete,
  bind-ok, ok-injective,
}
use hog.Base.Dict
use hog.Session.Value.{Value, Items, nil, cons, str, arr, strs, null, bool, num, obj}
use hog.Session.Record.{Tokens, Identity}
use hog.Oidc.{
  OidcConfig, OidcIdp, Library, IdToken, OauthToken, new_oidc, check_config, bearer_verifier_of,
  bearer_of, or_true, or_text, claim_has, items_have, is_text, identity_from, verify_access_token,
  exchange, exchanged, challenge, tokens_of, discovery_failed, claim_never_checked,
  bad_access_token, wrong_audience, no_id_token, bad_id_token, nonce_mismatch,
}

-- an item of a list is the text
pub data HasItem (want : String) : Items → Type 0 where
  here : {vs : Items} → HasItem want (cons (str want) vs)
  there : {v : Value} {vs : Items} → HasItem want vs → HasItem want (cons v vs)

-- A claim is the text, or a list with it.
abbrev pub Names : String → Value → Type 0
Names want claim =
    (claim ≡ str want)
    ⊎ (((vs : Items) × (claim ≡ arr vs) × HasItem want vs)
        ⊎ ((ss : List String) × (claim ≡ strs ss) × (contains ss want ≡ true)))

items_have-HasItem : (vs : Items) (want : String) → items_have vs want ≡ true → HasItem want vs
unfolding items_have is_text
items_have-HasItem nil want h = absurd (ground (arith, h))
items_have-HasItem (cons (str s) vs) want h = elim (String-discrete s want) [
  | yes e ↦ rw (sym e) here
  | no n ↦ there (items_have-HasItem vs want (ground (arith, n, h)))
]
items_have-HasItem (cons null vs) want h = there (items_have-HasItem vs want h)
items_have-HasItem (cons (bool b) vs) want h = there (items_have-HasItem vs want h)
items_have-HasItem (cons (num n) vs) want h = there (items_have-HasItem vs want h)
items_have-HasItem (cons (arr ws) vs) want h = there (items_have-HasItem vs want h)
items_have-HasItem (cons (strs ss) vs) want h = there (items_have-HasItem vs want h)
items_have-HasItem (cons (obj fs) vs) want h = there (items_have-HasItem vs want h)

claim_has-Names :
    (claim : Option Value) (want : String)
    → claim_has claim want ≡ true
    → (v : Value) × (claim ≡ some v) × Names want v
unfolding claim_has
claim_has-Names none want h = absurd (ground (arith, h))
claim_has-Names (some (str s)) want h = (str s, refl, inl (ap str (ground (arith, h))))
claim_has-Names (some (arr vs)) want h =
    (arr vs, refl, inr (inl (vs, refl, items_have-HasItem vs want (ground (arith, h)))))
claim_has-Names (some (strs ss)) want h = (strs ss, refl, inr (inr (ss, refl, ground (arith, h))))
claim_has-Names (some v) want h = absurd (ground (arith, h))

module _ {W : Type 0} (lib : Library W) where
  -- what the configuration makes of the fields that check access tokens
  new_oidc-bearer :
      (cfg : OidcConfig) (o : OidcIdp)
      → new_oidc lib cfg ≡ ok o
      → (o.bearer_verifier.issuer ≡ cfg.issuer)
        × (o.bearer_verifier.audience ≡ (
            if not (or_true (bearer_of cfg.bearer).require_audience)
              || not ((bearer_of cfg.bearer).audience_claim == "")
            then none
            else some (or_text cfg.bearer_audience cfg.client_id)))
        × (o.bearer_aud ≡ or_text cfg.bearer_audience cfg.client_id)
        × (o.bearer_aud_claim ≡ (bearer_of cfg.bearer).audience_claim)
        × (o.bearer_require_aud ≡ or_true (bearer_of cfg.bearer).require_audience)
  unfolding new_oidc bearer_verifier_of
  new_oidc-bearer cfg o e =
      let (u, e1, f1) = bind-ok (check_config cfg) _ o e in
      let (disco, e2, f2) = bind-ok (or_fail (lib.discover cfg.issuer) discovery_failed) _ o f1 in
      let (u', e3, f3) =
        bind-ok
          (guard
            (not (
              not (or_true (bearer_of cfg.bearer).require_audience)
              && not ((bearer_of cfg.bearer).audience_claim == "")))
            claim_never_checked)
          _ o f2 in
      let made = sym (ok-injective _ o f3) in
      (
        ap (λ c. c.bearer_verifier.issuer) made,
        ap (λ c. c.bearer_verifier.audience) made,
        ap (λ c. c.bearer_aud) made,
        ap (λ c. c.bearer_aud_claim) made,
        ap (λ c. c.bearer_require_aud) made,
      )

  verify_access_token-ok :
      (o : OidcIdp) (raw : String) (id : Identity)
      → verify_access_token lib o raw ≡ ok id
      → (idt : IdToken) × (id' : Identity) × (lib.verify o.bearer_verifier raw ≡ some idt)
        × (identity_from idt ≡ ok id')
        × (id' ≡ id)
        × ((not (o.bearer_require_aud && not (o.bearer_aud_claim == ""))
              || claim_has (Dict.lookup o.bearer_aud_claim id'.claims) o.bearer_aud)
            ≡ true)
  unfolding verify_access_token
  verify_access_token-ok o raw id e =
      let (idt, e1, f1) =
        bind-ok (or_fail (lib.verify o.bearer_verifier raw) bad_access_token) _ id e in
      let (id', e2, f2) = bind-ok (identity_from idt) _ id f1 in
      let (u, e3, f3) =
        bind-ok
          (guard
            (not (o.bearer_require_aud && not (o.bearer_aud_claim == ""))
              || claim_has (Dict.lookup o.bearer_aud_claim id'.claims) o.bearer_aud)
            wrong_audience)
          _ id f2 in
      (idt, id', ground (arith, e1), e2, ok-injective _ _ f3, ground (arith, e3))

  -- An access token that a connector of the configuration accepts was verified for the configured issuer, and was issued to
  -- the configured audience: by the aud that the verifier checks, or by the configured claim, which is then there and is
  -- the audience or a list with it; unless the configuration requires none.
  pub verify_access_token-new_oidc :
      (cfg : OidcConfig) (o : OidcIdp) (raw : String) (id : Identity)
      → new_oidc lib cfg ≡ ok o
      → verify_access_token lib o raw ≡ ok id
      → (idt : IdToken) × (lib.verify o.bearer_verifier raw ≡ some idt)
        × (o.bearer_verifier.issuer ≡ cfg.issuer)
        × (identity_from idt ≡ ok id)
        × ((or_true (bearer_of cfg.bearer).require_audience ≡ false)
            ⊎ ((o.bearer_verifier.audience ≡ some (or_text cfg.bearer_audience cfg.client_id))
                ⊎ ((claim : Value) × (Dict.lookup (bearer_of cfg.bearer).audience_claim id.claims
                      ≡ some claim)
                    × Names (or_text cfg.bearer_audience cfg.client_id) claim)))
  verify_access_token-new_oidc cfg o raw id made accepted =
      let (issuer, audience, aud, claim, required) = new_oidc-bearer cfg o made in
      let (idt, id', e1, e2, same, checked) = verify_access_token-ok o raw id accepted in
      (
        idt,
        e1,
        issuer,
        e2 ∙ ap ok same,
        elim (Bool-cases (or_true (bearer_of cfg.bearer).require_audience)) [
          | inr free ↦ inl free
          | inl needed ↦ elim (Bool-cases ((bearer_of cfg.bearer).audience_claim == "")) [
            | inl empty ↦ inr (inl (ground (arith, audience, needed, empty)))
            | inr named ↦
                let here = ap (λ j. claim_has (Dict.lookup j id.claims) o.bearer_aud) claim in
                inr (
                  inr (
                    claim_has-Names _ _
                      (ground (arith, checked, same, here, aud, claim, required, needed, named))))
          ]
        ],
      )

  exchanged-nonce :
      (o : OidcIdp) (nonce : String) (answer : Option OauthToken) (tokens : Tokens) (id : Identity)
      → exchanged lib o nonce answer ≡ ok (tokens, id)
      → (idt : IdToken) × (lib.verify o.verifier tokens.id_token ≡ some idt)
        × (idt.nonce ≡ nonce)
        × (identity_from idt ≡ ok id)
  unfolding exchanged tokens_of
  exchanged-nonce o nonce none tokens id e = absurd (ground (arith, e))
  exchanged-nonce o nonce (some tok) tokens id e =
      let (u, e1, f1) = bind-ok (guard (not (tok.id_token == "")) no_id_token) _ (tokens, id) e in
      let (idt, e2, f2) =
        bind-ok (or_fail (lib.verify o.verifier tok.id_token) bad_id_token) _ (tokens, id) f1 in
      let (u', e3, f3) = bind-ok (guard (idt.nonce == nonce) nonce_mismatch) _ (tokens, id) f2 in
      let (id', e4, f4) = bind-ok (identity_from idt) _ (tokens, id) f3 in
      let made = ok-injective _ (tokens, id) f4 in
      let same : tok.id_token ≡ tokens.id_token = ap (λ p. p.0.id_token) made in
      (
        idt,
        ap (lib.verify o.verifier) (sym same) ∙ ground (arith, e2),
        ground (arith, e3),
        e4 ∙ ap (λ p. ok p.1) made,
      )

  -- A sign-in that a connector completes has an id token that was verified and bears the sign-in's own nonce, which is not
  -- empty, and the connector is not one that only verifies tokens.
  pub exchange-nonce :
      (o : OidcIdp) (code code_verifier nonce : String) (w w' : W) (tokens : Tokens) (id : Identity)
      → exchange lib o code code_verifier nonce w ≡ (ok (tokens, id), w')
      → (o.verify_only ≡ false)
        × (nonce ≢ "")
        × ((idt : IdToken) × (lib.verify o.verifier tokens.id_token ≡ some idt)
            × (idt.nonce ≡ nonce)
            × (identity_from idt ≡ ok id))
  unfolding exchange
  exchange-nonce o code code_verifier nonce w w' tokens id e =
      let answer = ap (λ p. p.0) e in
      let (asked, _) = lib.exchange code (challenge lib o code_verifier) w in
      elim (Bool-cases o.verify_only) [
        | inl v ↦ absurd (ground (arith, v, answer))
        | inr v ↦ elim (Bool-cases (nonce == "")) [
          | inl n ↦ absurd (ground (arith, v, n, answer))
          | inr n ↦ (
            v,
            ground (arith, n),
            exchanged-nonce o nonce asked tokens id (ground (arith, v, n, answer)),
          )
        ]
      ]
