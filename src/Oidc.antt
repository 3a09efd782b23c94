-- ===== src/Oidc.antt =====
-- idp/oidc.go: the connector of an OpenID Connect provider. go-oidc and oauth2 are parameters: discovery, the
-- verification of a token, and the calls of the provider's endpoints.
pub mod Audience
mod Tests
use hog.Base.{
  String, ℕ, Bool, true, false, Option, none, some, List, [], ◌∷◌, Result, ok, err, guard, or_fail,
  ◌>>◌, ◌>>=◌, ◌==◌, not, ◌&&◌, ◌||◌, if◌then◌else◌, is_some, contains,
}
use hog.Base.Dict
use hog.Base.Dict.{Dict}
use hog.Session.Value.{Value, Items, nil, cons, str, arr, strs}
use hog.Session.Record.{Tokens, Identity}

-- `bearerConfig`
pub record BearerConfig : Type 0 where
  pub jwks_url : String
  pub audience_claim : String
  pub require_audience : Option Bool
  pub signing_algs : List String

-- `oidcConfig`
pub record OidcConfig : Type 0 where
  pub issuer : String
  pub client_id : String
  pub client_secret : String
  pub redirect_url : String
  pub verification_only : Bool
  pub bearer_audience : String
  pub bearer : Option BearerConfig
  pub scopes : List String
  pub pkce : Option Bool

-- an `oidc.IDTokenVerifier`: the issuer, the key set, none for the provider's, the audience, none where it is not checked, and the
-- algorithms, none for the provider's
pub record TokenVerifier : Type 0 where
  pub issuer : String
  pub jwks_url : Option String
  pub audience : Option String
  pub signing_algs : List String

-- an `oidc.IDToken`; `claims` is none where they do not parse
pub record IdToken : Type 0 where
  pub subject : String
  pub nonce : String
  pub claims : Option (Dict Value)

-- an `oauth2.Token`, with its id_token, "" without one
pub record OauthToken : Type 0 where
  pub access_token : String
  pub refresh_token : String
  pub expiry : ℕ
  pub id_token : String

-- the discovery document's optional fields
pub record Discovery : Type 0 where
  pub end_session : String
  pub access_token_jwks : String
  pub signing_algs : List String

-- go-oidc and oauth2, over the state `W` of the provider; a code verifier is none without PKCE
pub record Library (W : Type 0) : Type 0 where
  pub discover : String → Option Discovery
  pub verify : TokenVerifier → String → Option IdToken
  pub exchange : String → Option String → W → Option OauthToken × W
  pub refresh : String → W → Option OauthToken × W
  pub user_info : String → W → Option (Dict Value) × W
  pub auth_code_url : String → String → Option String → String
  pub logout_url : String → String → String → Option String

-- `oidcIdP`
pub record OidcIdp : Type 0 where
  pub verifier : TokenVerifier
  pub bearer_verifier : TokenVerifier
  pub bearer_aud : String
  pub bearer_aud_claim : String
  pub bearer_require_aud : Bool
  pub end_session : String
  pub pkce : Bool
  pub verify_only : Bool
  pub scopes : List String

pub data OidcError : Type 0 where
  incomplete_config unused_credentials discovery_failed claim_never_checked : OidcError
  verification_only empty_nonce exchange_failed no_id_token bad_id_token nonce_mismatch bad_claims :
      OidcError
  bad_access_token wrong_audience refresh_failed user_info_failed : OidcError

abbrev pub or_text : String → String → String
or_text s default = if s == "" then default else s

abbrev or_list : List String → List String → List String
or_list [] default = default
or_list (x ∷ xs) default = x ∷ xs

abbrev or_true : Option Bool → Bool
or_true none = true
or_true (some b) = b

abbrev no_bearer : BearerConfig
no_bearer = record {
  jwks_url = "";
  audience_claim = "";
  require_audience = none;
  signing_algs = [];
}

abbrev pub bearer_of : Option BearerConfig → BearerConfig
bearer_of none = no_bearer
bearer_of (some b) = b

-- the checks of `newOIDC`
unfoldable pub check_config : OidcConfig → Result OidcError (Unit {0})
check_config cfg =
    if cfg.verification_only
    then guard (not (cfg.issuer == "" || cfg.client_id == "")) incomplete_config
      >> guard (not (not (cfg.client_secret == "") || not (cfg.redirect_url == "")))
          unused_credentials
    else guard
        (not (
          cfg.issuer == ""
          || cfg.client_id == ""
          || cfg.client_secret == ""
          || cfg.redirect_url == ""))
        incomplete_config

-- the verifier of access tokens
unfoldable pub bearer_verifier_of : OidcConfig → Discovery → TokenVerifier
bearer_verifier_of cfg disco =
    let bearer = bearer_of cfg.bearer in
    let jwks = or_text bearer.jwks_url disco.access_token_jwks in
    record {
      issuer = cfg.issuer;
      jwks_url = if jwks == "" then none else some jwks;
      audience =
          if not (or_true bearer.require_audience) || not (bearer.audience_claim == "")
          then none
          else some (or_text cfg.bearer_audience cfg.client_id);
      signing_algs = or_list bearer.signing_algs disco.signing_algs;
    }

module _ {W : Type 0} (lib : Library W) where
  -- `newOIDC`
  unfoldable pub new_oidc : OidcConfig → Result OidcError OidcIdp
  unfolding check_config bearer_verifier_of
  new_oidc cfg =
      check_config cfg
      >> (or_fail (lib.discover cfg.issuer) discovery_failed >>= λ disco.
          guard
            (not (
              not (or_true (bearer_of cfg.bearer).require_audience)
              && not ((bearer_of cfg.bearer).audience_claim == "")))
            claim_never_checked
          >> ok (record {
            verifier = record {
              issuer = cfg.issuer;
              jwks_url = none;
              audience = some cfg.client_id;
              signing_algs = [];
            };
            bearer_verifier = bearer_verifier_of cfg disco;
            bearer_aud = or_text cfg.bearer_audience cfg.client_id;
            bearer_aud_claim = (bearer_of cfg.bearer).audience_claim;
            bearer_require_aud = or_true (bearer_of cfg.bearer).require_audience;
            end_session = disco.end_session;
            pkce = or_true cfg.pkce;
            verify_only = cfg.verification_only;
            scopes = or_list cfg.scopes ("openid" ∷ "profile" ∷ "email" ∷ []);
          }))

pub is_text : Value → String → Bool
is_text (str s) want = s == want
is_text _ want = false

pub items_have : Items → String → Bool
unfolding is_text
items_have nil want = false
items_have (cons v vs) want = let rest = items_have vs want in is_text v want || rest

-- `claimHas`; a missing claim is none
unfoldable pub claim_has : Option Value → String → Bool
unfolding items_have
claim_has none want = false
claim_has (some (str s)) want = s == want
claim_has (some (arr vs)) want = items_have vs want
claim_has (some (strs ss)) want = contains ss want
claim_has (some _) want = false

-- `identityFrom`
pub identity_from : IdToken → Result OidcError Identity
identity_from idt = or_fail idt.claims bad_claims >>= λ claims.
    ok (record { subject = idt.subject; claims = claims })

tokens_of : OauthToken → Tokens
tokens_of t = record {
  id_token = t.id_token;
  access_token = t.access_token;
  refresh_token = t.refresh_token;
  expiry = t.expiry;
}

module _ {W : Type 0} (lib : Library W) (o : OidcIdp) where
  challenge : String → Option String
  challenge code_verifier = if o.pkce then some code_verifier else none

  -- `AuthCodeURL`, none where it panics
  pub auth_code_url : String → String → String → Option String
  unfolding challenge
  auth_code_url state nonce code_verifier =
      if o.verify_only then none else some (lib.auth_code_url state nonce (challenge code_verifier))

  -- what `Exchange` checks of the provider's answer
  exchanged : String → Option OauthToken → Result OidcError (Tokens × Identity)
  unfolding identity_from tokens_of
  exchanged nonce answer = or_fail answer exchange_failed >>= λ tok.
      guard (not (tok.id_token == "")) no_id_token
      >> (or_fail (lib.verify o.verifier tok.id_token) bad_id_token >>= λ idt.
          guard (idt.nonce == nonce) nonce_mismatch
          >> (identity_from idt >>= λ id. ok (tokens_of tok, id)))

  -- `Exchange`
  unfoldable pub exchange : String → String → String → W → Result OidcError (Tokens × Identity) × W
  unfolding exchanged challenge
  exchange code code_verifier nonce w =
      let (answer, w') = lib.exchange code (challenge code_verifier) w in
      if o.verify_only
      then (err verification_only, w)
      else if nonce == ""
      then (err empty_nonce, w)
      else (exchanged nonce answer, w')

  refreshed : Option OauthToken → Result OidcError Tokens
  unfolding tokens_of
  refreshed answer = or_fail answer refresh_failed >>= λ tok.
      guard (tok.id_token == "" || is_some (lib.verify o.verifier tok.id_token)) bad_id_token
      >> ok (tokens_of tok)

  -- `Refresh`
  unfoldable pub refresh : String → W → Result OidcError Tokens × W
  unfolding refreshed
  refresh refresh_token w =
      let (answer, w') = lib.refresh refresh_token w in
      if o.verify_only then (err verification_only, w) else (refreshed answer, w')

  -- `Verify`
  pub verify : String → Result OidcError Identity
  verify raw = or_fail (lib.verify o.verifier raw) bad_id_token >>= identity_from

  -- `VerifyAccessToken`
  unfoldable pub verify_access_token : String → Result OidcError Identity
  unfolding identity_from
  verify_access_token raw = or_fail (lib.verify o.bearer_verifier raw) bad_access_token >>= λ idt.
      identity_from idt >>= λ id.
      guard
        (not (o.bearer_require_aud && not (o.bearer_aud_claim == ""))
          || claim_has (Dict.lookup o.bearer_aud_claim id.claims) o.bearer_aud)
        wrong_audience
      >> ok id

  -- `LogoutURL`
  pub logout_url : String → String → Option String
  logout_url id_token_hint post_logout_redirect =
      if o.verify_only || o.end_session == ""
      then none
      else lib.logout_url o.end_session id_token_hint post_logout_redirect

  -- `UserInfo`
  pub user_info : String → W → Result OidcError (Dict Value) × W
  user_info access_token w =
      let (answer, w') = lib.user_info access_token w in (or_fail answer user_info_failed, w')
