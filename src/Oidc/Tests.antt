-- ===== src/Oidc/Tests.antt =====
-- A provider that knows one token.
use hog.Base.{
  String, true, false, none, some, [], ◌∷◌, Result, ok, err, ◌≡◌, ◌≢◌, ◌⊎◌, refl, ◌==◌,
  if◌then◌else◌, String-discrete,
}
use hog.Base.Dict
use hog.Session.Record.{Tokens, Identity}
use hog.Session.Value.{Value, str}
use hog.Oidc.{
  OidcConfig, OidcIdp, OidcError, Library, IdToken, new_oidc, check_config, bearer_of, or_true,
  or_text, claim_has, identity_from, verify_access_token, exchange,
}
use hog.Oidc.Audience.{Names, verify_access_token-new_oidc, exchange-nonce}

abbrev token : IdToken
token = record { subject = "u"; nonce = "n"; claims = some (("client_id", str "app") ∷ []) }

abbrev library : Library (Unit {0})
library = record {
  discover =
      λ issuer. some (record { end_session = ""; access_token_jwks = ""; signing_algs = [] });
  verify = λ v raw. if raw == "raw" then some token else none;
  exchange = λ code verifier w.
      (some (record { access_token = "a"; refresh_token = ""; expiry = 0; id_token = "raw" }), w);
  refresh = λ t w. (none, w);
  user_info = λ t w. (none, w);
  auth_code_url = λ s n c. "";
  logout_url = λ e h p. none;
}

abbrev config : OidcConfig
config = record {
  issuer = "https://idp";
  client_id = "app";
  client_secret = "s";
  redirect_url = "https://app/auth/callback";
  verification_only = false;
  bearer_audience = "";
  bearer = some (record {
    jwks_url = "";
    audience_claim = "client_id";
    require_audience = none;
    signing_algs = [];
  });
  scopes = [];
  pkce = none;
}

connector_of : Result OidcError OidcIdp → OidcIdp
connector_of (ok o) = o
connector_of (err e) = record {
  verifier = record { issuer = "https://idp"; jwks_url = none; audience = none; signing_algs = [] };
  bearer_verifier = record {
    issuer = "https://idp";
    jwks_url = none;
    audience = none;
    signing_algs = [];
  };
  bearer_aud = "";
  bearer_aud_claim = "";
  bearer_require_aud = true;
  end_session = "";
  pkce = true;
  verify_only = true;
  scopes = [];
}

abbrev connector : OidcIdp
connector = connector_of (new_oidc library config)

made : new_oidc library config ≡ ok connector
unfolding new_oidc check_config String-discrete connector_of
made = refl

abbrev identity : Identity
identity = record { subject = "u"; claims = ("client_id", str "app") ∷ [] }

accepted : verify_access_token library connector "raw" ≡ ok identity
unfolding verify_access_token new_oidc check_config claim_has Dict.lookup String-discrete
    connector_of
accepted = refl

verify_access_token-new_oidc_example :
    (idt : IdToken) × (library.verify connector.bearer_verifier "raw" ≡ some idt)
    × (connector.bearer_verifier.issuer ≡ config.issuer)
    × (identity_from idt ≡ ok identity)
    × ((or_true (bearer_of config.bearer).require_audience ≡ false)
        ⊎ ((connector.bearer_verifier.audience
              ≡ some (or_text config.bearer_audience config.client_id))
            ⊎ ((claim : Value) × (Dict.lookup
                    (bearer_of config.bearer).audience_claim
                    identity.claims
                  ≡ some claim)
                × Names (or_text config.bearer_audience config.client_id) claim)))
verify_access_token-new_oidc_example =
    verify_access_token-new_oidc library config connector "raw" identity made accepted

abbrev tokens : Tokens
tokens = record { id_token = "raw"; access_token = "a"; refresh_token = ""; expiry = 0 }

completed : exchange library connector "code" "verifier" "n" tt ≡ (ok (tokens, identity), tt)
unfolding exchange new_oidc check_config String-discrete connector_of
completed = refl

abbrev nonce : String
nonce = "n"

exchange-nonce_example :
    (connector.verify_only ≡ false)
    × (nonce ≢ "")
    × ((idt : IdToken) × (library.verify connector.verifier "raw" ≡ some idt)
        × (idt.nonce ≡ "n")
        × (identity_from idt ≡ ok identity))
exchange-nonce_example =
    exchange-nonce library connector "code" "verifier" "n" tt tt tokens identity completed
