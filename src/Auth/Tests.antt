-- ===== src/Auth/Tests.antt =====
-- A bearer token, an assertion, and the identity headers.
use hog.Base.{
  ap, sym, ◌∙◌, String, true, Option, none, some, [], ◌∷◌, ◌≡◌, ◌≢◌, ◌⊎◌, refl, ok, String-discrete,
  arith,
}
use hog.Base.{◌≤◌, ◌*◌, ◌+◌}
use Prim.Native.Nat.{◌/◌}
use hog.Base.Text
use hog.Base.Text.{any_char, StartsWith, size}
use hog.Base.Dict.{lookup}
use text.Mathlib.TextLemmas.{cons≢nil}
use hog.Http.{Request, get}
use hog.Session.Value.{Value}
use hog.Session.Principal.{Principal, Context, empty_context, from_context, with_principal}
use hog.Session.Identity.{IdentityConfig, new_principal, need_user_info_for_token}
use hog.Session.Passport.{resolve_subject, project_passport, project_groups}
use hog.Route.{ProjectionConfig}
use hog.Auth.Bearer.{Verifier, resolve_bearer, IsFromToken, bearer_gate_lem, parse_bearer}
use hog.Auth.Assertion.{
  Jose, AssertionIssuer, AssertionVerifier, asserted, mint, verify, context_after,
}
use hog.Auth.Assertion.Verified.{IsSound, IsVerified, head_of, verify-mint, verify-IsVerified}
use hog.Auth.Projection.{groups_header, apply_projection, canon}
use hog.Auth.Projection.Trusted.{apply_projection-subject}

abbrev request : Request
request = record {
  method = "GET";
  path = "/";
  uri = "/";
  pattern = "";
  host = "x";
  remote_addr = "";
  header = ("Authorization", "Bearer t1" ∷ []) ∷ [];
  cookies = [];
  context = empty_context;
}

abbrev identity_config : IdentityConfig
identity_config = record {
  claims = [];
  groups = none;
  user_info = "never";
  subject_claim = "sub";
  assertion = none;
}

abbrev verifier : Verifier (Unit {0})
verifier = record {
  verify = λ t w. (some (record { subject = "alice"; claims = [] }), w);
  user_info = λ t w. (none, w);
}

abbrev alice : Principal
alice = record {
  subject = "alice";
  passport = [];
  groups = [];
  access_token = "t1";
  session_id = "";
}

by_token :
    from_context (resolve_bearer Text.lower_char verifier identity_config request tt).0.context
    ≡ some alice
unfolding from_context resolve_bearer new_principal parse_bearer get Text.canonical Text.equal_fold
    Text.split_at Text.trim_space resolve_subject project_passport project_groups lookup
    need_user_info_for_token String-discrete
by_token = refl

bearer_gate_lem_example :
    (from_context empty_context ≡ some alice)
    ⊎ ((from_context empty_context ≡ none)
        × IsFromToken Text.lower_char verifier identity_config request tt alice)
bearer_gate_lem_example =
    bearer_gate_lem Text.lower_char verifier identity_config request tt alice by_token

abbrev issuer : AssertionIssuer
issuer = record { name = "gw"; kid = "k1"; seed = "seed"; ttl = 60000000000 }

abbrev jose : Jose
jose = record {
  encode = λ s. s;
  decode = λ s. some s;
  marshal_header = λ h. "h";
  unmarshal_header = λ t. some (head_of issuer);
  marshal = λ a. "p";
  unmarshal = λ t. some (record {
    issuer = "gw";
    subject = "alice";
    issued_at = 100;
    expires_at = 160;
    passport = [];
    groups = [];
  });
  public_key = λ s. "0123456789abcdef0123456789abcdef";
  sign = λ s t. "s";
  verify_signature = λ k t s. true;
}

abbrev peer : AssertionVerifier
peer = record { issuer = "gw"; keys = ("k1", "0123456789abcdef0123456789abcdef") ∷ [] }

jose-IsSound : IsSound jose issuer 100900000000 alice
jose-IsSound = record {
  head_encoded = (refl, refl);
  head_read = refl;
  payload_encoded = (refl, refl);
  payload_read = refl;
  signature_encoded = (refl, refl);
  verify-sign = refl;
}

known : lookup "k1" peer.keys ≡ some "0123456789abcdef0123456789abcdef"
unfolding lookup String-discrete
known = refl

minted_verifies :
    verify jose peer 120000000000 (mint jose issuer 100900000000 alice)
    ≡ ok (asserted jose issuer 100900000000 alice)
minted_verifies =
    verify-mint jose issuer peer alice 100900000000 120000000000 jose-IsSound refl known refl
      (λ e. cons≢nil e) (omega arith) (omega arith) (omega arith) (omega arith) (omega arith)

verify-IsVerified_example :
    IsVerified jose peer 120000000000
      (mint jose issuer 100900000000 alice)
      (asserted jose issuer 100900000000 alice)
    × (120000000000 ≤ (160 + 30) * 1000000000)
    × (100 ≤ 120000000000 / 1000000000 + 30)
verify-IsVerified_example =
    verify-IsVerified jose peer 120000000000 (mint jose issuer 100900000000 alice)
      (asserted jose issuer 100900000000 alice) (omega arith) (omega arith) (omega arith)
      minted_verifies

abbrev bearer_context : Context
bearer_context = with_principal empty_context (some alice)

kept_alice : from_context (context_after jose peer 120000000000 true "" bearer_context) ≡ some alice
unfolding from_context context_after String-discrete
kept_alice = refl

abbrev sprint : Value → String
sprint v = ""

anonymous : from_context empty_context ≡ none
unfolding from_context
anonymous = refl

abbrev no_config : Option (ProjectionConfig (Unit {0}))
no_config = none

usual_header : Text.canonical (groups_header none "groups") ≡ "X-User-Groups"
unfolding groups_header canon Text.canonical Text.to_lower Text.join String-discrete
usual_header = refl

other_header : Text.canonical (groups_header none "groups") ≢ "X-User-Id"
other_header e = absurd (omega (arith, ap size (sym usual_header ∙ e)))

apply_projection-subject_example :
    get "X-User-Id"
      (apply_projection sprint alice none "groups" (("X-User-Id", "mallory" ∷ []) ∷ []))
    ≡ "alice"
apply_projection-subject_example =
    apply_projection-subject sprint alice none "groups" (("X-User-Id", "mallory" ∷ []) ∷ [])
      other_header refl
