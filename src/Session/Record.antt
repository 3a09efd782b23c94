-- ===== src/Session/Record.antt =====
-- session/session.go, session/fingerprint.go and `makeSession` of session/manager.go. An instant is a
-- number of nanoseconds since Go's zero time.
use Prim.Native.Char.{Char}
use hog.Base.{
  String, ◌<>◌, ℕ, ◌+◌, Bool, true, Option, List, [], ◌∷◌, ltb, ◌==◌, if◌then◌else◌, not,
}
use hog.Base.Dict.{Dict}
use hog.Http.{Request, get}
use hog.Session.Value.{Value}
use hog.Session.Principal.{Principal}
use hog.Session.Passport.{GroupsConfig, project_passport, project_groups, resolve_subject}

-- `idp.Tokens`; an empty refresh token is none
pub record Tokens : Type 0 where
  pub id_token : String
  pub access_token : String
  pub refresh_token : String
  pub expiry : ℕ

-- `idp.Identity`
pub record Identity : Type 0 where
  pub subject : String
  pub claims : Dict Value

-- `Session`
pub record Session : Type 0 where
  pub subject : String
  pub passport : Dict Value
  pub groups : List String
  pub access_token : String
  pub expiry : ℕ
  pub issued_at : ℕ
  pub fingerprint : String
  pub correlation_id : String

-- `session.Config`, as `buildSession` completes it
pub record Config : Type 0 where
  pub cookie_name : String
  pub key : String
  pub ttl : ℕ
  pub fingerprint_headers : List String
  pub passport_claims : List String
  pub groups : Option GroupsConfig
  pub info_path : String
  pub post_logout_redirect : String
  pub subject_claim : String

-- `Session.Expired`
abbrev pub expired : ℕ → Session → Bool
expired now s = ltb s.expiry now

-- `Session.Principal`
abbrev pub principal : Session → Principal
principal s = record {
  subject = s.subject;
  passport = s.passport;
  groups = s.groups;
  access_token = s.access_token;
  session_id = s.correlation_id;
}

fingerprint_text : List String → Request → String
fingerprint_text [] r = ""
fingerprint_text (h ∷ headers) r =
    h <> ("=" <> (get h r.header <> ("\n" <> fingerprint_text headers r)))

-- `computeFingerprint`; `hash` is SHA-256 followed by base64
unfoldable pub compute_fingerprint : (String → String) → List String → Request → String
unfolding fingerprint_text
compute_fingerprint hash headers r = hash (fingerprint_text headers r)

-- `makeSession`
unfoldable pub make_session :
    (Char → Char)
    → (String → String)
    → ℕ
    → Config
    → Identity
    → Dict Value
    → Tokens
    → Request
    → Session
make_session lower hash now cfg idt userinfo tok r = record {
  subject = resolve_subject cfg.subject_claim idt.subject idt.claims userinfo;
  passport = project_passport cfg.passport_claims idt.claims userinfo;
  groups = project_groups lower cfg.groups userinfo idt.claims;
  access_token = tok.access_token;
  expiry = now + cfg.ttl;
  issued_at = now;
  fingerprint = compute_fingerprint hash cfg.fingerprint_headers r;
  correlation_id = "";
}

-- `secureFromRequest`
pub secure_from_request : Request → Bool
secure_from_request r =
    let p = get "X-Forwarded-Proto" r.header in if not (p == "") then p == "https" else true
