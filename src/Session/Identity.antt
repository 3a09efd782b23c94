-- ===== src/Session/Identity.antt =====
-- session/identity.go: the identity model that cookie sessions and bearer tokens share. Decoding the
-- YAML block and base64 are parameters.
pub mod Configured
mod Tests
use Prim.Native.Char.{Char}
use hog.Base.{
  String, ℕ, Bool, true, false, Option, none, some, List, [], ◌∷◌, not, ◌&&◌, ◌||◌, ◌==◌,
  if◌then◌else◌, is_some, any, eqb,
}
use hog.Base.{Result, ok, ◌>>=◌, ◌>>◌, guard, or_fail}
use hog.Base.Text.{size}
use hog.Base.Dict.{Dict, lookup, insert}
use hog.Session.Value.{Value, string_or_empty}
use hog.Session.Principal.{Principal}
use hog.Session.Passport.{GroupsConfig, project_passport, project_groups, resolve_subject}

-- `AssertionIssueConfig`; the ttl is in nanoseconds
pub record AssertionIssueConfig : Type 0 where
  pub name : String
  pub key_id : String
  pub seed : String
  pub ttl : ℕ
  pub header : String

-- `AssertionAcceptConfig`
pub record AssertionAcceptConfig : Type 0 where
  pub issuer : String
  pub header : String
  pub keys : Dict String
  pub require_bearer : Bool

-- `AssertionConfig`
pub record AssertionConfig : Type 0 where
  pub issue : Option AssertionIssueConfig
  pub accept : Option AssertionAcceptConfig

-- `IdentityConfig`
pub record IdentityConfig : Type 0 where
  pub claims : List String
  pub groups : Option GroupsConfig
  pub user_info : String
  pub subject_claim : String
  pub assertion : Option AssertionConfig

-- the parts of `rawIdentity`
pub record RawIssue : Type 0 where
  pub name : String
  pub key_id : String
  pub key : String
  pub ttl : String
  pub header : String

pub record RawAccept : Type 0 where
  pub issuer : String
  pub header : String
  pub require_bearer : Option Bool
  pub keys : List (String × String)  -- keyId, publicKey

pub record RawAssertion : Type 0 where
  pub issue : Option RawIssue
  pub accept : Option RawAccept

pub record RawIdentity : Type 0 where
  pub claims : Option (List String)
  pub groups : Option GroupsConfig
  pub user_info : String
  pub subject_claim : String
  pub assertion : Option RawAssertion

-- why `ParseIdentity` fails
pub data IdentityError : Type 0 where
  bad_user_info bad_render empty_assertion : IdentityError
  issue_name issue_key_id issue_key issue_bad_key issue_bad_ttl : IdentityError
  accept_issuer accept_no_keys key_without_id duplicate_key accept_bad_key : IdentityError

-- Base64 in its two forms, and `time.ParseDuration`, none for an error and for what is not positive.
pub record Decoders : Type 0 where
  pub std_base64 : String → Option String
  pub raw_url_base64 : String → Option String
  pub positive_duration : String → Option ℕ

-- `orDefault`
abbrev pub or_default : String → String → String
or_default v def = if v == "" then def else v

abbrev pub default_header : String
default_header = "X-Hog-Identity"

module _ (d : Decoders) where
  sized : ℕ → Option String → Option String
  sized n none = none
  sized n (some b) = if eqb (size b) n then some b else none

  -- `decodeKey`; an error is none
  unfoldable pub decode_key : String → ℕ → Option String
  unfolding sized
  decode_key s n = sized n (elim (d.std_base64 s) [ some b ↦ some b | none ↦ d.raw_url_base64 s ])

  parse_issue : RawIssue → Result IdentityError AssertionIssueConfig
  unfolding decode_key
  parse_issue iss = do
    guard (not (iss.name == "")) issue_name
    guard (not (iss.key_id == "")) issue_key_id
    guard (not (iss.key == "")) issue_key
    seed ← or_fail (decode_key iss.key 32) issue_bad_key
    ttl ←
        if iss.ttl == ""
        then ok 60000000000
        else or_fail (d.positive_duration iss.ttl) issue_bad_ttl
    ok (record {
      name = iss.name;
      key_id = iss.key_id;
      seed = seed;
      ttl = ttl;
      header = or_default iss.header default_header;
    })

  -- the loop over the keys
  keys_loop : Dict String → List (String × String) → Result IdentityError (Dict String)
  unfolding decode_key
  keys_loop keys [] = ok keys
  keys_loop keys ((id, public) ∷ rest) = do
    guard (not (id == "")) key_without_id
    guard (not (is_some (lookup id keys))) duplicate_key
    key ← or_fail (decode_key public 32) accept_bad_key
    keys_loop (insert id key keys) rest

  pub parse_accept : RawAccept → Result IdentityError AssertionAcceptConfig
  unfolding keys_loop
  parse_accept acc = do
    guard (not (acc.issuer == "")) accept_issuer
    guard (elim acc.keys [ [] ↦ false | _ ∷ _ ↦ true ]) accept_no_keys
    keys ← keys_loop [] acc.keys
    ok (record {
      issuer = acc.issuer;
      header = or_default acc.header default_header;
      keys = keys;
      require_bearer = elim acc.require_bearer [ none ↦ true | some b ↦ b ];
    })

  optional :
      {A B : Type 0} → (A → Result IdentityError B) → Option A → Result IdentityError (Option B)
  optional f none = ok none
  optional f (some a) = do b ← f a; ok (some b)

  -- `parseAssertion`
  unfoldable pub parse_assertion : RawAssertion → Result IdentityError AssertionConfig
  unfolding optional parse_issue parse_accept
  parse_assertion raw = do
    guard (is_some raw.issue || is_some raw.accept) empty_assertion
    issue ← optional parse_issue raw.issue
    accept ← optional parse_accept raw.accept
    ok (record { issue = issue; accept = accept })

  parse_groups : GroupsConfig → Result IdentityError GroupsConfig
  parse_groups raw = do
    let g : GroupsConfig = record raw {
      render = or_default raw.render "cn";
      as_name = or_default raw.as_name "groups";
    }
    guard (g.render == "cn" || g.render == "dn") bad_render
    ok g

  -- `ParseIdentity`, of the decoded block
  unfoldable pub parse_identity : List String → RawIdentity → Result IdentityError IdentityConfig
  unfolding optional parse_groups parse_assertion
  parse_identity default_claims raw = do
    let user_info = or_default raw.user_info "auto"
    guard (user_info == "auto" || user_info == "always" || user_info == "never") bad_user_info
    groups ← optional parse_groups raw.groups
    assertion ← optional parse_assertion raw.assertion
    ok (record {
      claims = elim raw.claims [ none ↦ default_claims | some cs ↦ cs ];
      groups = groups;
      user_info = user_info;
      subject_claim = or_default raw.subject_claim "sub";
      assertion = assertion;
    })

-- `NewPrincipal`
unfoldable pub new_principal :
    (Char → Char) → String → Dict Value → Dict Value → String → IdentityConfig → Principal
new_principal lower sub claims userinfo token cfg = record {
  subject = resolve_subject cfg.subject_claim sub claims userinfo;
  passport = project_passport cfg.claims claims userinfo;
  groups = project_groups lower cfg.groups userinfo claims;
  access_token = token;
  session_id = "";
}

lacks_groups : Option GroupsConfig → Dict Value → Bool
lacks_groups none claims = false
lacks_groups (some g) claims = not (is_some (lookup g.source claims))

-- `NeedUserInfoForToken`
unfoldable pub need_user_info_for_token : IdentityConfig → Dict Value → Bool
unfolding lacks_groups
need_user_info_for_token cfg claims =
    if cfg.user_info == "always"
    then true
    else if cfg.user_info == "never"
    then false
    else not (cfg.subject_claim == "")
        && not (cfg.subject_claim == "sub")
        && string_or_empty (lookup cfg.subject_claim claims) == ""
      || lacks_groups cfg.groups claims
      || any (λ c. not (is_some (lookup c claims))) cfg.claims
