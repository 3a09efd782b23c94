-- ===== src/Session/Settings.antt =====
-- session/config.go and session/stateconfig.go: the gateway's session and state provider blocks. YAML and
-- time.ParseDuration are parameters; a duration is its sign and its nanoseconds.
mod Tests
use hog.Base.{
  String, ℕ, Bool, true, false, Option, none, some, List, [], ◌∷◌, Result, ok, err, guard, or_fail,
  ◌>>◌, ◌>>=◌, ◌==◌, not, ◌&&◌, ◌||◌, eqb, if◌then◌else◌, ◌≡◌, arith, ◌*◌,
}
use hog.Session.Passport.{GroupsConfig}
use hog.Session.Identity.{IdentityConfig, or_default}
use hog.Session.Record.{Config}

-- a `time.Duration`
pub record Duration : Type 0 where
  pub negative : Bool
  pub nanoseconds : ℕ

abbrev pub seconds : ℕ → Duration
seconds n = record { negative = false; nanoseconds = n * 1000000000 }

-- `rawConfig`, with the number of the key's bytes
pub record RawConfig : Type 0 where
  pub cookie_name : String
  pub key : String
  pub key_bytes : ℕ
  pub ttl : String
  pub fingerprint_headers : List String
  pub info_path : String
  pub post_logout_redirect : String

-- what `FromYAML` gives of a `Config`
pub record Settings : Type 0 where
  pub cookie_name : String
  pub key : String
  pub ttl : Duration
  pub fingerprint_headers : List String
  pub info_path : String
  pub post_logout_redirect : String

pub data SettingsError : Type 0 where
  bad_key_size bad_ttl type_required bad_skew negative_skew : SettingsError

abbrev or_user_agent : List String → List String
or_user_agent [] = "User-Agent" ∷ []
or_user_agent (h ∷ hs) = h ∷ hs

-- `rawStateProvider`
pub record RawStateProvider (Node : Type 0) : Type 0 where
  pub type : String
  pub refresh_skew : String
  pub key_prefix : String
  pub config : Node

-- `StateProviderConfig`
pub record StateProviderConfig (Node : Type 0) : Type 0 where
  pub type : String
  pub refresh_skew : Duration
  pub key_prefix : String
  pub config : Node

abbrev below_zero : Duration → Bool
below_zero d = d.negative && not (eqb d.nanoseconds 0)

module _ (parse_duration : String → Option Duration) where
  or_parse : Duration → SettingsError → String → Result SettingsError Duration
  or_parse default e s = if s == "" then ok default else or_fail (parse_duration s) e

  -- `FromYAML`, of the decoded block
  pub from_yaml : RawConfig → Result SettingsError Settings
  unfolding or_parse
  from_yaml raw =
      guard (eqb raw.key_bytes 32) bad_key_size
      >> (or_parse (seconds 28800) bad_ttl raw.ttl >>= λ ttl. ok (record {
        cookie_name = or_default raw.cookie_name "hog_session";
        key = raw.key;
        ttl = ttl;
        fingerprint_headers = or_user_agent raw.fingerprint_headers;
        info_path = or_default raw.info_path "/auth/session";
        post_logout_redirect = or_default raw.post_logout_redirect "/";
      }))

  -- `ParseStateProvider`, of the decoded block
  unfoldable pub parse_state_provider :
      {Node : Type 0} → RawStateProvider Node → Result SettingsError (StateProviderConfig Node)
  unfolding or_parse
  parse_state_provider raw =
      guard (not (raw.type == "")) type_required
      >> (or_parse (seconds 60) bad_skew raw.refresh_skew >>= λ skew.
          guard (not (below_zero skew)) negative_skew
          >> ok (record {
            type = raw.type;
            refresh_skew = skew;
            key_prefix = or_default raw.key_prefix "hog:sess:";
            config = raw.config;
          }))

-- what `NewStateManager` keeps of its last two arguments
unfoldable pub effective_skew : Duration → Duration
effective_skew d = if d.negative || eqb d.nanoseconds 0 then seconds 60 else d

abbrev pub effective_prefix : String → String
effective_prefix prefix = or_default prefix "hog:sess:"

-- A refresh skew that the configuration sets is the manager's, unless it is zero: then it is a minute.
pub parse_state_provider-effective_skew :
    {Node : Type 0} (parse_duration : String → Option Duration) (raw : RawStateProvider Node)
    (cfg : StateProviderConfig Node) (d : Duration)
    → parse_duration raw.refresh_skew ≡ some d
    → (raw.refresh_skew == "") ≡ false
    → parse_state_provider parse_duration raw ≡ ok cfg
    → effective_skew cfg.refresh_skew ≡ (if eqb d.nanoseconds 0 then seconds 60 else d)
unfolding parse_state_provider or_parse effective_skew
parse_state_provider-effective_skew parse_duration raw cfg d e f g = ground (arith, e, f, g)
