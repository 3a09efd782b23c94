-- ===== src/Session/Identity/Tests.antt =====
-- A block of accepted assertions, and a token that carries what is configured.
use hog.Base.{
  String, true, false, none, some, [], ◌∷◌, ok, contains, ◌≡◌, ◌≢◌, refl, ap, arith,
  String-discrete,
}
use hog.Base.Text.{size}
use hog.Base.Dict.{Dict, lookup, insert}
use hog.Session.Value.{Value, str}
use hog.Session.Identity.{
  IdentityConfig, Decoders, AssertionAcceptConfig, RawAccept, parse_accept, keys_loop, decode_key,
  need_user_info_for_token,
}

abbrev decoders : Decoders
decoders = record {
  std_base64 = λ s. some s;
  raw_url_base64 = λ s. none;
  positive_duration = λ s. none;
}

abbrev key : String
key = "0123456789abcdef0123456789abcdef"

abbrev raw : RawAccept
raw = record { issuer = "gw"; header = ""; require_bearer = none; keys = ("k1", key) ∷ [] }

abbrev accepted : AssertionAcceptConfig
accepted = record {
  issuer = "gw";
  header = "X-Hog-Identity";
  keys = ("k1", key) ∷ [];
  require_bearer = true;
}

parses : parse_accept decoders raw ≡ ok accepted
unfolding parse_accept keys_loop decode_key lookup insert String-discrete
parses = refl

abbrev config : IdentityConfig
config = record {
  claims = "email" ∷ [];
  groups = none;
  user_info = "auto";
  subject_claim = "sub";
  assertion = none;
}

abbrev claims : Dict Value
claims = ("email", str "a@x") ∷ []

enough : need_user_info_for_token config claims ≡ false
unfolding need_user_info_for_token lookup String-discrete
enough = refl

listed : contains config.claims "email" ≡ true
unfolding String-discrete
listed = refl

not_never : config.user_info ≢ "never"
not_never e = absurd (omega (arith, ap size e))
