-- ===== src/Session/Passport/Tests.antt =====
-- Claims and groups of a user.
use hog.Base.{String, some, [], ◌∷◌, ◌≡◌, ◌==◌, not, ◌&&◌, contains}
use hog.Base.Text
use hog.Base.Dict.{Dict, lookup}
use hog.Base.Names.{NoDup}
use hog.Session.Value.{Value, str, strs}
use hog.Session.Passport.{GroupsConfig, or_claim, project_groups, raw_groups}
use hog.Session.Passport.Groups.{mapped, project_groups_lem}

abbrev token_claims : Dict Value
token_claims = ("email", str "a@x") ∷ ("employee", str "e1") ∷ []

abbrev userinfo : Dict Value
userinfo =
    ("email", str "b@x") ∷ ("memberOf", strs ("CN=hog-admins,DC=x" ∷ "CN=other,DC=x" ∷ [])) ∷ []

abbrev groups_config : GroupsConfig
groups_config = record {
  source = "memberOf";
  match = "hog-" ∷ [];
  render = "cn";
  as_name = "groups";
  strip = "HOG-" ∷ [];
}

project_groups_lem_example :
    NoDup (project_groups Text.lower_char (some groups_config) userinfo token_claims)
    × ((g : String)
        → contains (project_groups Text.lower_char (some groups_config) userinfo token_claims) g ≡ (
            not (g == "")
            && contains
                (mapped Text.lower_char groups_config (
                  raw_groups
                    (or_claim (lookup "memberOf" userinfo) (lookup "memberOf" token_claims))))
                g))
project_groups_lem_example = project_groups_lem Text.lower_char groups_config userinfo token_claims
