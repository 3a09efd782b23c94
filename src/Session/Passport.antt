-- ===== src/Session/Passport.antt =====
-- session/passport.go: which claims, groups and subject a principal gets from its token and its
-- userinfo. `lower` is `unicode.ToLower`.
pub mod Claims
pub mod Groups
mod Tests
use Prim.Native.Char.{Char}
use Prim.Native.String as S
use hog.Base.{
  String, Bool, true, false, Option, none, some, List, [], ◌∷◌, ◌++◌, ◌==◌, not, ◌&&◌, ◌||◌,
}
use hog.Base.{contains, if◌then◌else◌}
use hog.Base.Text
use hog.Base.Text.{char_eq, map_chars}
use hog.Base.Dict.{Dict, lookup, insert}
use hog.Session.Value.{Value, string_or_empty, to_string_slice}

-- `GroupsConfig`
pub record GroupsConfig : Type 0 where
  pub source : String
  pub match : List String
  pub render : String
  pub as_name : String  -- As
  pub strip : List String

abbrev pub or_claim : Option Value → Option Value → Option Value
or_claim none v = v
or_claim (some u) v = some u

abbrev put : String → Option Value → Dict Value → Dict Value
put name none out = out
put name (some v) out = insert name v out

project_loop : List String → Dict Value → Dict Value → Dict Value → Dict Value
project_loop [] id_claims userinfo out = out
project_loop (name ∷ names) id_claims userinfo out =
    project_loop names id_claims userinfo
      (put name (or_claim (lookup name userinfo) (lookup name id_claims)) out)

-- `projectPassport`; a nil map is the empty one
unfoldable pub project_passport : List String → Dict Value → Dict Value → Dict Value
unfolding project_loop
project_passport claims id_claims userinfo = project_loop claims id_claims userinfo []

-- `resolveSubject`
unfoldable pub resolve_subject : String → String → Dict Value → Dict Value → String
resolve_subject claim fallback id_claims userinfo =
    let from_userinfo = string_or_empty (lookup claim userinfo) in
    let from_token = string_or_empty (lookup claim id_claims) in
    if claim == "" || claim == "sub"
    then fallback
    else if not (from_userinfo == "")
    then from_userinfo
    else if not (from_token == "")
    then from_token
    else fallback

cn_loop : List String → String
cn_loop [] = ""
cn_loop (part ∷ parts) =
    let rest = cn_loop parts in
    let (head, value) = Text.split_at 3 (Text.trim_space part) in
    if Text.equal_fold head "cn=" && not (value == "") then value else rest

-- `extractCN`
unfoldable pub extract_cn : String → String
unfolding cn_loop
extract_cn dn = cn_loop (Text.split b',' dn)

-- the list behind `raw, ok := userinfo[cfg.Source]`
abbrev pub raw_groups : Option Value → List String
raw_groups none = []
raw_groups (some raw) = to_string_slice raw

module _ (lower : Char → Char) where
  -- `matchesAny`
  pub matches_any : String → List String → Bool
  matches_any dn [] = false
  matches_any dn (p ∷ patterns) =
      Text.contains (map_chars lower dn) (map_chars lower p) || matches_any dn patterns

  -- `foldPrefixLen`, which answers with what follows the prefix in place of its length
  pub fold_prefix : String → String → Option String
  fold_prefix v S.[] = some v
  fold_prefix S.[] (S.◌∷◌ rp p) = none
  fold_prefix (S.◌∷◌ rv v) (S.◌∷◌ rp p) =
      if char_eq (lower rv) (lower rp) then fold_prefix v p else none

  -- `stripPrefixes`
  pub strip_prefixes : String → List String → String
  strip_prefixes v [] = v
  strip_prefixes v (p ∷ prefixes) =
      let rest = strip_prefixes v prefixes in
      if p == "" then rest else (elim (fold_prefix v p) [ none ↦ rest | some r ↦ r ])

  -- one matched group, as it is rendered
  abbrev pub rendered : GroupsConfig → String → String
  rendered cfg dn = strip_prefixes (if cfg.render == "cn" then extract_cn dn else dn) cfg.strip

  -- the loop of `projectGroups`; `seen` holds what `out` does
  groups_loop : GroupsConfig → List String → List String → List String
  groups_loop cfg [] out = out
  groups_loop cfg (dn ∷ dns) out =
      let v = rendered cfg dn in
      groups_loop cfg dns (
        if matches_any dn cfg.match && (not (v == "") && not (contains out v))
        then out ++ (v ∷ [])
        else out)

  -- `projectGroups`
  unfoldable pub project_groups : Option GroupsConfig → Dict Value → Dict Value → List String
  unfolding groups_loop
  project_groups none userinfo id_claims = []
  project_groups (some cfg) userinfo id_claims =
      groups_loop cfg
        (raw_groups (or_claim (lookup cfg.source userinfo) (lookup cfg.source id_claims))) []
