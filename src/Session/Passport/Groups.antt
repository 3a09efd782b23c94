-- ===== src/Session/Passport/Groups.antt =====
-- The groups of a principal: the matched and rendered entries, each once.
use Prim.Native.Char.{Char}
use hog.Base.{String, some, List, [], ◌∷◌, ◌≡◌, refl, not, ◌&&◌}
use hog.Base.{◌==◌, contains, map, select, Bool-cases, inl, inr}
use hog.Base.Names.{add_new, NoDup, add_new-NoDup, contains-add_new}
use hog.Base.Dict.{Dict, lookup}
use hog.Session.Value.{Value}
use hog.Session.Passport.{GroupsConfig, matches_any, rendered, groups_loop, project_groups}
use hog.Session.Passport.{raw_groups, or_claim}

module _ (lower : Char → Char) (cfg : GroupsConfig) where
  -- The entries that match, rendered, in the order of the claim.
  abbrev pub mapped : List String → List String
  mapped dns = map (rendered lower cfg) (select (λ dn. matches_any lower dn cfg.match) dns)

  groups_loop-add_new :
      (dns out : List String) → groups_loop lower cfg dns out ≡ add_new out (mapped dns)
  unfolding groups_loop add_new
  groups_loop-add_new [] out = refl
  groups_loop-add_new (dn ∷ dns) out = elim (Bool-cases (matches_any lower dn cfg.match)) [
    | inl e ↦ rw e (groups_loop-add_new dns _)
    | inr e ↦ rw e (groups_loop-add_new dns out)
  ]

  -- A principal's groups are, each once, exactly the values that are not empty and that some entry
  -- of the source claim (userinfo's, else the token's) which matches a pattern is rendered to.
  pub project_groups_lem :
      (userinfo id_claims : Dict Value)
      → NoDup (project_groups lower (some cfg) userinfo id_claims)
        × ((g : String)
            → contains (project_groups lower (some cfg) userinfo id_claims) g ≡ (
                not (g == "")
                && contains
                    (mapped (
                      raw_groups
                        (or_claim (lookup cfg.source userinfo) (lookup cfg.source id_claims))))
                    g))
  unfolding project_groups
  project_groups_lem userinfo id_claims =
      rw groups_loop-add_new (add_new-NoDup _ [] tt, λ g. contains-add_new _ [] g)
