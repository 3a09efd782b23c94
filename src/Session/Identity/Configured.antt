-- ===== src/Session/Identity/Configured.antt =====
-- What an identity block that parses is, and what a token that needs no userinfo carries.
use Prim.Native.Char.{Char}
use hog.Base.{
  String, ℕ, true, false, none, some, List, [], ◌∷◌, not, if◌then◌else◌, is_some, any, All,
  contains, ◌≡◌, ◌≢◌, inl, inr, ◌∙◌, arith,
}
use hog.Base.{ok, Option-cases, Result-cases, ok-injective}
use hog.Base.Text.{size}
use hog.Base.Dict.{Dict, lookup, insert}
use mathlib.Core.Path.{subst}
use hog.Session.Value.{Value}
use hog.Session.Passport.{or_claim}
use hog.Session.Passport.Claims.{lookup-project_passport}
use hog.Session.Identity.{
  IdentityConfig, Decoders, AssertionAcceptConfig, RawAccept, decode_key, sized, keys_loop,
  parse_accept, new_principal, need_user_info_for_token,
}

-- A key that a verifier can use: it has an id, and Ed25519's 32 bytes.
abbrev pub IsKey : String × String → Type 0
IsKey (id, key) = (id ≢ "") × (size key ≡ 32)

insert-IsKey :
    (id key : String) (keys : Dict String)
    → All IsKey keys
    → IsKey (id, key)
    → All IsKey (insert id key keys)
unfolding insert
insert-IsKey id key [] h k = (k, tt)
insert-IsKey id key ((j, w) ∷ keys) (here, h) k = ground (arith, insert-IsKey id key keys h k)

module _ (d : Decoders) where
  decode_key-size : (s : String) (n : ℕ) (b : String) → decode_key d s n ≡ some b → size b ≡ n
  unfolding decode_key sized
  decode_key-size s n b e = ground (arith)

  keys_loop-IsKey :
      (rest : List (String × String)) (keys done : Dict String)
      → All IsKey keys
      → keys_loop d keys rest ≡ ok done
      → All IsKey done
  unfolding keys_loop
  keys_loop-IsKey [] keys done h e = subst (All IsKey) (ok-injective keys done e) h
  keys_loop-IsKey ((id, public) ∷ rest) keys done h e =
      elim (Option-cases (decode_key d public 32)) [
        | inl f ↦ absurd (ground (arith, f, e))
        | inr (key, f) ↦
            keys_loop-IsKey rest (insert id key keys) done
              (insert-IsKey id key keys h
                ((λ g. absurd (ground (arith, f, e, g))), decode_key-size public 32 key f))
              (ground (arith, f, e))
      ]

  -- A block of accepted assertions that parses names its issuer, and every key of it has an id
  -- and 32 bytes.
  pub parse_accept-IsKey :
      (raw : RawAccept) (cfg : AssertionAcceptConfig)
      → parse_accept d raw ≡ ok cfg
      → (cfg.issuer ≢ "") × All IsKey cfg.keys
  unfolding parse_accept
  parse_accept-IsKey raw cfg e = elim (Result-cases (keys_loop d [] raw.keys)) [
    | inl (why, f) ↦ absurd (ground (arith, f, e))
    | inr (keys, f) ↦ (
      ground (arith, f, e),
      subst (All IsKey) (ground (arith, f, e)) (keys_loop-IsKey raw.keys [] keys tt f),
    )
  ]

all_present :
    (cs : List String) (c : String) (claims : Dict Value)
    → any (λ x. not (is_some (lookup x claims))) cs ≡ false
    → contains cs c ≡ true
    → is_some (lookup c claims) ≡ true
all_present [] c claims e h = absurd (ground arith)
all_present (x ∷ cs) c claims e h = ground (arith, all_present cs c claims)

-- Where userinfo is not turned off and a token does not need it, the principal that is made of the token
-- alone has every configured claim in its passport, with the token's value.
pub new_principal_complete :
    (lower : Char → Char) (cfg : IdentityConfig) (claims : Dict Value) (sub token c : String)
    → cfg.user_info ≢ "never"
    → need_user_info_for_token cfg claims ≡ false
    → contains cfg.claims c ≡ true
    → (v : Value) × (lookup c claims ≡ some v)
      × (lookup c (new_principal lower sub claims [] token cfg).passport ≡ some v)
unfolding need_user_info_for_token new_principal lookup
new_principal_complete lower cfg claims sub token c on enough listed =
    let here : is_some (lookup c claims) ≡ true =
      ground (arith, on, enough, all_present cfg.claims c claims) in
    elim (Option-cases (lookup c claims)) [
      | inl e ↦ absurd (ground (arith, e, here))
      | inr (v, e) ↦ (v, e, lookup-project_passport claims [] c cfg.claims ∙ merged v e)
    ]
  where
    merged :
        (v : Value)
        → lookup c claims ≡ some v
        → (if contains cfg.claims c then or_claim none (lookup c claims) else none) ≡ some v
    merged v e = ground (arith, listed, e)
