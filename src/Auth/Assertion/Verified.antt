-- ===== src/Auth/Assertion/Verified.antt =====
-- What a verified assertion is, and that a minted one verifies.
use Prim.Native.Nat.{◌/◌}
use hog.Base.{
  String, ◌<>◌, ℕ, List, ◌+◌, ◌*◌, ◌<◌, ◌≤◌, ◌↔◌, ok-injective, Bool, true, false, none, some, [],
  ◌∷◌, ◌==◌,
}
use hog.Base.{
  ok, ◌≡◌, ◌≢◌, ◌⊎◌, inl, inr, refl, sym, ap, ◌∙◌, arith, Option-cases, Result-cases, Bool-cases,
}
use mathlib.Core.Option.{some-injective}
use hog.Base.{String-discrete}
use hog.Base.Text
use Prim.Native.Char.{char}
use hog.Base.Text.{size}
use hog.Base.Text.Split.{Lacks, split-Lacks, split-joined}
use text.Mathlib.TextLemmas.{append_assoc}
use hog.Base.Dict.{lookup}
use hog.Session.Principal.{Principal, Context, from_context}
use hog.Auth.Assertion.{
  IdentityAssertion, AssertionHeader, AssertionIssuer, AssertionVerifier, Jose, asserted, mint,
  verify, three_parts, check_parts, context_after, accept_claims, unix, add_skew, is_expired,
  is_from_future, second,
}

-- What base64url promises of a text: it is written without a dot, and read back.
abbrev pub IsEncoded : Jose → String → Type 0
IsEncoded j s = Lacks b'.' (j.encode s) × (j.decode (j.encode s) ≡ some s)

abbrev pub head_of : AssertionIssuer → AssertionHeader
head_of i = record { alg = "EdDSA"; typ = "JWT"; kid = i.kid }

split_three :
    (a b c : String)
    → Lacks b'.' a
    → Lacks b'.' b
    → Lacks b'.' c
    → Text.split b'.' ((a <> ("." <> b)) <> ("." <> c)) ≡ a ∷ b ∷ c ∷ []
split_three a b c ha hb hc =
    ap (Text.split b'.')
      (append_assoc a ("." <> b) ("." <> c) ∙ ap (λ t. a <> t) (append_assoc "." b ("." <> c)))
    ∙ (split-joined (char 46 tt) a (b <> ("." <> c)) ha
        ∙ ap (λ ps. a ∷ ps)
            (split-joined (char 46 tt) b c hb ∙ ap (λ ps. b ∷ ps) (split-Lacks b'.' c hc)))

-- the text that is signed
abbrev pub input_of : Jose → AssertionIssuer → ℕ → Principal → String
input_of j i minted p =
    j.encode (j.marshal_header (head_of i)) <> ("." <> j.encode (j.marshal (asserted j i minted p)))

-- What Ed25519, base64 and JSON promise of the token that is minted: its parts are encoded without a dot and
-- decoded, JSON gives back what was written, and the public key of the seed verifies what the seed signed.
pub record IsSound (j : Jose) (i : AssertionIssuer) (minted : ℕ) (p : Principal) : Type 0 where
  pub head_encoded : IsEncoded j (j.marshal_header (head_of i))
  pub head_read : j.unmarshal_header (j.marshal_header (head_of i)) ≡ some (head_of i)
  pub payload_encoded : IsEncoded j (j.marshal (asserted j i minted p))
  pub payload_read : j.unmarshal (j.marshal (asserted j i minted p)) ≡ some (asserted j i minted p)
  pub signature_encoded : IsEncoded j (j.sign i.seed (input_of j i minted p))
  pub verify-sign :
      j.verify_signature
        (j.public_key i.seed)
        (input_of j i minted p)
        (j.sign i.seed (input_of j i minted p))
      ≡ true

-- What an `time.Time` of these seconds since 1970 holds without wrapping around: some 292 billion years.
abbrev pub IsTime : ℕ → Type 0
IsTime sec = sec + 30 < 9223371974719179008

unix-IsTime : (sec : ℕ) → IsTime sec → unix sec ≡ sec + 9223372098990372608
unfolding unix
unix-IsTime sec h = omega arith

add_skew-unix : (sec : ℕ) → IsTime sec → add_skew (unix sec) ≡ sec + 9223372098990372638
unfolding add_skew
add_skew-unix sec h = ground (arith, unix-IsTime sec h)

is_expired_iff :
    (now expires_at : ℕ)
    → IsTime (now / second)
    → IsTime expires_at
    → (is_expired now expires_at ≡ false) ↔ (now ≤ (expires_at + 30) * second)
unfolding is_expired
is_expired_iff now expires_at h k =
    let e = unix-IsTime (now / second) h in
    let f = add_skew-unix expires_at k in (λ n. grind (arith, e, f, n), λ n. grind (arith, e, f, n))

is_from_future_iff :
    (now issued_at : ℕ)
    → IsTime (now / second)
    → IsTime issued_at
    → (is_from_future now issued_at ≡ false) ↔ (issued_at ≤ now / second + 30)
unfolding is_from_future
is_from_future_iff now issued_at h k =
    let e = unix-IsTime issued_at k in
    let f = add_skew-unix (now / second) h in
    (λ n. ground (arith, e, f, n), λ n. ground (arith, e, f, n))

pub verify-mint :
    (j : Jose) (i : AssertionIssuer) (v : AssertionVerifier) (p : Principal) (minted now : ℕ)
    → IsSound j i minted p
    → v.issuer ≡ i.name
    → lookup i.kid v.keys ≡ some (j.public_key i.seed)
    → size (j.public_key i.seed) ≡ 32
    → p.subject ≢ ""
    → IsTime (now / second)
    → IsTime ((minted + i.ttl) / second)
    → IsTime (minted / second)
    → now ≤ ((minted + i.ttl) / second + 30) * second
    → minted / second ≤ now / second + 30
    → verify j v now (mint j i minted p) ≡ ok (asserted j i minted p)
unfolding verify mint three_parts check_parts
verify-mint j i v p minted now s name key fits named time_now time_end time_begin alive begun =
    let head : String = j.marshal_header (head_of i) in
    let payload : String = j.marshal (asserted j i minted p) in
    let sig = j.sign i.seed (input_of j i minted p) in
    let parts =
      split_three (j.encode head) (j.encode payload) (j.encode sig) s.head_encoded.0
        s.payload_encoded.0 s.signature_encoded.0 in
    rw parts (
      ground (
        arith,
        s.head_encoded.1,
        s.payload_encoded.1,
        s.signature_encoded.1,
        s.head_read,
        s.payload_read,
        s.verify-sign,
        (is_expired_iff now ((minted + i.ttl) / second) time_now time_end).1 alive,
        (is_from_future_iff now (minted / second) time_now time_begin).1 begun,
      ))

-- What an accepted assertion is: what the second of the token's three parts says, of the expected issuer, with a subject,
-- neither expired nor from the future but for the skew; and the third part signs the first two with the verifier's key
-- that the first one names.
pub record IsVerified (j : Jose) (v : AssertionVerifier) (now : ℕ) (token : String)
    (a : IdentityAssertion) : Type 0 where
  pub part0 : String
  pub part1 : String
  pub part2 : String
  pub parts : Text.split b'.' token ≡ part0 ∷ part1 ∷ part2 ∷ []
  pub head_json : String
  pub head_decoded : j.decode part0 ≡ some head_json
  pub head : AssertionHeader
  pub head_parsed : j.unmarshal_header head_json ≡ some head
  pub key : String
  pub sig : String
  pub sig_decoded : j.decode part2 ≡ some sig
  pub signed : j.verify_signature key (part0 <> ("." <> part1)) sig ≡ true
  pub known : lookup head.kid v.keys ≡ some key
  pub alg : head.alg ≡ "EdDSA"
  pub payload : String
  pub carried : j.decode part1 ≡ some payload
  pub parsed : j.unmarshal payload ≡ some a
  pub issuer : a.issuer ≡ v.issuer
  pub subject : a.subject ≢ ""
  pub alive : is_expired now a.expires_at ≡ false
  pub begun : is_from_future now a.issued_at ≡ false

module _ (j : Jose) (v : AssertionVerifier) (now : ℕ) where
  check_parts-IsVerified :
      (token part0 part1 part2 : String) (a : IdentityAssertion)
      → Text.split b'.' token ≡ part0 ∷ part1 ∷ part2 ∷ []
      → check_parts j v now part0 part1 part2 ≡ ok a
      → IsVerified j v now token a
  unfolding check_parts
  check_parts-IsVerified token part0 part1 part2 a made e = elim (Option-cases (j.decode part0)) [
    | inl f ↦ absurd (ground (arith, e, f))
    | inr (head_json, f0) ↦ elim (Option-cases (j.unmarshal_header head_json)) [
      | inl f ↦ absurd (ground (arith, e, f0, f))
      | inr (head, f1) ↦ elim (Option-cases (lookup head.kid v.keys)) [
        | inl f ↦ absurd (ground (arith, e, f0, f1, f))
        | inr (key, f2) ↦ elim (Option-cases (j.decode part2)) [
          | inl f ↦ absurd (ground (arith, e, f0, f1, f2, f))
          | inr (sig, f3) ↦ elim (Option-cases (j.decode part1)) [
            | inl f ↦ absurd (ground (arith, e, f0, f1, f2, f3, f))
            | inr (payload, f4) ↦ record {
              part0 = part0;
              part1 = part1;
              part2 = part2;
              parts = made;
              head_json = head_json;
              head_decoded = f0;
              head_parsed = f1;
              sig_decoded = f3;
              head = head;
              key = key;
              sig = sig;
              signed = ground (arith, e, f0, f1, f2, f3, f4);
              known = f2;
              alg = ground (arith, e, f0, f1, f2, f3, f4);
              payload = payload;
              carried = f4;
              parsed = ground (arith, e, f0, f1, f2, f3, f4);
              issuer = ground (arith, e, f0, f1, f2, f3, f4);
              subject = ground (arith, e, f0, f1, f2, f3, f4);
              alive = ground (arith, e, f0, f1, f2, f3, f4);
              begun = ground (arith, e, f0, f1, f2, f3, f4);
            }
          ]
        ]
      ]
    ]
  ]

  as_list : String × String × String → List String
  as_list (a, b, c) = a ∷ b ∷ c ∷ []

  three_parts-split :
      (ps : List String) (a b c : String) → three_parts ps ≡ ok (a, b, c) → ps ≡ a ∷ b ∷ c ∷ []
  unfolding three_parts as_list
  three_parts-split [] a b c e = absurd (ground (arith, e))
  three_parts-split (_ ∷ []) a b c e = absurd (ground (arith, e))
  three_parts-split (_ ∷ _ ∷ []) a b c e = absurd (ground (arith, e))
  three_parts-split (a' ∷ b' ∷ c' ∷ []) a b c e = ap as_list (ok-injective _ _ e)
  three_parts-split (_ ∷ _ ∷ _ ∷ _ ∷ _) a b c e = absurd (ground (arith, e))

  verify-IsAccepted :
      (token : String) (a : IdentityAssertion)
      → verify j v now token ≡ ok a
      → IsVerified j v now token a
  unfolding verify
  verify-IsAccepted token a e = elim (Result-cases (three_parts (Text.split b'.' token))) [
    | inl (why, f) ↦ absurd (ground (arith, e, f))
    | inr ((part0, part1, part2), f) ↦
        check_parts-IsVerified token part0 part1 part2 a (three_parts-split _ part0 part1 part2 f)
          (ground (arith, e, f))
  ]

  -- An accepted assertion is what the token's second part says: of the expected issuer, with a subject; the token's third
  -- part signs the other two with the key of the verifier that the first one names; and the clock, in nanoseconds, is no
  -- later than the skew after the expiry, and no second before the issue but for the skew, if no instant wraps around.
  pub verify-IsVerified :
      (token : String) (a : IdentityAssertion)
      → IsTime (now / second)
      → IsTime a.expires_at
      → IsTime a.issued_at
      → verify j v now token ≡ ok a
      → IsVerified j v now token a
        × (now ≤ (a.expires_at + 30) * second)
        × (a.issued_at ≤ now / second + 30)
  verify-IsVerified token a h k l e =
      let accepted = verify-IsAccepted token a e in
      (
        accepted,
        (is_expired_iff now a.expires_at h k).0 accepted.alive,
        (is_from_future_iff now a.issued_at h l).0 accepted.begun,
      )

  abbrev IsKept : Principal → Principal → Type 0
  IsKept p q = (p.subject ≡ q.subject) × (p.access_token ≡ q.access_token)

  kept_itself : (q p : Principal) → some q ≡ some p → IsKept p q
  kept_itself q p e = (
    ap (λ o. o.subject) (sym (some-injective q p e)),
    ap (λ o. o.access_token) (sym (some-injective q p e)),
  )

  accept-kept :
      (require_bearer : Bool) (q p : Principal) (a : IdentityAssertion) (ctx : Context)
      → from_context ctx ≡ some q
      → from_context (accept_claims j require_bearer (some q) a ctx) ≡ some p
      → IsKept p q
  unfolding accept_claims from_context
  accept-kept require_bearer q p a ctx f e = elim (String-discrete q.subject a.subject) [
    | yes same ↦
        kept_itself (record q { passport = a.passport; groups = a.groups }) p
          (ground (arith, same, e))
    | no n ↦ kept_itself q p (ground (arith, n, e, f))
  ]

  accept-anew :
      (require_bearer : Bool) (p : Principal) (a : IdentityAssertion) (ctx : Context)
      → from_context ctx ≡ none
      → from_context (accept_claims j require_bearer none a ctx) ≡ some p
      → (require_bearer ≡ false) × (p.subject ≡ a.subject) × (p.access_token ≡ "")
  unfolding accept_claims from_context
  accept-anew true p a ctx f e = absurd (ground (arith, e, f))
  accept-anew false p a ctx f e =
      let (named, token) =
        kept_itself
          (record {
            subject = a.subject;
            passport = a.passport;
            groups = a.groups;
            access_token = "";
            session_id = "";
          })
          p e in
      (refl, named, token)

  -- Behind the gate, a principal that was there before keeps its subject and its access token; one that was not is of
  -- a verified assertion, without an access token, and only where no bearer token is required.
  pub context_after-principal :
      (require_bearer : Bool) (token : String) (ctx : Context) (p : Principal)
      → from_context (context_after j v now require_bearer token ctx) ≡ some p
      → ((q : Principal) × (from_context ctx ≡ some q)
          × (p.subject ≡ q.subject)
          × (p.access_token ≡ q.access_token))
        ⊎ ((a : IdentityAssertion) × (from_context ctx ≡ none)
            × (require_bearer ≡ false)
            × IsVerified j v now token a
            × (p.subject ≡ a.subject)
            × (p.access_token ≡ ""))
  unfolding context_after
  context_after-principal require_bearer token ctx p e = elim (Bool-cases (token == "")) [
    | inl f ↦ inl (p, ground (arith, e, f), refl, refl)
    | inr f ↦ elim (Result-cases (verify j v now token)) [
      | inl (why, g) ↦ inl (p, ground (arith, e, f, g), refl, refl)
      | inr (a, g) ↦ elim (Option-cases (from_context ctx)) [
        | inr (q, h) ↦
            let (named, access) =
              accept-kept require_bearer q p a ctx h (ground (arith, e, f, g, h)) in
            inl (q, h, named, access)
        | inl h ↦
            let (free, named, access) =
              accept-anew require_bearer p a ctx h (ground (arith, e, f, g, h)) in
            inr (a, h, free, verify-IsAccepted token a g, named, access)
      ]
    ]
  ]
