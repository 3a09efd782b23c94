-- ===== src/Auth/Assertion.antt =====
-- auth/assertion.go and auth/assertion_gate.go: the signed identity that one gateway hands to another.
-- Ed25519, base64 and JSON are parameters.
pub mod Verified
use Prim.Native.Nat.{◌/◌, ◌%◌}
use hog.Base.{
  String, ◌<>◌, ℕ, zero, suc, ◌+◌, ◌*◌, Bool, true, false, Option, none, some, List, [], ◌∷◌, not,
  ◌&&◌, ◌||◌, ◌==◌, if◌then◌else◌, ltb, eqb, is_some,
}
use hog.Base.{Result, ok, err, ◌>>=◌, ◌>>◌, guard, or_fail}
use hog.Base.Text
use hog.Base.Text.{size}
use hog.Base.Dict.{Dict, lookup}
use hog.Http.{Request, Header, Exchange, Handler, with_context, with_header, get, set, del}
use hog.Session.Value.{Value}
use hog.Session.Principal.{Principal, Context, with_principal, from_context}
use hog.Chain.{Middleware}

-- `IdentityAssertion`; the instants are int64, in seconds since 1970, given by their 64 bits
pub record IdentityAssertion : Type 0 where
  pub issuer : String
  pub subject : String
  pub issued_at : ℕ
  pub expires_at : ℕ
  pub passport : Dict Value
  pub groups : List String

-- `assertionHeader`
pub record AssertionHeader : Type 0 where
  pub alg : String
  pub typ : String
  pub kid : String

-- Ed25519 with base64 and JSON.
pub record Jose : Type 0 where
  pub encode : String → String  -- base64.RawURLEncoding
  pub decode : String → Option String
  pub marshal_header : AssertionHeader → String
  pub unmarshal_header : String → Option AssertionHeader
  pub marshal : IdentityAssertion → String
  pub unmarshal : String → Option IdentityAssertion
  pub public_key : String → String  -- of a seed
  pub sign : String → String → String  -- by a seed
  pub verify_signature : String → String → String → Bool

-- the nanoseconds of a second; the clock counts nanoseconds since 1970
abbrev pub second : ℕ
second = 1000000000

-- `assertionSkew`, in seconds
abbrev pub assertion_skew : ℕ
assertion_skew = 30

-- `time.Unix(sec, 0)`, in seconds since the earliest `time.Time`: it counts from the year 1, in an int64 that wraps around
pub unix : ℕ → ℕ
unix sec = (sec + 9223372098990372608) % 18446744073709551616

-- `Add(assertionSkew)`, of a second: it stops at the last `time.Time`
pub add_skew : ℕ → ℕ
add_skew t =
    if ltb (t + assertion_skew) 18446744073709551616
    then t + assertion_skew
    else 18446744073709551615

-- `now.After(time.Unix(expires_at, 0).Add(assertionSkew))`
pub is_expired : ℕ → ℕ → Bool
unfolding unix add_skew
is_expired now expires_at =
    let t = unix (now / second) in
    let e = add_skew (unix expires_at) in ltb e t || (eqb e t && not (eqb (now % second) 0))

-- `time.Unix(issued_at, 0).After(now.Add(assertionSkew))`
pub is_from_future : ℕ → ℕ → Bool
unfolding unix add_skew
is_from_future now issued_at = ltb (add_skew (unix (now / second))) (unix issued_at)

-- `AssertionIssuer`; the ttl is in nanoseconds
pub record AssertionIssuer : Type 0 where
  pub name : String
  pub kid : String
  pub seed : String
  pub ttl : ℕ

-- `NewAssertionIssuer`; an error is none
pub new_assertion_issuer : String → String → String → ℕ → Option AssertionIssuer
new_assertion_issuer name kid seed ttl =
    if name == ""
    then none
    else if kid == ""
    then none
    else if not (eqb (size seed) 32)
    then none
    else some (record {
      name = name;
      kid = kid;
      seed = seed;
      ttl = if eqb ttl 0 then 60 * second else ttl;
    })

-- `AssertionVerifier`
pub record AssertionVerifier : Type 0 where
  pub issuer : String
  pub keys : Dict String

right_sized : Dict String → Dict String
right_sized [] = []
right_sized ((kid, key) ∷ keys) =
    let rest = right_sized keys in if eqb (size key) 32 then (kid, key) ∷ rest else rest

-- `NewAssertionVerifier`
pub new_assertion_verifier : String → Dict String → AssertionVerifier
unfolding right_sized
new_assertion_verifier issuer keys = record { issuer = issuer; keys = right_sized keys }

pub data AssertionError : Type 0 where
  assertion_invalid assertion_expired : AssertionError

three_parts : List String → Result AssertionError (String × String × String)
three_parts (a ∷ b ∷ c ∷ []) = ok (a, b, c)
three_parts _ = err assertion_invalid

module _ (j : Jose) where
  -- the claims that are signed of a principal
  abbrev pub asserted : AssertionIssuer → ℕ → Principal → IdentityAssertion
  asserted i now p = record {
    issuer = i.name;
    subject = p.subject;
    issued_at = now / second;
    expires_at = (now + i.ttl) / second;
    passport = p.passport;
    groups = p.groups;
  }

  abbrev signing_input : String → String → String
  signing_input head payload = head <> ("." <> payload)

  -- `Mint`
  unfoldable pub mint : AssertionIssuer → ℕ → Principal → String
  mint i now p =
      let head = j.encode (j.marshal_header (record { alg = "EdDSA"; typ = "JWT"; kid = i.kid })) in
      let payload = j.encode (j.marshal (asserted i now p)) in
      let input = signing_input head payload in input <> ("." <> j.encode (j.sign i.seed input))

  check_parts :
      AssertionVerifier → ℕ → String → String → String → Result AssertionError IdentityAssertion
  check_parts v now part0 part1 part2 = do
    head_json ← or_fail (j.decode part0) assertion_invalid
    head ← or_fail (j.unmarshal_header head_json) assertion_invalid
    guard (head.alg == "EdDSA") assertion_invalid
    key ← or_fail (lookup head.kid v.keys) assertion_invalid
    guard (eqb (size key) 32) assertion_invalid
    sig ← or_fail (j.decode part2) assertion_invalid
    guard (j.verify_signature key (signing_input part0 part1) sig) assertion_invalid
    payload ← or_fail (j.decode part1) assertion_invalid
    claims ← or_fail (j.unmarshal payload) assertion_invalid
    guard (claims.issuer == v.issuer) assertion_invalid
    guard (not (claims.subject == "")) assertion_invalid
    guard (not (is_expired now claims.expires_at)) assertion_expired
    guard (not (is_from_future now claims.issued_at)) assertion_invalid
    ok claims

  -- `Verify`
  unfoldable pub verify : AssertionVerifier → ℕ → String → Result AssertionError IdentityAssertion
  unfolding three_parts check_parts
  verify v now token = do
    (part0, part1, part2) ← three_parts (Text.split b'.' token)
    check_parts v now part0 part1 part2

  -- the principal that an accepted assertion leaves in the context
  accept_claims : Bool → Option Principal → IdentityAssertion → Context → Context
  accept_claims require_bearer (some p) a ctx =
      if p.subject == a.subject
      then with_principal ctx (some (record p { passport = a.passport; groups = a.groups }))
      else ctx
  accept_claims require_bearer none a ctx =
      if not require_bearer
      then with_principal ctx (
          some (record {
            subject = a.subject;
            passport = a.passport;
            groups = a.groups;
            access_token = "";
            session_id = "";
          }))
      else ctx

  unfoldable pub context_after : AssertionVerifier → ℕ → Bool → String → Context → Context
  unfolding accept_claims
  context_after v now require_bearer token ctx =
      if token == "" then ctx else elim (verify v now token) [
        | err _ ↦ ctx
        | ok a ↦ accept_claims require_bearer (from_context ctx) a ctx
      ]

  -- `AssertionGate`
  unfoldable pub assertion_gate :
      {World : Type 0} → AssertionVerifier → ℕ → String → Bool → Middleware World
  unfolding context_after
  assertion_gate v now name require_bearer next r x =
      let header = if name == "" then "X-Hog-Identity" else name in
      let r' = with_header (del header r.header) r in
      next (with_context (context_after v now require_bearer (get header r.header) r.context) r') x

  forwarded_header : AssertionIssuer → ℕ → String → Header → Option Principal → Header
  forwarded_header iss now header h none = del header h
  forwarded_header iss now header h (some p) = set header (mint iss now p) (del header h)

  -- `IssueAssertion`
  unfoldable pub issue_assertion :
      {World : Type 0} → AssertionIssuer → ℕ → String → Middleware World
  unfolding forwarded_header
  issue_assertion iss now name next r x =
      let header = if name == "" then "X-Hog-Identity" else name in
      let ctx = record r.context { assertion_header = header } in
      next
        (with_context ctx
          (with_header (forwarded_header iss now header r.header (from_context ctx)) r))
        x
