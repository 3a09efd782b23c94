-- ===== src/Session/Manager.antt =====
-- session/manager.go: the stateless session, which is the sealed cookie.
pub mod Browser
pub mod RoundTrip
pub mod SignedOut
mod Tests
use Prim.Native.Char.{Char}
use hog.Base.{
  String, ◌<>◌, ℕ, Bool, true, false, Option, none, some, List, [], ◌∷◌, ◌++◌, ◌≡◌, ◌==◌, not,
}
use hog.Base.{Result, ok, err, ◌>>=◌, ◌>>◌, guard, or_fail}
use hog.Base.Dict.{Dict}
use hog.Http.{Cookie, SetCookie, Request}
use hog.Session.Value.{Value}
use hog.Session.Cookie.{read_chunked, write_chunked, clear_chunked}
use hog.Session.Sealer.{Aead, seal, unseal}
use hog.Session.Record.{
  Session, Config, Identity, Tokens, make_session, compute_fingerprint, expired,
}
use hog.Session.Record.{secure_from_request}

-- The sentinel errors of `Read`.
pub data ReadError : Type 0 where
  no_session invalid_session : ReadError

-- What the managers are built on: Unicode's lower case, SHA-256 with base64, AES-GCM, and JSON.
pub record Platform : Type 0 where
  pub lower : Char → Char
  pub hash : String → String
  pub aead : Aead
  pub marshal : Session → String
  pub unmarshal : String → Option Session

-- JSON gives the session back, but for the correlation id, which is never written.
abbrev pub IsFaithful : Platform → Session → Type 0
IsFaithful p s = p.unmarshal (p.marshal s) ≡ some (record s { correlation_id = "" })

abbrev pub session_aad : String
session_aad = "hog/session/v1"

module _ (p : Platform) (cfg : Config) where
  -- `cookieManager.Issue`: the cookies that the response sets, given the instant and the nonce
  unfoldable pub issue : ℕ → String → Request → Identity → Dict Value → Tokens → List SetCookie
  issue now nonce r idt userinfo tok =
      let s = make_session p.lower p.hash now cfg idt userinfo tok r in
      let value = seal p.aead cfg.key nonce (p.marshal s) session_aad in
      let secure = secure_from_request r in
      clear_chunked r.cookies cfg.cookie_name secure ++ write_chunked cfg.cookie_name value secure

  -- `cookieManager.Read`
  unfoldable pub read : ℕ → Request → Result ReadError Session
  read now r = do
    value ← or_fail (read_chunked r.cookies cfg.cookie_name) no_session
    payload ← or_fail (unseal p.aead cfg.key value session_aad) invalid_session
    s ← or_fail (p.unmarshal payload) invalid_session
    guard (not (expired now s)) invalid_session
    guard (s.fingerprint == compute_fingerprint p.hash cfg.fingerprint_headers r) invalid_session
    ok s

  -- `cookieManager.Clear`
  unfoldable pub clear : Request → List SetCookie
  clear r = clear_chunked r.cookies cfg.cookie_name (secure_from_request r)
