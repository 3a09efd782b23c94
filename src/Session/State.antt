-- ===== src/Session/State.antt =====
-- session/statemanager.go and session/store.go: the session kept server-side, sealed in a
-- StateStore under a hash of the id that the cookie carries. The store and the identity provider
-- are parameters over a state `W`, JSON and SHA-256 too.
pub mod Refresh
pub mod Kept
pub mod RoundTrip
mod Tests
use Prim.Native.Char.{Char}
use Prim.Native.Nat.{◌/◌}
use hog.Base.{eqb}
use hog.Base.{String, ◌<>◌, ℕ, ◌+◌, ◌-◌, Bool, true, false, Option, none, some, List, [], ◌∷◌, not}
use hog.Base.{◌≡◌, Result, ok, err, ◌>>=◌, or_fail, ltb, ◌==◌, if◌then◌else◌}
use hog.Base.Text
use hog.Base.Dict.{Dict}
use hog.Http.{Cookie, SetCookie, Request}
use hog.Session.Value.{Value}
use hog.Session.Sealer.{Aead, seal, unseal}
use hog.Session.Record.{
  Session, Config, Identity, Tokens, make_session, compute_fingerprint, expired,
}
use hog.Session.Record.{secure_from_request}
use hog.Session.Manager.{ReadError, no_session, invalid_session}

-- `storedSession`
pub record StoredSession : Type 0 where
  pub session : Session
  pub refresh_token : String
  pub access_expiry : ℕ

pub data StoreError : Type 0 where
  state_not_found store_failed : StoreError

-- `StateStore`: `set` and `delete` answer whether they succeeded; an instant is passed to the
-- operations that look at the time.
pub record StateStore (W : Type 0) : Type 0 where
  pub fetch : String → ℕ → W → Result StoreError String
  pub put : String → String → ℕ → ℕ → W → Bool × W
  pub delete : String → W → Bool × W

-- What the interface documents: a value that was set is there for its time to live, and one that
-- was deleted is not.
pub record IsLawful {W : Type 0} (store : StateStore W) : Type 0 where
  pub fetch-put :
      (key value : String) (ttl now later : ℕ) (w : W)
      → (store.put key value ttl now w).0 ≡ true
      → ltb later (now + ttl) ≡ true
      → store.fetch key later (store.put key value ttl now w).1 ≡ ok value
  pub fetch-delete :
      (key : String) (now : ℕ) (w : W)
      → (store.delete key w).0 ≡ true
      → store.fetch key now (store.delete key w).1 ≡ err state_not_found

-- `stateManager`, with what it is built on; `refresh` is the provider's, none without one
pub record StateManager (W : Type 0) : Type 0 where
  pub lower : Char → Char
  pub hash : String → String
  pub aead : Aead
  pub marshal : StoredSession → String
  pub unmarshal : String → Option StoredSession
  pub store : StateStore W
  pub refresh : Option (String → W → Option Tokens × W)
  pub cfg : Config
  pub refresh_skew : ℕ
  pub key_prefix : String

-- The instants at which a request reads the clock, and what other requests do to the state while
-- this one waits for the session's lock.
pub record Moments (W : Type 0) : Type 0 where
  pub entry : ℕ
  pub locked : ℕ
  pub failed : ℕ
  pub stored : ℕ
  pub others : W → W

abbrev pub state_aad : String
state_aad = "hog/store/v1"

-- `r.Cookie(name)`
unfoldable pub cookie_named : String → List Cookie → Option String
cookie_named name [] = none
cookie_named name (c ∷ cs) = if c.name == name then some c.value else cookie_named name cs

-- the record with the tokens of a refresh; an empty refresh token keeps the old one
unfoldable pub rotate : Tokens → StoredSession → StoredSession
rotate tok rec = record rec {
  session = record rec.session { access_token = tok.access_token };
  access_expiry = tok.expiry;
  refresh_token = if tok.refresh_token == "" then rec.refresh_token else tok.refresh_token;
}

abbrev pub second : ℕ
second = 1000000000

module _ {W : Type 0} (m : StateManager W) where
  -- `key`
  abbrev pub key : String → String
  key id = m.key_prefix <> m.hash id

  -- `correlationID`
  abbrev pub correlation_id : String → String
  correlation_id id = (Text.split_at 12 (m.hash ("hog/sesscorr/v1:" <> id))).0

  -- `seal`
  abbrev pub seal_record : String → StoredSession → String
  seal_record nonce rec = seal m.aead m.cfg.key nonce (m.marshal rec) state_aad

  -- `load`: an error is none, since no caller tells them apart but for a log line
  pub load : ℕ → String → W → Option StoredSession
  load now k w = elim (m.store.fetch k now w) [
    | err _ ↦ none
    | ok value ↦ elim (unseal m.aead m.cfg.key value state_aad) [
      | none ↦ none
      | some plain ↦ m.unmarshal plain
    ]
  ]

  -- storing the record anew for the time that the session has left; a failure is only logged
  pub restore : ℕ → String → String → StoredSession → W → W
  restore now nonce k rec w =
      if ltb now rec.session.expiry
      then (m.store.put k (seal_record nonce rec) (rec.session.expiry - now) now w).1
      else w

  -- what follows `provider.Refresh`
  renewed :
      Moments W → String → String → StoredSession → Option Tokens × W → Option StoredSession × W
  renewed at nonce k rec (none, w) = (if ltb at.failed rec.access_expiry then some rec else none, w)
  renewed at nonce k rec (some tok, w) =
      (some (rotate tok rec), restore at.stored nonce k (rotate tok rec) w)

  -- the double check under the lock; instants that the source moves by the skew are compared by
  -- adding it to the other side
  fresh : ℕ → Option StoredSession → Option StoredSession
  fresh now none = none
  fresh now (some rec) = if ltb (now + m.refresh_skew) rec.access_expiry then some rec else none

  pub locked_refresh :
      (String → W → Option Tokens × W)
      → Moments W
      → String
      → String
      → StoredSession
      → W
      → Option StoredSession × W
  unfolding fresh load renewed restore
  locked_refresh refresh at nonce k rec w = elim (fresh at.locked (load at.locked k w)) [
    | some newer ↦ (some newer, w)
    | none ↦ renewed at nonce k rec (refresh rec.refresh_token w)
  ]

  -- `maybeRefresh`
  unfoldable pub maybe_refresh :
      Moments W → String → String → StoredSession → W → Option StoredSession × W
  unfolding locked_refresh fresh load
  maybe_refresh at nonce k rec w = elim m.refresh [
    | none ↦ (some rec, w)
    | some refresh ↦
        if rec.refresh_token == ""
        then (some rec, w)
        else if not (ltb rec.access_expiry (at.entry + m.refresh_skew))
        then (some rec, w)
        else locked_refresh refresh at nonce k rec (at.others w)
  ]

  finish : String → Option StoredSession × W → Result ReadError Session × W
  finish id (none, w) = (err invalid_session, w)
  finish id (some rec, w) = (ok (record rec.session { correlation_id = correlation_id id }), w)

  -- `Read`, past the cookie
  pub read_id : Moments W → String → Request → String → W → Result ReadError Session × W
  unfolding maybe_refresh load finish
  read_id at nonce r id w = elim (load at.entry (key id) w) [
    | none ↦ (err invalid_session, w)
    | some rec ↦
        if expired at.entry rec.session
        then (err invalid_session, w)
        else if not
            (rec.session.fingerprint == compute_fingerprint m.hash m.cfg.fingerprint_headers r)
        then (err invalid_session, w)
        else finish id (maybe_refresh at nonce (key id) rec w)
  ]

  -- `Read`
  unfoldable pub read : Moments W → String → Request → W → Result ReadError Session × W
  unfolding read_id cookie_named load
  read at nonce r w = elim (cookie_named m.cfg.cookie_name r.cookies) [
    | none ↦ (err no_session, w)
    | some id ↦ if id == "" then (err no_session, w) else read_id at nonce r id w
  ]

  -- the record of a new session
  abbrev pub issued_record : ℕ → Request → Identity → Dict Value → Tokens → StoredSession
  issued_record now r idt userinfo tok = record {
    session = make_session m.lower m.hash now m.cfg idt userinfo tok r;
    refresh_token = tok.refresh_token;
    access_expiry = tok.expiry;
  }

  -- `Issue`, with the random id and nonce; none is the error of the store
  unfoldable pub issue :
      ℕ → String → String → Request → Identity → Dict Value → Tokens → W → Option SetCookie × W
  issue now nonce id r idt userinfo tok w =
      let rec = issued_record now r idt userinfo tok in
      let (stored, w') = m.store.put (key id) (seal_record nonce rec) m.cfg.ttl now w in
      (
        if stored
            then some (record {
              name = m.cfg.cookie_name;
              value = id;
              max_age = if eqb (m.cfg.ttl / second) 0 then none else some (m.cfg.ttl / second);
              secure = secure_from_request r;
            })
            else none,
        w',
      )

  forget : Option String → W → W
  forget none w = w
  forget (some id) w = if id == "" then w else (m.store.delete (key id) w).1

  -- `Clear`
  unfoldable pub clear : Request → W → SetCookie × W
  unfolding forget cookie_named
  clear r w = (
    record {
      name = m.cfg.cookie_name;
      value = "";
      max_age = some 0;
      secure = secure_from_request r;
    },
    forget (cookie_named m.cfg.cookie_name r.cookies) w,
  )
