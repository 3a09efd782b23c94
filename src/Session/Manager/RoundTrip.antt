-- ===== src/Session/Manager/RoundTrip.antt =====
-- A session that is issued is read back by the browser's next request.
use hog.Base.{String, ℕ, ◌+◌, ◌≤◌, ◌^◌, ◌≡◌, refl, ◌∙◌, ap, sym, ◌≢◌, arith}
use hog.Base.{some, List, [], ◌++◌, ok, Bool, All}
use hog.Base.Text.{size}
use mathlib.Core.List.{append-nil}
use hog.Base.Dict.{Dict}
use hog.Http.{Request, Cookie}
use hog.Session.Value.{Value}
use hog.Session.Cookie.{read_chunked, write_chunked, jar, clear_chunked}
use hog.Session.Cookie.Chunks.{chunks, length-chunks, write_loop-numbered, IsOther}
use hog.Session.Cookie.RoundTrip.{read_chunked-write_chunked}
use hog.Session.Sealer.{IsSound, seal, unseal_same, nonce_size}
use hog.Session.Record.{Session, Config, Identity, Tokens, make_session, compute_fingerprint}
use hog.Session.Record.{secure_from_request}
use hog.Session.Manager.{Platform, IsFaithful, session_aad, issue, read}
use hog.Session.Manager.Browser.{
  accept, accept-append, accept-clear_chunked, accept-numbered, IsOther-IsFresh,
}

-- A browser without chunks of the name holds, after the chunks are set, those besides what it had.
accept-write_chunked :
    (name value : String) (secure : Bool) (base : List Cookie)
    → size value ≤ 2 ^ 63
    → All (IsOther name) base
    → accept (write_chunked name value secure) base ≡ base ++ jar (write_chunked name value secure)
unfolding write_chunked
accept-write_chunked name value secure base h o = rw write_loop-numbered (
    accept-numbered (chunks (size value) value) 0 name secure base
      (omega (arith, length-chunks (size value) value)) (IsOther-IsFresh name base o))

module _ (p : Platform) (cfg : Config) (sound : IsSound p.aead) where
  -- A request that carries the sealed session is read as that session, until it expires.
  read_sealed :
      (nonce value : String) (s : Session) (now : ℕ) (r : Request)
      → IsFaithful p s
      → size nonce ≡ nonce_size
      → value ≡ seal p.aead cfg.key nonce (p.marshal s) session_aad
      → read_chunked r.cookies cfg.cookie_name ≡ some value
      → now ≤ s.expiry
      → s.fingerprint ≡ compute_fingerprint p.hash cfg.fingerprint_headers r
      → read p cfg now r ≡ ok (record s { correlation_id = "" })
  unfolding read
  read_sealed nonce value s now r faithful fits sealed carried alive same =
      ground
        (arith, (unseal_same p.aead sound cfg.key nonce (p.marshal s) session_aad fits), faithful)

  module _ (nonce : String) (idt : Identity) (userinfo : Dict Value) (tok : Tokens)
      (login : Request) (issued : ℕ) where
    abbrev pub made : Session
    made = make_session p.lower p.hash issued cfg idt userinfo tok login

    abbrev pub sealed : String
    sealed = seal p.aead cfg.key nonce (p.marshal made) session_aad

    -- The session that `Issue` makes is what `Read` answers to the browser's next request, whatever
    -- cookies the browser held, chunks of an older session among them: until the session's
    -- expiry, if the fingerprint headers of both requests agree, JSON gives the session back, the nonce has
    -- its size, and the sealed value is neither empty nor longer than 2 ^ 63.
    pub read-issue :
        (next : Request) (now : ℕ)
        → IsFaithful p made
        → size nonce ≡ nonce_size
        → sealed ≢ ""
        → size sealed ≤ 2 ^ 63
        → next.cookies ≡ accept (issue p cfg issued nonce login idt userinfo tok) login.cookies
        → compute_fingerprint p.hash cfg.fingerprint_headers login
          ≡ compute_fingerprint p.hash cfg.fingerprint_headers next
        → now ≤ issued + cfg.ttl
        → read p cfg now next ≡ ok made
    unfolding issue make_session
    read-issue next now faithful fits n small kept same alive =
        let secure = secure_from_request login in
        let base = accept (clear_chunked login.cookies cfg.cookie_name secure) login.cookies in
        let others = accept-clear_chunked cfg.cookie_name secure login.cookies in
        let chunk_cookies = jar (write_chunked cfg.cookie_name sealed secure) in
        let held : next.cookies ≡ base ++ (chunk_cookies ++ []) =
          kept
          ∙ (accept-append (clear_chunked login.cookies cfg.cookie_name secure)
                (write_chunked cfg.cookie_name sealed secure) login.cookies
              ∙ (accept-write_chunked cfg.cookie_name sealed secure base small others
                  ∙ ap (λ c. base ++ c) (sym (append-nil chunk_cookies)))) in
        read_sealed nonce sealed made now next faithful fits refl
          (ap (λ c. read_chunked c cfg.cookie_name) held
            ∙ read_chunked-write_chunked cfg.cookie_name sealed secure base [] others tt n small)
          alive same
