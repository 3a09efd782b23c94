-- ===== src/Session/State/RoundTrip.antt =====
-- Records that are stored: issue then read, refreshes that collapse, and a session that is cleared.
use hog.Base.{String, ℕ, ◌+◌, ◌-◌, ◌≤◌, ◌<◌, true, Option, none, some, ◌≡◌, ◌≢◌, refl, arith}
use hog.Base.{
  List, [], ◌∷◌, zero, suc, Bool-cases, eqb, if◌then◌else◌, ap, sym, ◌∙◌, Option-cases, inl, inr,
  ok, err,
}
use mathlib.Core.Option.{some-injective}
use Prim.Native.Nat.{◌/◌}
use hog.Base.Dict.{Dict}
use hog.Base.Text.{size}
use hog.Http.{Request, Cookie, SetCookie}
use hog.Session.Value.{Value}
use hog.Session.Sealer.{IsSound, unseal_same, nonce_size}
use hog.Session.Record.{Identity, Tokens, make_session, compute_fingerprint, secure_from_request}
use hog.Session.Manager.{invalid_session}
use hog.Session.State.Kept.{cookie_named-accept}
use hog.Session.Manager.Browser.{accept}
use hog.Session.State.{
  StoredSession, StateManager, Moments, IsLawful, key, correlation_id, load, seal_record,
}
use hog.Session.State.{
  rotate, restore, renewed, finish, fresh, locked_refresh, maybe_refresh, read, read_id,
  cookie_named, issued_record, issue, clear, forget, second,
}

abbrev pub but_correlation : StoredSession → StoredSession
but_correlation rec = record rec { session = record rec.session { correlation_id = "" } }

-- What the manager is built on keeps its promises: the store and AES-GCM.
pub record IsReliable {W : Type 0} (m : StateManager W) : Type 0 where
  pub lawful : IsLawful m.store
  pub sound : IsSound m.aead

-- JSON gives the record back, but for the correlation id, which is never written.
abbrev pub IsFaithful : {W : Type 0} → StateManager W → StoredSession → Type 0
IsFaithful m rec = m.unmarshal (m.marshal rec) ≡ some (but_correlation rec)

module _ {W : Type 0} (m : StateManager W) (reliable : IsReliable m) where
  load-put :
      (nonce k : String) (rec : StoredSession) (ttl now later : ℕ) (w : W)
      → IsFaithful m rec
      → size nonce ≡ nonce_size
      → (m.store.put k (seal_record m nonce rec) ttl now w).0 ≡ true
      → later < now + ttl
      → load m later k (m.store.put k (seal_record m nonce rec) ttl now w).1
        ≡ some (but_correlation rec)
  unfolding load
  load-put nonce k rec ttl now later w faithful fits stored alive = ground (
    arith,
    reliable.lawful.fetch-put k (seal_record m nonce rec) ttl now later w stored (ground arith),
    (unseal_same m.aead reliable.sound m.cfg.key nonce (m.marshal rec) "hog/store/v1" fits),
    faithful,
  )

  fresh-none :
      (at : Moments W) (k : String) (w : W)
      → ((newer : StoredSession)
          → load m at.locked k w ≡ some newer
          → newer.access_expiry ≤ at.locked + m.refresh_skew)
      → fresh m at.locked (load m at.locked k w) ≡ none
  unfolding fresh
  fresh-none at k w old = elim (Option-cases (load m at.locked k w)) [
    | inl e ↦ rw (e, fresh) refl
    | inr (newer, e) ↦ ground (arith, old newer e)
  ]

  locked_refresh-stale :
      (refresh : String → W → Option Tokens × W) (at : Moments W) (nonce k : String)
      (rec : StoredSession) (tok : Tokens) (w w' : W)
      → ((newer : StoredSession)
          → load m at.locked k w ≡ some newer
          → newer.access_expiry ≤ at.locked + m.refresh_skew)
      → refresh rec.refresh_token w ≡ (some tok, w')
      → at.stored < rec.session.expiry
      → (locked_refresh m refresh at nonce k rec w).1
        ≡ (m.store.put k
            (seal_record m nonce (rotate tok rec))
            (rec.session.expiry - at.stored)
            at.stored
            w').1
  unfolding locked_refresh renewed restore rotate
  locked_refresh-stale refresh at nonce k rec tok w w' old given alive =
      ground (arith, fresh-none at k w old)

  -- Requests that find the access token near its expiry at once make one refresh: the one that gets the
  -- lock first stores what the provider gave, and the next one, whichever record it held, answers that
  -- record and changes nothing, the provider's state among it; if the store took the record, JSON gives it back, the
  -- nonce has its size, the session has not expired, and the new access token is not near its expiry.
  pub locked_refresh-collapse :
      (refresh : String → W → Option Tokens × W) (first second : Moments W)
      (nonce nonce' k : String) (rec held : StoredSession) (tok : Tokens) (w w' : W)
      → IsFaithful m (rotate tok rec)
      → size nonce ≡ nonce_size
      → ((newer : StoredSession)
          → load m first.locked k w ≡ some newer
          → newer.access_expiry ≤ first.locked + m.refresh_skew)
      → refresh rec.refresh_token w ≡ (some tok, w')
      → first.stored < rec.session.expiry
      → (m.store.put k
          (seal_record m nonce (rotate tok rec))
          (rec.session.expiry - first.stored)
          first.stored
          w').0
        ≡ true
      → second.locked < rec.session.expiry
      → second.locked + m.refresh_skew < tok.expiry
      → let after = (locked_refresh m refresh first nonce k rec w).1 in
        locked_refresh m refresh second nonce' k held after
        ≡ (some (but_correlation (rotate tok rec)), after)
  unfolding locked_refresh fresh rotate
  locked_refresh-collapse refresh first second nonce nonce' k rec held tok w w' faithful fits old
        given alive stored in_time new =
      let after = locked_refresh-stale refresh first nonce k rec tok w w' old given alive in
      let loaded =
        load-put nonce k (rotate tok rec) (rec.session.expiry - first.stored) first.stored
          second.locked w' faithful fits stored (omega arith) in
      ground (arith, after, loaded)

  cookie_max_age-lasts : (n : ℕ) → (if eqb n 0 then none else some n) ≢ some 0
  cookie_max_age-lasts zero e = ground (arith, e)
  cookie_max_age-lasts (suc n) e = ground (arith, e)

  abbrev pub issued_cookie : String → Request → SetCookie
  issued_cookie id r = record {
    name = m.cfg.cookie_name;
    value = id;
    max_age = if eqb (m.cfg.ttl / second) 0 then none else some (m.cfg.ttl / second);
    secure = secure_from_request r;
  }

  issue-some :
      (nonce id : String) (r : Request) (idt : Identity) (userinfo : Dict Value) (tok : Tokens)
      (now : ℕ) (c : SetCookie) (w w' : W)
      → issue m now nonce id r idt userinfo tok w ≡ (some c, w')
      → let put =
          m.store.put
            (key m id)
            (seal_record m nonce (issued_record m now r idt userinfo tok))
            m.cfg.ttl
            now
            w in
        (put.0 ≡ true) × (put.1 ≡ w') × (issued_cookie id r ≡ c)
  unfolding issue
  issue-some nonce id r idt userinfo tok now c w w' e =
      let put =
        m.store.put (key m id) (seal_record m nonce (issued_record m now r idt userinfo tok))
          m.cfg.ttl now w in
      let answered = ap (λ p. p.0) e in
      elim (Bool-cases put.0) [
        | inl f ↦ (f, ap (λ p. p.1) e, some-injective _ _ (ground (arith, f, answered)))
        | inr f ↦ absurd (ground (arith, f, answered))
      ]

  -- A session that is issued and stored is read back, under its correlation id, by the browser's next request, whatever cookies
  -- the browser held, and the state is left alone: while neither the session nor its access token is near its end, if the
  -- fingerprint headers of both requests agree, JSON gives the record back, the nonce has its size and the id is not empty.
  pub read-issue_stored :
      (nonce nonce' id : String) (login next : Request) (idt : Identity) (userinfo : Dict Value)
      (tok : Tokens) (issued : ℕ) (at : Moments W) (c : SetCookie) (held : List Cookie) (w w' : W)
      → IsFaithful m (issued_record m issued login idt userinfo tok)
      → size nonce ≡ nonce_size
      → id ≢ ""
      → issue m issued nonce id login idt userinfo tok w ≡ (some c, w')
      → next.cookies ≡ accept (c ∷ []) held
      → compute_fingerprint m.hash m.cfg.fingerprint_headers login
        ≡ compute_fingerprint m.hash m.cfg.fingerprint_headers next
      → at.entry < issued + m.cfg.ttl
      → at.entry + m.refresh_skew ≤ tok.expiry
      → read m at nonce' next w' ≡ (
        ok (record (make_session m.lower m.hash issued m.cfg idt userinfo tok login) {
          correlation_id = correlation_id m id;
        }),
        w',
      )
  unfolding issue read read_id maybe_refresh make_session finish
  read-issue_stored nonce nonce' id login next idt userinfo tok issued at c held w w' faithful fits
        ne stored carried same alive valid =
      let rec = issued_record m issued login idt userinfo tok in
      let (put_ok, after, made) = issue-some nonce id login idt userinfo tok issued c w w' stored in
      let kept = cookie_max_age-lasts (m.cfg.ttl / second) in
      let found : cookie_named m.cfg.cookie_name next.cookies ≡ some id =
        ap (cookie_named m.cfg.cookie_name) (carried ∙ ap (λ d. accept (d ∷ []) held) (sym made))
        ∙ cookie_named-accept [] (issued_cookie id login) held kept in
      let loaded =
        load-put nonce (key m id) rec m.cfg.ttl issued at.entry w faithful fits put_ok alive in
      ground (arith, loaded, found, after)

  -- In the state that Clear leaves, before another request changes it, no request that carries the cleared cookie is
  -- answered a session, whatever the instant; if the store could delete it.
  pub read-clear_stored :
      (nonce id : String) (logout next : Request) (at : Moments W) (w : W)
      → cookie_named m.cfg.cookie_name logout.cookies ≡ some id
      → cookie_named m.cfg.cookie_name next.cookies ≡ some id
      → id ≢ ""
      → (m.store.delete (key m id) w).0 ≡ true
      → (read m at nonce next (clear m logout w).1).0 ≡ err invalid_session
  unfolding read read_id clear forget load
  read-clear_stored nonce id logout next at w out in_next ne deleted =
      ground (arith, reliable.lawful.fetch-delete (key m id) at.entry w deleted)
