-- ===== src/Session/State/Refresh.antt =====
-- What a read through the server-side manager may answer, and when a session is lost.
use hog.Base.{String, ℕ, ◌≤◌, ◌<◌, Option, none, some, ◌≡◌, ◌≢◌, refl, sym, ap, ◌∙◌, arith}
use hog.Base.{ok, Option-cases, inl, inr}
use mathlib.Core.Option.{some-injective}
use hog.Http.{Request}
use hog.Session.Record.{Session, Tokens, compute_fingerprint}
use hog.Session.State.{StoredSession, StateManager, Moments, key, correlation_id, load}
use hog.Session.State.{
  rotate, fresh, renewed, finish, locked_refresh, maybe_refresh, read, read_id, cookie_named,
}

-- The session without its access token.
abbrev pub but_token : Session → Session
but_token s = record s { access_token = "" }

abbrev pub IsSameSession : Session → Session → Type 0
IsSameSession a b = but_token a ≡ but_token b

rotate-IsSameSession :
    (tok : Tokens) (rec : StoredSession) → IsSameSession (rotate tok rec).session rec.session
unfolding rotate
rotate-IsSameSession tok rec = refl

module _ {W : Type 0} (m : StateManager W) (at : Moments W) (nonce : String) where
  -- What is stored under the key when the lock is acquired is the same session.
  abbrev pub IsKept : String → StoredSession → W → Type 0
  IsKept k rec w =
      (newer : StoredSession)
      → load m at.locked k (at.others w) ≡ some newer
      → IsSameSession newer.session rec.session

  fresh-some :
      (now : ℕ) (o : Option StoredSession) (newer : StoredSession)
      → fresh m now o ≡ some newer
      → o ≡ some newer
  unfolding fresh
  fresh-some now none newer e = cc
  fresh-some now (some rec) newer e = ground arith

  renewed-same :
      (k : String) (rec kept : StoredSession) (answer : Option Tokens × W)
      → (renewed m at nonce k rec answer).0 ≡ some kept
      → IsSameSession kept.session rec.session
  unfolding renewed rotate
  renewed-same k rec kept (none, w) e = ground arith
  renewed-same k rec kept (some tok, w) e =
      sym (ap but_token (ap (λ o. o.session) (some-injective _ _ e)))

  same_locked :
      (refresh : String → W → Option Tokens × W) (k : String) (rec kept : StoredSession) (w : W)
      → ((newer : StoredSession)
          → load m at.locked k w ≡ some newer
          → IsSameSession newer.session rec.session)
      → (locked_refresh m refresh at nonce k rec w).0 ≡ some kept
      → IsSameSession kept.session rec.session
  unfolding locked_refresh
  same_locked refresh k rec kept w h e =
      elim (Option-cases (fresh m at.locked (load m at.locked k w))) [
        | inr (newer, f) ↦
            h kept
              (fresh-some at.locked (load m at.locked k w) kept (f ∙ rw (f, locked_refresh) at e))
        | inl f ↦
            renewed-same k rec kept (refresh rec.refresh_token w) (rw (f, locked_refresh) at e)
      ]

  itself :
      (rec kept : StoredSession) → some rec ≡ some kept → IsSameSession kept.session rec.session
  itself rec kept same = sym (ap (λ o. but_token o.session) (some-injective _ _ same))

  same_refresh :
      (k : String) (rec kept : StoredSession) (w : W)
      → IsKept k rec w
      → (maybe_refresh m at nonce k rec w).0 ≡ some kept
      → IsSameSession kept.session rec.session
  unfolding maybe_refresh
  same_refresh k rec kept w h e = elim (Option-cases m.refresh) [
    | inl f ↦ itself rec kept (rw (f, maybe_refresh) at e)
    | inr (refresh, f) ↦
        ground (arith, same_locked refresh k rec kept (at.others w) h, itself rec kept)
  ]

  renewed-alive :
      (k : String) (rec : StoredSession) (answer : Option Tokens × W)
      → at.failed < rec.access_expiry
      → (renewed m at nonce k rec answer).0 ≢ none
  unfolding renewed
  renewed-alive k rec (none, w) h e = ground arith
  renewed-alive k rec (some tok, w) h e = cc

  -- A refresh gives the session up only when there is a refresh token, and the access token is dead.
  pub maybe_refresh-alive :
      (k : String) (rec : StoredSession) (w : W)
      → at.failed < rec.access_expiry
      → (maybe_refresh m at nonce k rec w).0 ≢ none
  unfolding maybe_refresh locked_refresh
  maybe_refresh-alive k rec w alive e = ground (arith, renewed-alive k rec)

  finish-same :
      (id : String) (rec : StoredSession) (s : Session) (answer : Option StoredSession × W)
      → ((kept : StoredSession) → answer.0 ≡ some kept → IsSameSession kept.session rec.session)
      → (finish m id answer).0 ≡ ok s
      → s
        ≡ record rec.session { access_token = s.access_token; correlation_id = correlation_id m id }
  unfolding finish
  finish-same id rec s (none, w) h e = ground arith
  finish-same id rec s (some kept, w) h e = ground (
    arith,
    ap
        (λ (b : Session). record b {
          access_token = s.access_token;
          correlation_id = correlation_id m id;
        })
        (h kept refl),
  )

  -- what a session that is read owes to the record it was read from
  abbrev pub IsReadFrom : Request → String → StoredSession → Session → Type 0
  IsReadFrom r id rec s =
      (at.entry ≤ rec.session.expiry)
      × (rec.session.fingerprint ≡ compute_fingerprint m.hash m.cfg.fingerprint_headers r)
      × (s ≡ record rec.session {
        access_token = s.access_token;
        correlation_id = correlation_id m id;
      })

  read_id-stored :
      (r : Request) (id : String) (rec : StoredSession) (s : Session) (w : W)
      → load m at.entry (key m id) w ≡ some rec
      → IsKept (key m id) rec w
      → (read_id m at nonce r id w).0 ≡ ok s
      → IsReadFrom r id rec s
  unfolding read_id
  read_id-stored r id rec s w held kept e =
      let same = λ (k : StoredSession). same_refresh (key m id) rec k w kept in
      ground (arith, finish-same id rec s (maybe_refresh m at nonce (key m id) rec w) same)

  -- A read that answers a session answers one that the store holds under the request's cookie: it had not
  -- expired, the request's fingerprint is its own, and a refresh, should one have happened, changed
  -- no more than the access token; if no other request replaced the session meanwhile.
  pub read-stored :
      (r : Request) (s : Session) (w : W)
      → ((id : String) (rec : StoredSession)
          → load m at.entry (key m id) w ≡ some rec
          → IsKept (key m id) rec w)
      → (read m at nonce r w).0 ≡ ok s
      → (id : String) × (rec : StoredSession) × (cookie_named m.cfg.cookie_name r.cookies ≡ some id)
        × (load m at.entry (key m id) w ≡ some rec)
        × IsReadFrom r id rec s
  unfolding read
  read-stored r s w kept e = elim (Option-cases (cookie_named m.cfg.cookie_name r.cookies)) [
    | inl f ↦ absurd (ground (arith, f))
    | inr (id, f) ↦ elim (Option-cases (load m at.entry (key m id) w)) [
      | inl g ↦ absurd (ground arith)
      | inr (rec, g) ↦ (id, rec, f, g, read_id-stored r id rec s w g (kept id rec g) (ground arith))
    ]
  ]
