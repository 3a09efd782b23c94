-- ===== src/Auth/Endpoints/SignIn.antt =====
-- What a callback asks of the browser, and that a sign-in which was started completes.
use hog.Base.{String, some}
use hog.Base.{◌≡◌, ◌⊎◌, inl, inr, refl, sym, arith, Option-cases, String-discrete}
use hog.Http.{Request, SetCookie, Exchange}
use hog.Base.{Result, ok, err}
use hog.Session.Manager.{ReadError}
use hog.Session.Record.{Session, secure_from_request}
use hog.Auth.LoginState.{LoginState, seal_login_state, open_login_state}
use hog.Auth.Endpoints.{
  Handlers, callback, with_cookie, with_state, reject_callback, rejected, login_cookie_of,
  login_cookie_name, login_ttl, started,
}

module _ {World : Type 0} (h : Handlers World) where
  -- The browser carries the sealed login state of this very sign-in: its cookie opens, and its state is the
  -- callback's.
  abbrev pub IsStarted : Request → Type 0
  IsStarted r =
      (name : String) × (value : String) × (ls : LoginState) × (login_cookie_of h
          (h.query r.uri "state") r.cookies
        ≡ some (name, value))
      × (open_login_state h.codec h.aead h.key value ≡ some ls)
      × (ls.state ≡ h.query r.uri "state")

  reject_callback-world :
      (msg : String) (r : Request) (x : Exchange World)
      → (reject_callback h msg r x).world ≡ (h.sess.read r x.world).1
  unfolding reject_callback
  reject_callback-world msg r x = of_answer (h.sess.read r x.world)
    where
      of_answer : (a : Result ReadError Session × World) → (rejected h msg a x.writer).world ≡ a.1
      of_answer (ok s, w) = refl
      of_answer (err e, w) = refl

  -- A callback of a sign-in that this browser did not start asks nothing of the identity provider and issues no
  -- session: all it does to the state is what reading the session does, or nothing.
  pub callback-forged :
      (r : Request) (x : Exchange World)
      → ¬ IsStarted r
      → ((callback h r x).world ≡ x.world) ⊎ ((callback h r x).world ≡ (h.sess.read r x.world).1)
  unfolding callback with_cookie with_state
  callback-forged r x forged =
      let state = h.query r.uri "state" in
      elim (Option-cases (login_cookie_of h state r.cookies)) [
        | inl f ↦ inr (
            ground
              (arith, f, reject_callback-world "login session expired; please restart sign-in" r x))
        | inr ((name, value), f) ↦
            elim (Option-cases (open_login_state h.codec h.aead h.key value)) [
              | inl g ↦ inr (
                  ground (
                    arith,
                    f,
                    g,
                    reject_callback-world "login session invalid; please restart sign-in" r x,
                  ))
              | inr (ls, g) ↦ elim (String-discrete state ls.state) [
                | yes e ↦ absurd (forged (name, value, ls, f, g, sym e))
                | no n ↦ elim (String-discrete (h.query r.uri "error") "") [
                  | no m ↦ inl (ground (arith, f, g, m))
                  | yes e ↦ inr (
                      ground (
                        arith,
                        f,
                        g,
                        e,
                        n,
                        reject_callback-world "invalid authentication response" r x,
                      ))
                ]
              ]
            ]
      ]

  -- what `Login` sets: the cookie of this sign-in, last
  abbrev sign_in_cookie : String → String → String → String → Request → SetCookie
  sign_in_cookie state nonce verifier seal_nonce start = record {
    name = login_cookie_name h state;
    value = seal_login_state h.codec h.aead h.key seal_nonce (started h state nonce verifier start);
    max_age = some login_ttl;
    secure = secure_from_request start;
  }
