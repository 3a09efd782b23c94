-- ===== src/Chain/Guard.antt =====
-- What the gates of a route keep from its handler: a request that has no principal, or that the
-- route's policies deny.
use hog.Base.{String, Bool, true, Option, none, some, List, [], ◌∷◌, err, ◌≡◌, arith}
use hog.Http.{Request, Exchange, Handler}
use hog.Session.Principal.{from_context}
use hog.Session.Manager.{ReadError}
use hog.Session.Interface.{Manager}
use hog.Chain.{Middleware, Gates, compose, skeleton, or_reserved, request_id_mw}
use hog.Auth.Gates.{Urls, session_gate, auth_gate}

-- `Skeleton`
abbrev pub middlewares :
    {World : Type 0} → List (String × Middleware World) → List (Middleware World)
middlewares [] = []
middlewares ((name, mw) ∷ rest) = mw ∷ middlewares rest

-- A middleware that hands the request on as it is: it cannot tell handlers apart that treat it alike.
abbrev pub HandsOn : {World : Type 0} → Middleware World → Request → Type 0
HandsOn mw r =
    (next next' : Handler _)
    → ((x : Exchange _) → next r x ≡ next' r x)
    → (x : Exchange _) → mw next r x ≡ mw next' r x

module _ {World : Type 0} (urls : Urls) (is_app : Bool) (login_path : String)
    (m : Manager World) where
  turned_away :
      (behind behind' : Handler World) (r : Request) (x : Exchange World) (why : ReadError)
      → from_context r.context ≡ none
      → (m.read r x.world).0 ≡ err why
      → session_gate (some m) (auth_gate urls true is_app login_path behind) r x
        ≡ session_gate (some m) (auth_gate urls true is_app login_path behind') r x
  unfolding session_gate auth_gate
  turned_away behind behind' r x why anonymous refused = ground (arith, anonymous, refused)

  -- the gates of a route that needs a principal
  abbrev pub guarded : Option (Middleware World) → Option (Middleware World) → Gates World
  guarded authz projection = record {
    session = some (session_gate (some m));
    auth_gate = some (auth_gate urls true is_app login_path);
    authz = authz;
    projection = projection;
  }

  -- What stands behind the gates of a route that needs a principal, its policies and its handler,
  -- makes no difference to a request that carries no session: it is answered before any of it runs; if
  -- the middlewares that recover and log hand the request on as it is.
  pub skeleton-unauthenticated :
      (recover access_log : Middleware World) (drawn : String)
      (authz authz' projection projection' : Option (Middleware World))
      (terminal terminal' : Handler World) (r : Request) (x : Exchange World)
      → HandsOn recover r
      → HandsOn access_log r
      → from_context r.context ≡ none
      → ((w : World) → (why : ReadError) × ((m.read r w).0 ≡ err why))
      → compose terminal
          (middlewares (skeleton recover drawn access_log (guarded authz projection)))
          r
          x
        ≡ compose terminal'
            (middlewares (skeleton recover drawn access_log (guarded authz' projection')))
            r
            x
  unfolding compose skeleton or_reserved request_id_mw
  skeleton-unauthenticated recover access_log drawn authz authz' projection projection' terminal
        terminal' r x hand_on hand_on' anonymous refused =
      hand_on _ _
        (λ x1.
          hand_on' _ _
            (λ x2. let (why, e) = refused x2.world in turned_away _ _ r x2 why anonymous e) _)
        x
