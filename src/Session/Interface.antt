-- ===== src/Session/Interface.antt =====
-- The `Manager` interface of session/manager.go, over the state that managers and providers change,
-- with `InfoHandler` of session/info.go.
use hog.Base.{String, ◌<>◌, Option, List, Result, ok, err, ◌==◌, not, if◌then◌else◌}
use hog.Base.Dict.{Dict}
use hog.Http.{Request, SetCookie, Handler, writing, set_header, error}
use hog.Session.Value.{Value}
use hog.Session.Record.{Session, Identity, Tokens}
use hog.Session.Manager.{ReadError}

-- `Manager`; an `issue` that fails is none
pub record Manager (World : Type 0) : Type 0 where
  pub read : Request → World → Result ReadError Session × World
  pub issue : Request → Identity → Dict Value → Tokens → World → Option (List SetCookie) × World
  pub clear : Request → World → List SetCookie × World

-- `InfoHandler`; `view` is the JSON of `PublicView`
unfoldable pub info_handler : {World : Type 0} → Manager World → (Session → String) → Handler World
info_handler m view r x =
    if not (r.method == "GET")
    then writing (λ w. error "method not allowed" 405 (set_header "Allow" "GET" w)) x
    else (let (answer, world) = m.read r x.world in
        record {
          world = world;
          writer = elim answer [
            | err _ ↦ error "unauthorized" 401 x.writer
            | ok s ↦
                let w = set_header "Content-Type" "application/json" x.writer in
                record w { body = w.body <> view s }
          ];
        })
