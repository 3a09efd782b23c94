-- ===== src/Session/Manager/SignedOut.antt =====
-- Once the stateless session is cleared, the browser's next request carries none.
use mathlib.Core.List.{append-nil}
use hog.Base.{String, ◌<>◌, ℕ, ◌≡◌, ◌∙◌, sym, ap, refl, arith, none, List, [], All, err}
use hog.Http.{Request, Cookie}
use hog.Session.Cookie.{read_chunked, scan}
use hog.Session.Cookie.Chunks.{IsOther, scan-others}
use hog.Session.Record.{Config, secure_from_request}
use hog.Session.Manager.{Platform, clear, read, no_session}
use hog.Session.Manager.Browser.{accept, accept-clear_chunked}

read_chunked-others :
    (name : String) (cs : List Cookie) → All (IsOther name) cs → read_chunked cs name ≡ none
unfolding read_chunked
read_chunked-others name cs h =
    let scanned =
      ap (λ l. scan (name <> ".") l []) (sym (append-nil cs)) ∙ scan-others name cs [] [] h in
    rw scanned refl

-- After `Clear`, the browser's next request is read as one without a session, whatever chunks it held.
pub read-clear :
    (p : Platform) (cfg : Config) (logout next : Request) (now : ℕ)
    → next.cookies ≡ accept (clear p cfg logout) logout.cookies
    → read p cfg now next ≡ err no_session
unfolding read clear
read-clear p cfg logout next now kept =
    let gone =
      ap (λ cs. read_chunked cs cfg.cookie_name) kept
      ∙ read_chunked-others cfg.cookie_name _
          (accept-clear_chunked cfg.cookie_name (secure_from_request logout) logout.cookies) in
    ground (arith, gone)
