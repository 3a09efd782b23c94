-- ===== src/Session/Cookie/RoundTrip.antt =====
-- session/cookie.go: a sealed value that is written in chunks and read back.

use mathlib.Core.Path.{ap}
use mathlib.Core.List.{append-nil}
use hog.Base.{sym, String, ◌<>◌, ◌≤◌, ◌^◌, ◌≡◌, ◌∙◌, ◌≢◌, arith}
use hog.Base.{Bool, some, List, [], ◌++◌, All}
use hog.Base.Text.{size}
use hog.Http.{Cookie}
use hog.Session.Cookie.{write_chunked}
use hog.Session.Cookie.{scan, read_chunked, jar}
use hog.Session.Cookie.Chunks.{
  chunks, concat-chunks, entries, scan-numbered, length-chunks, chunks-ne, run_from-pieces,
  write_loop-numbered, scan-others, IsOther,
}

module _ (name value : String) (secure : Bool) where
  abbrev pieces : List String
  pieces = chunks (size value) value

  scan-write_chunked :
      (before after : List Cookie)
      → All (IsOther name) before
      → All (IsOther name) after
      → size value ≤ 2 ^ 63
      → scan (name <> ".") (before ++ (jar (write_chunked name value secure) ++ after)) []
        ≡ entries 0 pieces []
  unfolding write_chunked chunks scan
  scan-write_chunked before after hb ha h =
      scan-others name before _ [] hb
      ∙ (rw write_loop-numbered (
            scan-numbered pieces 0 name secure after []
              (omega (arith, length-chunks (size value) value)))
          ∙ (ap (λ r. scan (name <> ".") r (entries 0 pieces [])) (sym (append-nil after))
              ∙ scan-others name after [] (entries 0 pieces []) ha))

  -- A value that is not empty and no longer than 2 ^ 63, written in chunks, is read back whole from a request that carries the
  -- chunks between any cookies that do not have the chunks' prefix.
  pub read_chunked-write_chunked :
      (before after : List Cookie)
      → All (IsOther name) before
      → All (IsOther name) after
      → value ≢ ""
      → size value ≤ 2 ^ 63
      → read_chunked (before ++ (jar (write_chunked name value secure) ++ after)) name ≡ some value
  unfolding read_chunked
  read_chunked-write_chunked before after hb ha n h =
      let (c, cs, e) = chunks-ne (size value) value n (omega arith) in
      let (found, whole) = run_from-pieces c cs in
      let scanned = rw e at (scan-write_chunked before after hb ha h) in
      let joined = rw e at (concat-chunks (size value) value (omega arith)) in
      rw (scanned, found) (whole ∙ ap some joined)
