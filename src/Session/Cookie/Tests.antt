-- ===== src/Session/Cookie/Tests.antt =====
-- A value in chunks, between other cookies and with one that was tossed.
use hog.Base.{
  ◌<>◌, true, false, some, [], ◌∷◌, ◌++◌, ◌≡◌, refl, length, arith, All, ◌≤◌, ◌<◌, ◌*◌, ◌+◌,
}
use hog.Base.Text
use hog.Base.Text.{size}
use text.Mathlib.TextLemmas.{cons≢nil}
use hog.Http.{Cookie}
use hog.Session.Cookie.{write_chunked, read_chunked, jar, max_chunk}
use hog.Session.Cookie.Sizes.{Fits, write_chunked-Fits}
use hog.Session.Cookie.RoundTrip.{read_chunked-write_chunked}
use hog.Session.Cookie.Tossed.{read_chunked_tossed, toss}

abbrev theme : Cookie
theme = record { name = "theme"; value = "dark" }

not_chunk : Text.has_prefix "theme" "hog_session." ≡ false
unfolding Text.has_prefix
not_chunk = refl

read_chunked-write_chunked_example :
    read_chunked
      ((theme ∷ []) ++ (jar (write_chunked "hog_session" "sealed" true) ++ []))
      "hog_session"
    ≡ some "sealed"
read_chunked-write_chunked_example =
    read_chunked-write_chunked "hog_session" "sealed" true (theme ∷ []) [] (not_chunk, tt) tt
      (λ e. cons≢nil e) (omega arith)

read_chunked_tossed_example :
    read_chunked
      (jar (write_chunked "hog_session" "sealed" true)
        ++ (toss "hog_session" (length (write_chunked "hog_session" "sealed" true)) "x" ∷ []))
      "hog_session"
    ≡ some ("sealed" <> "x")
read_chunked_tossed_example =
    read_chunked_tossed "hog_session" "sealed" "x" true (λ e. cons≢nil e) (omega arith)

write_chunked-Fits_example :
    All Fits (write_chunked "hog_session" "sealed" true)
    × (size "sealed" ≤ max_chunk * length (write_chunked "hog_session" "sealed" true))
    × (max_chunk * length (write_chunked "hog_session" "sealed" true) < size "sealed" + max_chunk)
write_chunked-Fits_example = write_chunked-Fits "hog_session" "sealed" true
