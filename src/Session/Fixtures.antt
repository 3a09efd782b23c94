-- ===== src/Session/Fixtures.antt =====
-- What the tests of the managers and of the sign-in run with: a toy cipher, which writes the additional data
-- and the text in the clear, and a store in a list.
use Prim.Native.Char.{char, code}
use Prim.Native.String as S
use hog.Base.{
  String, true, Option, none, some, ◌≡◌, ◌≢◌, refl, sym, arith, eqb, ◌&&◌, if◌then◌else◌, Result,
  ok, err,
}
use mathlib.Core.Path.{ap₂}
use hog.Base.Text.{char_eq}
use hog.Base.Dict
use hog.Base.Dict.{Dict}
use text.Mathlib.TextEquality.{Char-path}
use hog.Session.Sealer.{Aead, IsSound}
use hog.Session.State.{StateStore, StoreError, state_not_found, IsLawful}

-- "1" and a character of the additional data, as often as it has one, then "0" and the text
unfoldable pub write_clear : String → String → String
write_clear S.[] plain = S.◌∷◌ (char 48 tt) plain
write_clear (S.◌∷◌ c aad) plain = S.◌∷◌ (char 49 tt) (S.◌∷◌ c (write_clear aad plain))

unfoldable pub read_clear : String → String → Option String
read_clear S.[] S.[] = none
read_clear S.[] (S.◌∷◌ d s) = if eqb (code d) 48 then some s else none
read_clear (S.◌∷◌ c aad) S.[] = none
read_clear (S.◌∷◌ c aad) (S.◌∷◌ d S.[]) = none
read_clear (S.◌∷◌ c aad) (S.◌∷◌ d (S.◌∷◌ e s)) =
    let rest = read_clear aad s in if eqb (code d) 49 && char_eq c e then rest else none

abbrev pub toy_aead : Aead
toy_aead = record {
  encode = λ s. s;
  decode = λ s. some s;
  encrypt = λ key nonce plain aad. write_clear aad plain;
  decrypt = λ key nonce text aad. read_clear aad text;
}

read_clear-write_clear : (aad plain : String) → read_clear aad (write_clear aad plain) ≡ some plain
unfolding read_clear write_clear
read_clear-write_clear S.[] plain = refl
read_clear-write_clear (S.◌∷◌ c aad) plain = ground (arith, read_clear-write_clear aad plain)

read_clear-other :
    (aad aad' plain : String) → aad ≢ aad' → read_clear aad' (write_clear aad plain) ≡ none
unfolding read_clear write_clear
read_clear-other S.[] S.[] plain ne = absurd (ne refl)
read_clear-other S.[] (S.◌∷◌ c aad') S.[] ne = refl
read_clear-other S.[] (S.◌∷◌ c aad') (S.◌∷◌ d s) ne = refl
read_clear-other (S.◌∷◌ c aad) S.[] plain ne = refl
read_clear-other (S.◌∷◌ c aad) (S.◌∷◌ d aad') plain ne = ground (
  arith,
  λ (e : code d ≡ code c).
      read_clear-other aad aad' plain (λ f. ne (ap₂ S.◌∷◌ (sym (Char-path d c e)) f)),
)

pub toy_aead-IsSound : IsSound toy_aead
toy_aead-IsSound = record {
  decode-encode = λ s. refl;
  decrypt-encrypt = λ key nonce plain aad. read_clear-write_clear aad plain;
  other_aad = λ key nonce plain aad aad' ne. read_clear-other aad aad' plain ne;
}

abbrev found : Option String → Result StoreError String
found none = err state_not_found
found (some v) = ok v

abbrev pub list_store : StateStore (Dict String)
list_store = record {
  fetch = λ key now w. found (Dict.lookup key w);
  put = λ key value ttl now w. (true, Dict.insert key value w);
  delete = λ key w. (true, Dict.erase key w);
}

pub list_store-IsLawful : IsLawful list_store
list_store-IsLawful = record {
  fetch-put = λ key value ttl now later w _ _. rw Dict.lookup-insert (ground arith);
  fetch-delete = λ key now w _. rw Dict.lookup-erase (ground arith);
}
