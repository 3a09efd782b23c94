-- ===== src/Session/Cookie.antt =====
-- session/cookie.go: the chunked cookie, and the sealer. Values are base64url, so a code point is a
-- byte. AES-GCM and the random nonces are a parameter.
pub mod Chunks
pub mod RoundTrip
pub mod Sizes
pub mod Tossed
mod Tests
use hog.Base.{
  String, ◌<>◌, ℕ, zero, suc, ◌+◌, Bool, true, false, Option, none, some, List, [], ◌∷◌, ◌++◌,
}
use hog.Base.{◌==◌, eqb, is_some, length, if◌then◌else◌}
use hog.Base.Text
use hog.Base.Text.{size}
use hog.Base.Decimal.{show, parse_index}
use hog.Http.{Cookie, SetCookie}

abbrev pub max_chunk : ℕ
max_chunk = 3900

-- `fmt.Sprintf("%s.%d", name, i)`
pub chunk_name : String → ℕ → String
chunk_name name i = (name <> ".") <> show i

-- the loop of `writeChunkedCookie`
pub write_loop : ℕ → ℕ → String → String → Bool → List SetCookie
write_loop zero i name value secure = []
write_loop (suc f) i name value secure =
    let (chunk, rest) = Text.split_at max_chunk value in
    let later = write_loop f (i + 1) name rest secure in
    if value == ""
    then []
    else record { name = chunk_name name i; value = chunk; max_age = none; secure = secure } ∷ later

-- `writeChunkedCookie`: each round takes a character, so the length is fuel enough
unfoldable pub write_chunked : String → String → Bool → List SetCookie
unfolding write_loop chunk_name
write_chunked name value secure = write_loop (size value) 0 name value secure

-- `parts`, the newest entry first
abbrev pub Parts : Type 0
Parts = List (ℕ × String)

pub part : ℕ → Parts → Option String
part n [] = none
part n ((i, v) ∷ parts) = if eqb n i then some v else part n parts

-- the chunk's index, of a cookie with the prefix
pub index_of : String → String → Option ℕ
index_of prefix name =
    if Text.has_prefix name prefix then parse_index (Text.after_prefix name prefix) else none

abbrev put_part : Option ℕ → String → Parts → Parts
put_part none v parts = parts
put_part (some i) v parts = (i, v) ∷ parts

-- the loop over `r.Cookies()`
pub scan : String → List Cookie → Parts → Parts
scan prefix [] parts = parts
scan prefix (c ∷ cookies) parts =
    scan prefix cookies (put_part (index_of prefix c.name) c.value parts)

abbrev in_front : String → Option String → Option String
in_front v none = none
in_front v (some s) = some (v <> s)

-- the loop over the contiguous parts; none when the fuel runs out
pub run_from : ℕ → ℕ → Parts → Option String
run_from zero n parts = none
run_from (suc f) n parts = elim (part n parts) [
  | none ↦ some ""
  | some v ↦ in_front v (run_from f (n + 1) parts)
]

-- `readChunkedCookie`, with fuel for every part
unfoldable pub read_chunked : List Cookie → String → Option String
unfolding scan run_from part index_of
read_chunked cookies name =
    let parts = scan (name <> ".") cookies [] in
    if is_some (part 0 parts) then run_from (suc (length parts)) 0 parts else none

-- `clearChunkedCookie`
unfoldable pub clear_chunked : List Cookie → String → Bool → List SetCookie
clear_chunked [] name secure = []
clear_chunked (c ∷ cookies) name secure =
    let rest = clear_chunked cookies name secure in
    if Text.has_prefix c.name (name <> ".")
    then record { name = c.name; value = ""; max_age = some 0; secure = secure } ∷ rest
    else rest

-- What a browser sends back of the cookies that a response sets and does not expire.
abbrev pub jar : List SetCookie → List Cookie
jar [] = []
jar (c ∷ cs) = record { name = c.name; value = c.value } ∷ jar cs
