-- ===== src/Session/Cookie/Chunks.antt =====
-- The chunks that the write loop cuts, and what the read loop makes of them.
use Prim.Native.String as S
use mathlib.Core.Path.{ap}
use hog.Base.{String, ◌<>◌, ℕ, zero, suc, ◌+◌, ◌≤◌, ◌<◌, ◌^◌, ◌≡◌, refl, ◌∙◌, ◌≢◌, arith}
use hog.Base.{
  String-discrete, Bool, true, false, Option, none, some, List, [], ◌∷◌, ◌++◌, length,
  if◌then◌else◌, All, ◌==◌, is_some,
}
use hog.Base.Text
use hog.Base.Text.{size}
use hog.Base.Decimal.{show, parse_index-show}
use hog.Http.{Cookie, SetCookie}
use hog.Session.Cookie.{max_chunk, chunk_name, write_loop, Parts, part, index_of}
use hog.Session.Cookie.{scan, run_from, read_chunked, jar}

pub has_prefix-chunk_name :
    (name : String) (i : ℕ) → Text.has_prefix (chunk_name name i) (name <> ".") ≡ true
unfolding chunk_name
has_prefix-chunk_name name i = Text.has_prefix_self (name <> ".") (show i)

pub index_of-chunk_name :
    (name : String) (i : ℕ) → i < 2 ^ 63 → index_of (name <> ".") (chunk_name name i) ≡ some i
unfolding index_of chunk_name
index_of-chunk_name name i h =
    rw (Text.has_prefix_self (name <> ".") (show i), Text.after_prefix_self (name <> ".") (show i))
      (parse_index-show i h)

-- The cookies of a list of chunks, numbered from `i`.
abbrev pub numbered : ℕ → String → Bool → List String → List SetCookie
numbered i name secure [] = []
numbered i name secure (c ∷ cs) =
    record { name = chunk_name name i; value = c; max_age = none; secure = secure }
    ∷ numbered (i + 1) name secure cs

-- The chunks that the loop cuts.
unfoldable pub chunks : ℕ → String → List String
chunks zero value = []
chunks (suc f) value =
    let rest = chunks f (Text.split_at max_chunk value).1 in
    if value == "" then [] else (Text.split_at max_chunk value).0 ∷ rest

pub write_loop-numbered :
    (f i : ℕ) (name value : String) (secure : Bool)
    → write_loop f i name value secure ≡ numbered i name secure (chunks f value)
unfolding write_loop chunks
write_loop-numbered zero i name value secure = refl
write_loop-numbered (suc f) i name value secure =
    ground (arith, write_loop-numbered f (i + 1) name (Text.split_at max_chunk value).1 secure)

abbrev pub concat : List String → String
concat [] = ""
concat (c ∷ cs) = c <> concat cs

pub concat-chunks : (f : ℕ) (value : String) → size value ≤ f → concat (chunks f value) ≡ value
unfolding chunks
concat-chunks zero S.[] h = refl
concat-chunks zero (S.◌∷◌ c s) h = absurd (omega arith)
concat-chunks (suc f) value h = elim (String-discrete value "") [
  | yes e ↦ ground arith
  | no n ↦
      let ih =
        concat-chunks f (Text.split_at max_chunk value).1
          (omega (arith, Text.split_at_shorter 3899 value n)) in
      ground (arith, ih, Text.split_at_join max_chunk value)
]

pub length-chunks : (f : ℕ) (value : String) → length (chunks f value) ≤ f
unfolding chunks
length-chunks zero value = omega arith
length-chunks (suc f) value = ground (arith, length-chunks f (Text.split_at max_chunk value).1)

-- The value at an index that the list reaches, and else another.
abbrev at_or : List String → ℕ → Option String → Option String
at_or [] j d = d
at_or (c ∷ cs) zero d = some c
at_or (c ∷ cs) (suc j) d = at_or cs j d

-- The parts after the chunks are read in.
abbrev pub entries : ℕ → List String → Parts → Parts
entries i [] acc = acc
entries i (c ∷ cs) acc = entries (i + 1) cs ((i, c) ∷ acc)

pub scan-numbered :
    (cs : List String) (i : ℕ) (name : String) (secure : Bool) (rest : List Cookie) (acc : Parts)
    → i + length cs ≤ 2 ^ 63
    → scan (name <> ".") (jar (numbered i name secure cs) ++ rest) acc
      ≡ scan (name <> ".") rest (entries i cs acc)
unfolding scan
scan-numbered [] i name secure rest acc h = refl
scan-numbered (c ∷ cs) i name secure rest acc h =
    rw (index_of-chunk_name name i (omega arith), scan)
      (scan-numbered cs (i + 1) name secure rest ((i, c) ∷ acc) (omega arith))

part-entries_below :
    (cs : List String) (i j : ℕ) (acc : Parts) → j < i → part j (entries i cs acc) ≡ part j acc
unfolding part
part-entries_below [] i j acc h = refl
part-entries_below (c ∷ cs) i j acc h =
    part-entries_below cs (i + 1) j ((i, c) ∷ acc) (omega arith) ∙ ground arith

pub part-entries :
    (cs : List String) (i j : ℕ) (acc : Parts)
    → part (i + j) (entries i cs acc) ≡ at_or cs j (part (i + j) acc)
unfolding part
part-entries [] i j acc = refl
part-entries (c ∷ cs) i zero acc =
    part-entries_below cs (i + 1) (i + 0) ((i, c) ∷ acc) (omega arith) ∙ ground arith
part-entries (c ∷ cs) i (suc j) acc =
    let same : i + suc j ≡ i + 1 + j = omega arith in
    rw same (part-entries cs (i + 1) j ((i, c) ∷ acc) ∙ ap (at_or cs j) (ground arith))

length-entries :
    (cs : List String) (i : ℕ) (acc : Parts) → length (entries i cs acc) ≡ length cs + length acc
length-entries [] i acc = omega arith
length-entries (c ∷ cs) i acc = omega (arith, length-entries cs (i + 1) ((i, c) ∷ acc))

-- A cookie that is not one of this name's chunks.
abbrev pub IsOther : String → Cookie → Type 0
IsOther name c = Text.has_prefix c.name (name <> ".") ≡ false

pub scan-others :
    (name : String) (cs rest : List Cookie) (acc : Parts)
    → All (IsOther name) cs
    → scan (name <> ".") (cs ++ rest) acc ≡ scan (name <> ".") rest acc
unfolding scan index_of
scan-others name [] rest acc h = refl
scan-others name (c ∷ cs) rest acc (o, h) = rw (o, scan) (scan-others name cs rest acc h)

run_from-entries :
    (cs : List String) (f n : ℕ) (parts : Parts)
    → length cs < f
    → ((j : ℕ) → part (n + j) parts ≡ at_or cs j none)
    → run_from f n parts ≡ some (concat cs)
unfolding run_from
run_from-entries cs zero n parts h e = absurd (omega arith)
run_from-entries [] (suc f) n parts h e =
    let z : n + 0 ≡ n = omega arith in
    let here : part n parts ≡ none = rw z at (e 0) in ground (arith, here)
run_from-entries (c ∷ cs) (suc f) n parts h e =
    let z : n + 0 ≡ n = omega arith in
    let here : part n parts ≡ some c = rw z at (e 0) in
    let ih =
      run_from-entries cs f (n + 1) parts (omega arith)
        (λ j. let same : n + suc j ≡ n + 1 + j = omega arith in rw same at (e (suc j))) in
    ground (arith, here, ih)

pub chunks-ne :
    (f : ℕ) (value : String)
    → value ≢ ""
    → size value ≤ f
    → (c : String) × (cs : List String) × (chunks f value ≡ c ∷ cs)
unfolding chunks
chunks-ne zero S.[] n h = absurd (n refl)
chunks-ne zero (S.◌∷◌ c s) n h = absurd (omega arith)
chunks-ne (suc f) value n h =
    ((Text.split_at max_chunk value).0, chunks f (Text.split_at max_chunk value).1, ground arith)

pub run_from-pieces :
    (c : String) (cs : List String)
    → (is_some (part 0 (entries 0 (c ∷ cs) [])) ≡ true)
      × (run_from (suc (length (entries 0 (c ∷ cs) []))) 0 (entries 0 (c ∷ cs) [])
          ≡ some (concat (c ∷ cs)))
unfolding part
run_from-pieces c cs = (
  ground (arith, part-entries (c ∷ cs) 0 0 []),
  run_from-entries (c ∷ cs) _ 0 _ (omega (arith, length-entries (c ∷ cs) 0 []))
      (λ j. part-entries (c ∷ cs) 0 j []),
)

-- A request whose parts are those of a list of chunks gives their concatenation.
pub read_chunked-entries :
    (cookies : List Cookie) (name c : String) (cs : List String)
    → scan (name <> ".") cookies [] ≡ entries 0 (c ∷ cs) []
    → read_chunked cookies name ≡ some (concat (c ∷ cs))
unfolding read_chunked
read_chunked-entries cookies name c cs e =
    let (found, whole) = run_from-pieces c cs in rw (e, found) whole
