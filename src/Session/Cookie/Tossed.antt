-- ===== src/Session/Cookie/Tossed.antt =====
-- A cookie with the next index, which another site of the domain may set, joins the value.
use text.Mathlib.TextLemmas as T
use mathlib.Core.List.{append-nil}
use hog.Base.{String, ◌<>◌, ℕ, suc, ◌+◌, ◌≤◌, ◌<◌, ◌^◌, ◌≡◌, refl, ◌∙◌, ap, ◌≢◌, arith, sym}
use hog.Base.{Bool, some, List, [], ◌∷◌, ◌++◌, length}
use hog.Base.Text.{size}
use hog.Http.{Cookie}
use hog.Session.Cookie.{chunk_name, write_chunked, read_chunked, jar, scan}
use hog.Session.Cookie.Chunks.{numbered, concat, concat-chunks, scan-numbered}
use hog.Session.Cookie.Chunks.{length-chunks, chunks-ne, read_chunked-entries, write_loop-numbered}

abbrev pub toss : String → ℕ → String → Cookie
toss name i v = record { name = chunk_name name i; value = v }

jar-toss :
    (cs : List String) (i : ℕ) (name v : String) (secure : Bool)
    → jar (numbered i name secure cs) ++ (toss name (i + length cs) v ∷ [])
      ≡ jar (numbered i name secure (cs ++ (v ∷ [])))
jar-toss [] i name v secure = let z : i + 0 ≡ i = omega arith in rw z
jar-toss (c ∷ cs) i name v secure =
    let same : i + suc (length cs) ≡ i + 1 + length cs = omega arith in
    rw same (
      ap (◌∷◌ (record { name = chunk_name name i; value = c })) (jar-toss cs (i + 1) name v secure))

concat-append_one : (cs : List String) (v : String) → concat (cs ++ (v ∷ [])) ≡ concat cs <> v
concat-append_one [] v = T.append-nil v ∙ sym (T.nil-append v)
concat-append_one (c ∷ cs) v = ap (◌<>◌ c) (concat-append_one cs v) ∙ sym (T.append_assoc c _ v)

length-append_one : (cs : List String) (v : String) → length (cs ++ (v ∷ [])) ≡ length cs + 1
length-append_one [] v = refl
length-append_one (c ∷ cs) v = omega (arith, length-append_one cs v)

length-numbered :
    (cs : List String) (i : ℕ) (name : String) (secure : Bool)
    → length (numbered i name secure cs) ≡ length cs
length-numbered [] i name secure = refl
length-numbered (c ∷ cs) i name secure = ap suc (length-numbered cs (i + 1) name secure)

read_numbered_tossed :
    (c : String) (cs : List String) (k : ℕ) (name v : String) (secure : Bool)
    → k ≡ length (c ∷ cs)
    → k < 2 ^ 63
    → read_chunked (jar (numbered 0 name secure (c ∷ cs)) ++ (toss name k v ∷ [])) name
      ≡ some (concat (c ∷ cs) <> v)
unfolding scan
read_numbered_tossed c cs k name v secure e h =
    let same : k ≡ 0 + length (c ∷ cs) = omega arith in
    let more : List Cookie = jar (numbered 0 name secure ((c ∷ cs) ++ (v ∷ []))) in
    let scanned =
      scan-numbered ((c ∷ cs) ++ (v ∷ [])) 0 name secure [] []
        (omega (arith, length-append_one (c ∷ cs) v)) in
    rw (same, jar-toss (c ∷ cs) 0 name v secure)
      (read_chunked-entries more name c (cs ++ (v ∷ []))
          (ap (λ r. scan (name <> ".") r []) (sym (append-nil more)) ∙ scanned)
        ∙ ap some (concat-append_one (c ∷ cs) v))

-- A value that is not empty and shorter than 2 ^ 63, written in chunks, is read with whatever a further cookie of the next index holds put
-- behind it, so such a cookie changes what is opened, unless it is empty.
pub read_chunked_tossed :
    (name value v : String) (secure : Bool)
    → value ≢ ""
    → size value < 2 ^ 63
    → read_chunked
        (jar (write_chunked name value secure)
          ++ (toss name (length (write_chunked name value secure)) v ∷ []))
        name
      ≡ some (value <> v)
unfolding write_chunked
read_chunked_tossed name value v secure n h =
    let (c, cs, e) = chunks-ne (size value) value n (omega arith) in
    let joined = rw e at (concat-chunks (size value) value (omega arith)) in
    let bound : length (c ∷ cs) ≤ size value = rw e at (length-chunks (size value) value) in
    let count = length-numbered (c ∷ cs) 0 name secure in
    rw (write_loop-numbered, e)
      (read_numbered_tossed c cs _ name v secure count (omega arith)
        ∙ ap (λ x. some (x <> v)) joined)
