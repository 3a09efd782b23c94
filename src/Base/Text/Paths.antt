-- ===== src/Base/Text/Paths.antt =====
-- Go's `path` package: `Clean`, `Join`, `Ext` and `Base`.
use Prim.Native.Char.{code}
use Prim.Native.String as S
use Prim.Native.String.{String, ◌++◌ as ◌<>◌}
use mathlib.Core.Bool.{Bool, ◌&&◌, ◌||◌, not}
use mathlib.Core.List.{List, [], ◌∷◌}
use mathlib.Core.Path.{◌≡◌, refl}
use hog.Base.Tests.{eqb, ◌==◌, if◌then◌else◌, String-discrete}
use hog.Base.Text.{has_prefix, split, join}

-- `xs` reversed, in front of `ys`
abbrev pub reverse_onto : List String → List String → List String
reverse_onto [] ys = ys
reverse_onto (x ∷ xs) ys = reverse_onto xs (x ∷ ys)

-- one step up from a stack of segments, the last first
abbrev pub up : Bool → List String → List String
up rooted [] = if rooted then [] else ".." ∷ []
up rooted (s ∷ stack) = if s == ".." then ".." ∷ s ∷ stack else stack

unfoldable pub clean_segments : Bool → List String → List String → List String
clean_segments rooted stack [] = stack
clean_segments rooted stack (s ∷ segments) =
    clean_segments rooted
      (if s == "" || s == "." then stack else if s == ".." then up rooted stack else s ∷ stack)
      segments

abbrev pub assembled : Bool → String → String
assembled rooted s = if rooted then "/" <> s else if s == "" then "." else s

-- `path.Clean`, by segments
unfoldable pub clean_path : String → String
unfolding clean_segments
clean_path p =
    let rooted = has_prefix p "/" in
    assembled rooted (join (reverse_onto (clean_segments rooted [] (split b'/' p)) []) "/")

-- `path.Join` of two elements
unfoldable pub join_path : String → String → String
unfolding clean_path
join_path a b =
    if a == "" && b == ""
    then ""
    else clean_path (if a == "" then b else if b == "" then a else a <> ("/" <> b))

cleaned : clean_path "/a/./b/../../..//c/" ≡ "/c"
unfolding clean_path split has_prefix join String-discrete
cleaned = refl

joined : join_path "/api" "users/7" ≡ "/api/users/7"
unfolding join_path split has_prefix join String-discrete
joined = refl

last_part : List String → String
last_part [] = ""
last_part (s ∷ []) = s
last_part (s ∷ t ∷ rest) = last_part (t ∷ rest)

-- from the last dot on
from_dot : String → String
from_dot S.[] = ""
from_dot (S.◌∷◌ c s) =
    let rest = from_dot s in
    if not (rest == "") then rest else if eqb (code c) b'.' then S.◌∷◌ c s else ""

-- `path.Ext`
unfoldable pub ext_path : String → String
unfolding last_part from_dot
ext_path p = from_dot (last_part (split b'/' p))

abbrev last_name : List String → String → String
last_name [] name = name
last_name (s ∷ rest) name = last_name rest (if s == "" then name else s)

-- `path.Base`
unfoldable pub base_path : String → String
base_path p = last_name (split b'/' p) (if p == "" then "." else "/")

extension : ext_path "a.b/c.d.js" ≡ ".js"
unfolding ext_path split String-discrete
extension = refl

base : base_path "a/b/" ≡ "b"
unfolding base_path split String-discrete
base = refl
