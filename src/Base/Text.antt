-- ===== src/Base/Text.antt =====
-- Functions of Go's `strings` package over code points, and the canonical form of header names.
pub mod Split
pub mod Cut
pub mod Paths
pub mod Case
use Prim.Native.Nat.{ℕ, zero, suc, ◌+◌, ◌-◌, ◌≤◌, ◌<◌}
use Prim.Native.Char.{Char, code}
use Prim.Native.String
use Prim.Native.String.{String, [], ◌∷◌, char_at}
use mathlib.Core.Path.{◌≡◌, refl, ap, ap₂, ◌∙◌}
use mathlib.Core.Logic.{◌≢◌, ◌↔◌, inl, inr}
use mathlib.Core.Bool.{Bool, true, false, ◌&&◌, ◌||◌}
use mathlib.Core.List as L
use mathlib.Core.List.{List}
use native.Mathlib.Omega.{arith}
use text.Mathlib.TextLemmas.{nil-append, cons-append}
use text.Mathlib.TextEquality.{Char-path}
use hog.Base.Tests.{eqb, leb, Bool-cases, if◌then◌else◌}

abbrev pub char_eq : Char → Char → Bool
char_eq a b = eqb (code a) (code b)

-- `strings.HasPrefix(s, p)`
unfoldable pub has_prefix : String → String → Bool
has_prefix s [] = true
has_prefix [] (c ∷ p) = false
has_prefix (d ∷ s) (c ∷ p) = char_eq d c && has_prefix s p

-- `s[len(p):]`, where `p` is a prefix
unfoldable pub after_prefix : String → String → String
after_prefix s [] = s
after_prefix [] (c ∷ p) = []
after_prefix (d ∷ s) (c ∷ p) = after_prefix s p

-- `strings.TrimPrefix`
unfoldable pub trim_prefix : String → String → String
unfolding has_prefix after_prefix
trim_prefix s p = if has_prefix s p then after_prefix s p else s

-- `strings.Contains`
unfoldable pub contains : String → String → Bool
unfolding has_prefix
contains [] sub = has_prefix [] sub
contains (c ∷ s) sub = has_prefix (c ∷ s) sub || contains s sub

-- `strings.ContainsFunc`
abbrev pub any_char : (Char → Bool) → String → Bool
any_char f [] = false
any_char f (c ∷ s) = f c || any_char f s

-- `strings.Join`
unfoldable pub join : List String → String → String
join L.[] sep = ""
join (L.◌∷◌ s L.[]) sep = s
join (L.◌∷◌ s rest) sep = String.◌++◌ s (String.◌++◌ sep (join rest sep))

-- a text with its first `n` code points, and the rest
unfoldable pub split_at : ℕ → String → String × String
split_at zero s = ("", s)
split_at (suc n) [] = ("", "")
split_at (suc n) (c ∷ s) = let (a, b) = split_at n s in (c ∷ a, b)

-- the number of code points; the bytes, where the text is ASCII
abbrev pub size : String → ℕ
size [] = 0
size (c ∷ s) = suc (size s)

-- The two cases of an ASCII letter.
abbrev pub is_upper : Char → Bool
is_upper c = leb b'A' (code c) && leb (code c) b'Z'

abbrev pub is_lower : Char → Bool
is_lower c = leb b'a' (code c) && leb (code c) b'z'

unfoldable pub upper_char : Char → Char
upper_char c = if is_lower c then char_at "ABCDEFGHIJKLMNOPQRSTUVWXYZ" (code c - b'a') else c

unfoldable pub lower_char : Char → Char
lower_char c = if is_upper c then char_at "abcdefghijklmnopqrstuvwxyz" (code c - b'A') else c

abbrev pub map_chars : (Char → Char) → String → String
map_chars f [] = []
map_chars f (c ∷ s) = f c ∷ map_chars f s

-- `strings.ToLower` on ASCII text
unfoldable pub to_lower : String → String
unfolding lower_char
to_lower s = map_chars lower_char s

-- `strings.EqualFold` on ASCII text
unfoldable pub equal_fold : String → String → Bool
unfolding lower_char
equal_fold [] [] = true
equal_fold [] (d ∷ t) = false
equal_fold (c ∷ s) [] = false
equal_fold (c ∷ s) (d ∷ t) = char_eq (lower_char c) (lower_char d) && equal_fold s t

-- a character of a header name (RFC 7230 token)
abbrev pub is_token_char : Char → Bool
is_token_char c =
    leb b'a' (code c) && leb (code c) b'z'
    || leb b'A' (code c) && leb (code c) b'Z'
    || leb b'0' (code c) && leb (code c) b'9'
    || any_char (char_eq c) "!#$%&'*+-.^_`|~"

-- The loop of `textproto.CanonicalMIMEHeaderKey`; the flag is set at a word's first letter.
pub canonical_loop : Bool → String → String
canonical_loop first [] = []
canonical_loop first (c ∷ s) =
    (if first then upper_char c else lower_char c) ∷ canonical_loop (eqb (code c) b'-') s

abbrev pub all_chars : (Char → Bool) → String → Bool
all_chars f [] = true
all_chars f (c ∷ s) = f c && all_chars f s

-- `http.CanonicalHeaderKey`: a name with an invalid character is left as it is.
unfoldable pub canonical : String → String
unfolding canonical_loop upper_char lower_char
canonical s = if all_chars is_token_char s then canonical_loop true s else s

-- `unicode.IsSpace`
unfoldable pub is_space : Char → Bool
is_space c =
    leb 9 (code c) && leb (code c) 13
    || eqb (code c) 32
    || eqb (code c) 0x85
    || eqb (code c) 0xa0
    || eqb (code c) 0x1680
    || leb 0x2000 (code c) && leb (code c) 0x200a
    || eqb (code c) 0x2028
    || eqb (code c) 0x2029
    || eqb (code c) 0x202f
    || eqb (code c) 0x205f
    || eqb (code c) 0x3000

trim_left : String → String
trim_left [] = []
trim_left (c ∷ s) = let rest = trim_left s in if is_space c then rest else c ∷ s

abbrev keep_right : Char → String → String
keep_right c [] = if is_space c then [] else c ∷ []
keep_right c (d ∷ s) = c ∷ d ∷ s

trim_right : String → String
trim_right [] = []
trim_right (c ∷ s) = keep_right c (trim_right s)

-- `strings.TrimSpace`
unfoldable pub trim_space : String → String
unfolding trim_left trim_right is_space
trim_space s = trim_left (trim_right s)

abbrev pub onto_head : Char → List String → List String
onto_head c L.[] = L.◌∷◌ (c ∷ []) L.[]
onto_head c (L.◌∷◌ part parts) = L.◌∷◌ (c ∷ part) parts

-- `strings.Split` and `strings.SplitSeq` by one ASCII character, given by its code
unfoldable pub split : ℕ → String → List String
split d [] = L.◌∷◌ "" L.[]
split d (c ∷ s) = let rest = split d s in if eqb (code c) d then L.◌∷◌ "" rest else onto_head c rest

split_dots : split b'.' "a.b..c" ≡ L.◌∷◌ "a" (L.◌∷◌ "b" (L.◌∷◌ "" (L.◌∷◌ "c" L.[])))
unfolding split
split_dots = refl

canonical_user_id : canonical "x-uSER-id" ≡ "X-User-Id"
unfolding canonical
canonical_user_id = refl

equal_fold_bearer : equal_fold "BeaRer " "bearer " ≡ true
unfolding equal_fold
equal_fold_bearer = refl

-- A text that is `p` and then more.
abbrev pub StartsWith : String → String → Type 0
StartsWith s p = (r : String) × (s ≡ String.◌++◌ p r)

-- A text that holds `sub` somewhere.
abbrev pub Holds : String → String → Type 0
Holds s sub = (a : String) × (b : String) × (s ≡ String.◌++◌ a (String.◌++◌ sub b))

pub has_prefix_self : (p s : String) → has_prefix (String.◌++◌ p s) p ≡ true
unfolding has_prefix
has_prefix_self [] s = refl
has_prefix_self (c ∷ p) s = rw cons-append (ground (arith, has_prefix_self p s))

has_prefix_sound : (s p : String) → has_prefix s p ≡ true → StartsWith s p
unfolding has_prefix
has_prefix_sound s [] h = (s, rw nil-append)
has_prefix_sound [] (c ∷ p) h = cc
has_prefix_sound (d ∷ s) (c ∷ p) h =
    let (r, e) = has_prefix_sound s p (ground arith) in
    (r, rw cons-append (ap₂ ◌∷◌ (Char-path d c (ground arith)) e))

pub has_prefix_iff : (s p : String) → (has_prefix s p ≡ true) ↔ StartsWith s p
has_prefix_iff s p = (has_prefix_sound s p, λ (r, e). rw e (has_prefix_self p r))

contains_self : (a sub b : String) → contains (String.◌++◌ a (String.◌++◌ sub b)) sub ≡ true
unfolding contains
contains_self (c ∷ a) sub b = rw cons-append (ground (arith, contains_self a sub b))
contains_self [] [] b = rw (nil-append b, nil-append b) (contains_nil b)
  where
    contains_nil : (s : String) → contains s "" ≡ true
    contains_nil [] = refl
    contains_nil (c ∷ s) = refl
contains_self [] (c ∷ sub) b = rw (nil-append, cons-append) (ground (arith, has_prefix_self sub b))

contains_sound : (s sub : String) → contains s sub ≡ true → Holds s sub
unfolding contains
contains_sound [] sub h = let (r, e) = has_prefix_sound [] sub h in ([], r, rw nil-append e)
contains_sound (c ∷ s) sub h = elim (Bool-cases (has_prefix (c ∷ s) sub)) [
  | inl here ↦ let (r, e) = has_prefix_sound (c ∷ s) sub here in ([], r, rw nil-append e)
  | inr there ↦
      let (a, b, e) = contains_sound s sub (rw (there) at h) in
      (c ∷ a, b, rw cons-append (ap (◌∷◌ c) e))
]

pub contains_iff : (s sub : String) → (contains s sub ≡ true) ↔ Holds s sub
contains_iff s sub = (contains_sound s sub, λ (a, b, e). rw e (contains_self a sub b))

pub after_prefix_self : (p s : String) → after_prefix (String.◌++◌ p s) p ≡ s
unfolding after_prefix
after_prefix_self [] s = rw nil-append
after_prefix_self (c ∷ p) s = rw cons-append (after_prefix_self p s)

pub split_at_join : (n : ℕ) (s : String) → String.◌++◌ (split_at n s).0 (split_at n s).1 ≡ s
unfolding split_at
split_at_join zero s = nil-append s
split_at_join (suc n) [] = nil-append ""
split_at_join (suc n) (c ∷ s) = cons-append c _ _ ∙ ap (◌∷◌ c) (split_at_join n s)

split_at_le : (n : ℕ) (s : String) → size (split_at n s).1 ≤ size s
unfolding split_at
split_at_le zero s = omega arith
split_at_le (suc n) [] = omega arith
split_at_le (suc n) (c ∷ s) = omega (arith, split_at_le n s)

-- What is left after a cut of at least one character is shorter.
pub split_at_shorter : (n : ℕ) (s : String) → s ≢ "" → size (split_at (suc n) s).1 < size s
unfolding split_at
split_at_shorter n [] h = absurd (h refl)
split_at_shorter n (c ∷ s) h = omega (arith, split_at_le n s)

pub split_at-size : (n s : String) → split_at (size n) (String.◌++◌ n s) ≡ (n, s)
unfolding split_at
split_at-size [] s = rw nil-append
split_at-size (c ∷ n) s = rw (cons-append, split_at, split_at-size n s)

pub size-append : (s t : String) → size (String.◌++◌ s t) ≡ size s + size t
size-append [] t = rw nil-append (omega arith)
size-append (c ∷ s) t = rw cons-append (omega (arith, size-append s t))
