-- ===== src/Base/Names.antt =====
-- Lists of names that are extended by what is new: `append` behind a `seen` map.
use hog.Base.Tests.{◌==◌, contains, if◌then◌else◌}
use Prim.Native.String.{String}
use mathlib.Core.Path.{◌≡◌, refl}
use mathlib.Core.Bool.{false, not, ◌&&◌, ◌||◌}
use mathlib.Core.List.{List, [], ◌∷◌, ◌++◌}
use native.Mathlib.Omega.{arith}

-- The names that are not empty and not seen are added; `seen` holds what the list does.
unfoldable pub add_new : List String → List String → List String
add_new acc [] = acc
add_new acc (n ∷ names) =
    add_new (if not (n == "") && not (contains acc n) then acc ++ (n ∷ []) else acc) names

-- No name is listed twice.
abbrev pub NoDup : List String → Type 0
NoDup [] = Unit
NoDup (x ∷ xs) = (contains xs x ≡ false) × NoDup xs

pub contains-append :
    (xs ys : List String) (a : String) → contains (xs ++ ys) a ≡ (contains xs a || contains ys a)
contains-append [] ys a = refl
contains-append (x ∷ xs) ys a = ground (arith, contains-append xs ys a)

NoDup-append_one :
    (xs : List String) (a : String) → NoDup xs → contains xs a ≡ false → NoDup (xs ++ (a ∷ []))
NoDup-append_one [] a h n = (refl, tt)
NoDup-append_one (x ∷ xs) a (fresh, h) n =
    (ground (arith, contains-append xs (a ∷ []) x), NoDup-append_one xs a h (ground arith))

pub add_new-NoDup : (names acc : List String) → NoDup acc → NoDup (add_new acc names)
unfolding add_new
add_new-NoDup [] acc h = h
add_new-NoDup (n ∷ names) acc h = add_new-NoDup names _ (ground (arith, NoDup-append_one acc n h))

pub contains-add_new :
    (names acc : List String) (n : String)
    → contains (add_new acc names) n ≡ (contains acc n || (not (n == "") && contains names n))
unfolding add_new
contains-add_new [] acc n = ground arith
contains-add_new (m ∷ names) acc n = ground (
  arith,
  contains-add_new names acc n,
  contains-add_new names (acc ++ (m ∷ [])) n,
  contains-append acc (m ∷ []) n,
)
