-- ===== src/Base/Text/Split.antt =====
-- What `strings.Split` makes of parts that are joined by the separator.
use Prim.Native.Nat.{ℕ}
use Prim.Native.Char.{Char, code}
use Prim.Native.String.{String, [], ◌∷◌, ◌++◌ as ◌<>◌}
use mathlib.Core.Path.{◌≡◌, refl}
use mathlib.Core.Bool.{false}
use mathlib.Core.List as L
use native.Mathlib.Omega.{arith}
use text.Mathlib.TextLemmas.{nil-append, cons-append}
use hog.Base.Tests.{eqb, Bool-cases}
use mathlib.Core.Logic.{inl, inr}
use hog.Base.Text.{split, any_char}

-- No character of the text is the separator.
abbrev pub Lacks : ℕ → String → Type 0
Lacks d s = any_char (λ c. eqb (code c) d) s ≡ false

pub split-Lacks : (d : ℕ) (s : String) → Lacks d s → split d s ≡ L.◌∷◌ s L.[]
unfolding split
split-Lacks d [] h = refl
split-Lacks d (c ∷ s) h = ground (arith, split-Lacks d s)

-- The text before a separator is the first part.
pub split-part :
    (sep : Char) (s t : String)
    → Lacks (code sep) s
    → split (code sep) (s <> (sep ∷ t)) ≡ L.◌∷◌ s (split (code sep) t)
unfolding split
split-part sep [] t h = rw nil-append (ground arith)
split-part sep (c ∷ s) t h = rw cons-append (ground (arith, split-part sep s t))

-- A separator as a text of its own, in front of a text.
pub split-joined :
    (sep : Char) (s t : String)
    → Lacks (code sep) s
    → split (code sep) (s <> ((sep ∷ "") <> t)) ≡ L.◌∷◌ s (split (code sep) t)
split-joined sep s t h = rw (cons-append, nil-append) (split-part sep s t h)

-- A text has a first part.
split-first : (d : ℕ) (s : String) → (x : String) × (xs : L.List String) × (split d s ≡ L.◌∷◌ x xs)
unfolding split
split-first d [] = ("", L.[], refl)
split-first d (c ∷ s) = elim (Bool-cases (eqb (code c) d)) [
  | inl e ↦ ("", split d s, ground (arith, e))
  | inr e ↦ let (x, xs, f) = split-first d s in (c ∷ x, xs, ground (arith, e, f))
]

-- The parts of two texts with a separator between them.
pub split-append :
    (sep : Char) (s t : String)
    → split (code sep) (s <> ((sep ∷ "") <> t)) ≡ L.◌++◌ (split (code sep) s) (split (code sep) t)
unfolding split
split-append sep [] t = rw (nil-append, cons-append, nil-append) (ground arith)
split-append sep (c ∷ s) t =
    let (x, xs, f) = split-first (code sep) s in
    rw cons-append (ground (arith, f, split-append sep s t))
