-- ===== src/Base/Text/Cut.antt =====
-- `strings.Cut` and `strings.Index`: a text before and after the first occurrence of another.
use Prim.Native.Nat.{◌<◌}
use Prim.Native.Char.{Char, code}
use Prim.Native.String.{String, [], ◌∷◌, ◌++◌ as ◌<>◌}
use mathlib.Core.Path.{◌≡◌, sym, ap, ap₂, ◌∙◌}
use mathlib.Core.Logic.{◌≢◌, inl, inr}
use mathlib.Core.Bool.{true, false}
use mathlib.Core.Option.{Option, none, some}
use mathlib.Core.Option.{some-injective}
use native.Mathlib.Omega.{arith}
use text.Mathlib.TextLemmas.{nil-append, cons-append}
use hog.Base.Tests.{if◌then◌else◌, Bool-cases}
use hog.Base.Text.{
  has_prefix, after_prefix, size, size-append, contains, has_prefix_iff, after_prefix_self,
}

abbrev onto_first : Char → Option (String × String) → Option (String × String)
onto_first c none = none
onto_first c (some (a, b)) = some (c ∷ a, b)

-- `strings.Cut(s, sep)`
unfoldable pub cut : String → String → Option (String × String)
cut sep [] = if has_prefix "" sep then some ("", after_prefix "" sep) else none
cut sep (c ∷ s) =
    let later = cut sep s in
    if has_prefix (c ∷ s) sep then some ("", after_prefix (c ∷ s) sep) else onto_first c later

cut_prefix : (s sep : String) → has_prefix s sep ≡ true → s ≡ sep <> after_prefix s sep
cut_prefix s sep h =
    let (r, e) = (has_prefix_iff s sep).0 h in
    e ∙ ap (λ t. sep <> t) (sym (ap (λ t. after_prefix t sep) e ∙ after_prefix_self sep r))

abbrev pub found_at : String → String → Option (String × String)
found_at a b = some (a, b)

pair_parts : (a c b d : String) → found_at a b ≡ found_at c d → (a ≡ c) × (b ≡ d)
pair_parts a c b d e = (ap (λ p. p.0) (some-injective _ _ e), ap (λ p. p.1) (some-injective _ _ e))

found_join :
    (s sep a b : String)
    → has_prefix s sep ≡ true
    → found_at "" (after_prefix s sep) ≡ found_at a b
    → s ≡ a <> (sep <> b)
found_join s sep a b h e =
    let (f, g) = pair_parts _ _ _ _ e in
    cut_prefix s sep h ∙ (sym (nil-append _) ∙ ap₂ ◌<>◌ f (ap (λ t. sep <> t) g))

onto_first-some :
    (c : Char) (o : Option (String × String)) (a b : String)
    → onto_first c o ≡ some (a, b)
    → (a' : String) × (o ≡ found_at a' b) × (a ≡ c ∷ a')
onto_first-some c none a b e = absurd (ground arith)
onto_first-some c (some (x, y)) a b e =
    let (f, g) = pair_parts _ _ _ _ e in (x, ap (λ t. found_at x t) g, sym f)

-- What is cut is joined back by the separator.
pub cut_join : (sep s a b : String) → cut sep s ≡ some (a, b) → s ≡ a <> (sep <> b)
unfolding cut
cut_join sep [] a b h = elim (Bool-cases (has_prefix "" sep)) [
  | inl e ↦ found_join "" sep a b e (rw (e, cut) at h)
  | inr e ↦ absurd (ground (arith, e, h))
]
cut_join sep (c ∷ s) a b h = elim (Bool-cases (has_prefix (c ∷ s) sep)) [
  | inl e ↦ found_join (c ∷ s) sep a b e (rw (e, cut) at h)
  | inr e ↦
      let (a', f, g) = onto_first-some c (cut sep s) a b (rw (e, cut) at h) in
      rw g (ap (λ t. c ∷ t) (cut_join sep s a' b f) ∙ sym (cons-append c a' (sep <> b)))
]

-- What follows the separator is shorter.
pub cut_shorter : (d : Char) (sep s a b : String) → cut (d ∷ sep) s ≡ some (a, b) → size b < size s
cut_shorter d sep s a b h = omega (
  arith,
  ap size (cut_join (d ∷ sep) s a b h),
  size-append a ((d ∷ sep) <> b),
  size-append (d ∷ sep) b,
)

-- A text without the separator is cut nowhere, and one in front of it is what is before the cut.
pub cut-none : (sep s : String) → contains s sep ≡ false → cut sep s ≡ none
unfolding cut contains
cut-none sep [] h = ground arith
cut-none sep (c ∷ s) h = ground (arith, cut-none sep s)

pub cut_one :
    (d : Char) (a t : String)
    → contains a (d ∷ "") ≡ false
    → cut (d ∷ "") (a <> (d ∷ t)) ≡ found_at a t
unfolding cut contains has_prefix after_prefix
cut_one d [] t h = rw nil-append (ground arith)
cut_one d (c ∷ a) t h = rw cons-append (ground (arith, cut_one d a t))

pub cut_two :
    (d e : Char) (a t : String)
    → code d ≢ code e
    → contains a (d ∷ e ∷ "") ≡ false
    → cut (d ∷ e ∷ "") (a <> (d ∷ e ∷ t)) ≡ found_at a t
unfolding cut contains has_prefix after_prefix
cut_two d e [] t ne h = rw nil-append (ground arith)
cut_two d e (c ∷ []) t ne h = rw (cons-append, nil-append) (ground arith)
cut_two d e (c ∷ c' ∷ a) t ne h =
    let rest = rw (cons-append) at (cut_two d e (c' ∷ a) t ne (ground arith)) in
    rw (cons-append, cons-append) (ground (arith, rest))
