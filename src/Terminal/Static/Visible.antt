-- ===== src/Terminal/Static/Visible.antt =====
-- terminal/static.go: paths and their hidden segments.
use Prim.Native.Char.{Char, char, code}
use Prim.Native.String as S
use text.Mathlib.TextLemmas.{nil-append}
use hog.Base.{
  String, ◌<>◌, Bool, true, false, List, [], ◌∷◌, ◌++◌, any, All, ◌≡◌, refl, sym, ap, arith, ◌||◌,
  ◌==◌, if◌then◌else◌, eqb, Bool-cases, String-discrete, inl, inr,
}
use hog.Base.Text.{has_prefix, split, join, onto_head}
use hog.Base.Text.Split.{Lacks, split-Lacks, split-joined, split-append}
use hog.Base.Text.Paths.{clean_segments, clean_path, join_path, reverse_onto, up, assembled}
use hog.Terminal.Static.{hidden}

-- a segment that is not hidden
abbrev IsSegment : String → Type 0
IsSegment s = Lacks b'/' s × (hidden s ≡ false)

abbrev pub IsVisible : String → Type 0
IsVisible p = any hidden (split b'/' p) ≡ false

onto_head-All :
    (c : Char) (parts : List String)
    → eqb (code c) b'/' ≡ false
    → All (Lacks b'/') parts
    → All (Lacks b'/') (onto_head c parts)
onto_head-All c [] e h = (ground (arith, e), tt)
onto_head-All c (part ∷ parts) e (l, h) = (ground (arith, e, l), h)

split-All : (s : String) → All (Lacks b'/') (split b'/' s)
unfolding split
split-All S.[] = (refl, tt)
split-All (S.◌∷◌ c s) = elim (Bool-cases (eqb (code c) b'/')) [
  | inl e ↦ rw e (refl, split-All s)
  | inr e ↦ rw e (onto_head-All c (split b'/' s) e (split-All s))
]

both : (xs : List String) → All (Lacks b'/') xs → any hidden xs ≡ false → All IsSegment xs
both [] h k = tt
both (x ∷ xs) (l, h) k = ((l, ground (arith, k)), both xs h (ground (arith, k)))

segments : (p : String) → IsVisible p → All IsSegment (split b'/' p)
segments p h = both (split b'/' p) (split-All p) h

join-hidden : (xs : List String) → All IsSegment xs → any hidden (split b'/' (join xs "/")) ≡ false
unfolding join split String-discrete
join-hidden [] h = refl
join-hidden (x ∷ []) ((l, v), h) = rw (split-Lacks b'/' x l) (ground (arith, v))
join-hidden (x ∷ y ∷ xs) ((l, v), h) =
    rw (split-joined (char 47 tt) x (join (y ∷ xs) "/") l)
      (ground (arith, v, join-hidden (y ∷ xs) h))

to_path : (s t : String) → (s == t) ≡ true → s ≡ t
to_path s t e = ground (arith, e)

hidden_up : hidden ".." ≡ true
unfolding has_prefix String-discrete
hidden_up = refl

hidden-up : (x : String) → hidden x ≡ false → (x == "..") ≡ false
unfolding has_prefix
hidden-up x h = elim (Bool-cases (x == "..")) [
  | inl e ↦ absurd (ground (arith, h, ap hidden (to_path x ".." e), hidden_up))
  | inr e ↦ e
]

next-All :
    (x : String) (stack other : List String)
    → IsSegment x
    → All IsSegment stack
    → All IsSegment (if x == "" || x == "." then stack else if x == ".." then other else x ∷ stack)
next-All x stack other (l, v) h = elim (Bool-cases (x == "" || x == ".")) [
  | inl e ↦ rw e h
  | inr e ↦ rw (e, hidden-up x v) ((l, v), h)
]

clean_segments-All :
    (rooted : Bool) (xs stack : List String)
    → All IsSegment stack
    → All IsSegment xs
    → All IsSegment (clean_segments rooted stack xs)
unfolding clean_segments
clean_segments-All rooted [] stack h k = h
clean_segments-All rooted (x ∷ xs) stack h (l, k) =
    clean_segments-All rooted xs _ (next-All x stack (up rooted stack) l h) k

reverse_onto-All :
    (xs ys : List String) → All IsSegment xs → All IsSegment ys → All IsSegment (reverse_onto xs ys)
reverse_onto-All [] ys h k = k
reverse_onto-All (x ∷ xs) ys (l, h) k = reverse_onto-All xs (x ∷ ys) h (l, k)

dot_IsVisible : IsVisible "."
unfolding split has_prefix String-discrete
dot_IsVisible = refl

any-append :
    (xs ys : List String)
    → any hidden xs ≡ false
    → any hidden ys ≡ false
    → any hidden (xs ++ ys) ≡ false
any-append [] ys h k = k
any-append (x ∷ xs) ys h k = ground (arith, any-append xs ys)

between_IsVisible : (a b : String) → IsVisible a → IsVisible b → IsVisible (a <> ("/" <> b))
between_IsVisible a b h k =
    rw (split-append (char 47 tt) a b) (any-append (split b'/' a) (split b'/' b) h k)

pub empty_IsVisible : IsVisible ""
unfolding split String-discrete
empty_IsVisible = refl

slash_IsVisible : (s : String) → IsVisible s → IsVisible ("/" <> s)
slash_IsVisible s h = rw (sym (nil-append ("/" <> s))) (between_IsVisible "" s empty_IsVisible h)

assembled-IsVisible : (rooted : Bool) (s : String) → IsVisible s → IsVisible (assembled rooted s)
assembled-IsVisible true s h = slash_IsVisible s h
assembled-IsVisible false s h = elim (Bool-cases (s == "")) [
  | inl e ↦ rw e dot_IsVisible
  | inr e ↦ rw e h
]

pub clean_path-IsVisible : (p : String) → IsVisible p → IsVisible (clean_path p)
unfolding clean_path
clean_path-IsVisible p h =
    let rooted = has_prefix p "/" in
    let kept = clean_segments-All rooted (split b'/' p) [] tt (segments p h) in
    let xs = reverse_onto (clean_segments rooted [] (split b'/' p)) [] in
    assembled-IsVisible rooted (join xs "/") (join-hidden xs (reverse_onto-All _ [] kept tt))

pub join_path-IsVisible : (a b : String) → IsVisible a → IsVisible b → IsVisible (join_path a b)
unfolding join_path
join_path-IsVisible a b h k = elim (Bool-cases (a == "")) [
  | inl e ↦ elim (Bool-cases (b == "")) [
    | inl f ↦ rw (e, f) empty_IsVisible
    | inr f ↦ rw (e, f) (clean_path-IsVisible b k)
  ]
  | inr e ↦ elim (Bool-cases (b == "")) [
    | inl f ↦ rw (e, f) (clean_path-IsVisible a h)
    | inr f ↦ rw (e, f) (clean_path-IsVisible (a <> ("/" <> b)) (between_IsVisible a b h k))
  ]
]
