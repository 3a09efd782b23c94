-- ===== src/Terminal/Aggregate/Params/Written.antt =====
-- What a backend's path becomes.
use Prim.Native.Char.{char, code}
use Prim.Native.String as S
use text.Mathlib.TextLemmas.{nil-append, cons-append}
use hog.Base.{
  String, ◌<>◌, ℕ, zero, suc, ◌+◌, ◌<◌, ◌≢◌, ◌⊎◌, ◌↔◌, Bool, true, false, List, [], ◌∷◌, ok, err,
  ◌≡◌, refl, sym, ap, ◌∙◌, arith, All, all, Bool-cases, inl, inr, if◌then◌else◌, ok-injective,
}
use hog.Base.Text.{size, contains, contains_iff, any_char}
use hog.Base.Text.Cut.{cut_shorter, cut-none, cut_one}
use hog.Terminal.Aggregate.Params.{
  unsafe_value, is_slash, safe_path_value, substitute_loop, substitute_params,
}

-- A text and the parameter behind it.
pub record Slot : Type 0 where
  pub before : String
  pub name : String

-- the path as it is written
unfoldable pub written : List Slot → String → String
written [] last = last
written (s ∷ slots) last =
    s.before <> (S.◌∷◌ (char 123 tt) (s.name <> (S.◌∷◌ (char 125 tt) (written slots last))))

-- the path with a text for every parameter
unfoldable pub filled : (String → String) → List Slot → String → String
filled path_value [] last = last
filled path_value (s ∷ slots) last = s.before <> (path_value s.name <> filled path_value slots last)

abbrev pub all_safe : (String → String) → List Slot → Bool
all_safe path_value slots = all (λ s. safe_path_value (path_value s.name)) slots

-- No text opens a parameter, and no name closes it early.
abbrev pub IsPlain : Slot → Type 0
IsPlain s = (contains s.before "{" ≡ false) × (contains s.name "}" ≡ false)

substitute_loop-written :
    (fuel : ℕ) (path_value : String → String) (slots : List Slot) (last : String)
    → All IsPlain slots
    → contains last "{" ≡ false
    → size (written slots last) < fuel
    → substitute_loop fuel (written slots last) path_value
      ≡ (if all_safe path_value slots then ok (filled path_value slots last) else err unsafe_value)
unfolding substitute_loop written filled
substitute_loop-written zero path_value slots last h k lt = absurd (omega arith)
substitute_loop-written (suc fuel) path_value [] last h k lt = ground (arith, cut-none "{" last k)
substitute_loop-written (suc fuel) path_value (s ∷ slots) last ((plain, name), h) k lt =
    let rest = written slots last in
    let opened = cut_one (char 123 tt) s.before (s.name <> (S.◌∷◌ (char 125 tt) rest)) plain in
    let ended = cut_one (char 125 tt) s.name rest name in
    let short = cut_shorter (char 123 tt) "" _ _ _ opened in
    let short' = cut_shorter (char 125 tt) "" _ _ _ ended in
    ground
      (arith, opened, ended, substitute_loop-written fuel path_value slots last h k (omega arith))

contains-written :
    (s : Slot) (slots : List Slot) (last : String) → contains (written (s ∷ slots) last) "{" ≡ true
unfolding written
contains-written s slots last =
    let rest = s.name <> (S.◌∷◌ (char 125 tt) (written slots last)) in
    let opened =
      ap (λ t. s.before <> t)
        (sym (cons-append (char 123 tt) "" rest ∙ ap (S.◌∷◌ (char 123 tt)) (nil-append rest))) in
    (contains_iff (written (s ∷ slots) last) "{").1 (s.before, rest, opened)

substitute_params-all_safe :
    (path_value : String → String) (slots : List Slot) (last : String)
    → All IsPlain slots
    → contains last "{" ≡ false
    → substitute_params (written slots last) path_value
      ≡ (if all_safe path_value slots then ok (filled path_value slots last) else err unsafe_value)
unfolding substitute_params written filled
substitute_params-all_safe path_value [] last h k = ground (arith, k)
substitute_params-all_safe path_value (s ∷ slots) last h k = ground (
  arith,
  contains-written s slots last,
  substitute_loop-written (suc (size (written (s ∷ slots) last))) path_value (s ∷ slots) last h k
      (omega arith),
)

-- No character of a text is a slash or a backslash.
unfoldable pub IsFlat : String → Type 0
IsFlat S.[] = Unit {0}
IsFlat (S.◌∷◌ c s) = (code c ≢ 47) × (code c ≢ 92) × IsFlat s

-- A name of one level: it is not empty, has no separator, and is neither "." nor "..".
abbrev pub IsOneLevel : String → Type 0
IsOneLevel v = (v ≢ "") × (v ≢ ".") × (v ≢ "..") × IsFlat v

any_slash-IsFlat : (s : String) → (any_char is_slash s ≡ false) ↔ IsFlat s
unfolding IsFlat
any_slash-IsFlat S.[] = (λ _. tt, λ _. refl)
any_slash-IsFlat (S.◌∷◌ c s) =
    let (there, back) = any_slash-IsFlat s in
    (
      λ h. (ground arith, ground arith, there (ground arith)),
      λ (m, n, h). ground (arith, m, n, back h),
    )

safe_path_value-IsOneLevel : (v : String) → (safe_path_value v ≡ true) ↔ IsOneLevel v
unfolding safe_path_value
safe_path_value-IsOneLevel v =
    let (there, back) = any_slash-IsFlat v in
    (
      λ h. (ground (arith, h), ground (arith, h), ground (arith, h), there (ground (arith, h))),
      λ (e, d, dd, h). ground (arith, e, d, dd, back h),
    )

all_safe-IsOneLevel :
    (path_value : String → String) (slots : List Slot)
    → ((all_safe path_value slots ≡ true) × All (λ s. IsOneLevel (path_value s.name)) slots)
      ⊎ ((all_safe path_value slots ≡ false) × ¬ All (λ s. IsOneLevel (path_value s.name)) slots)
all_safe-IsOneLevel path_value [] = inl (refl, tt)
all_safe-IsOneLevel path_value (s ∷ slots) =
    let (there, back) = safe_path_value-IsOneLevel (path_value s.name) in
    elim (Bool-cases (safe_path_value (path_value s.name))) [
      | inr e ↦ inr (ground (arith, e), λ (h, _). ground (arith, e, back h))
      | inl e ↦ elim (all_safe-IsOneLevel path_value slots) [
        | inl (f, h) ↦ inl (ground (arith, e, f), (there e, h))
        | inr (f, h) ↦ inr (ground (arith, e, f), λ (_, hs). h hs)
      ]
    ]

-- A backend's path is the path of the configuration with the parameters' values in place, from left to right and none of
-- them read again; it is refused where one value is empty, holds a slash or a backslash, or is a dot or two; if no text
-- between the parameters opens another, and no name closes one early.
pub substitute_params-written :
    (path_value : String → String) (slots : List Slot) (last : String)
    → All IsPlain slots
    → contains last "{" ≡ false
    → (All (λ s. IsOneLevel (path_value s.name)) slots
        × (substitute_params (written slots last) path_value ≡ ok (filled path_value slots last)))
      ⊎ ((¬ All (λ s. IsOneLevel (path_value s.name)) slots)
          × (substitute_params (written slots last) path_value ≡ err unsafe_value))
substitute_params-written path_value slots last h k =
    let made = substitute_params-all_safe path_value slots last h k in
    elim (all_safe-IsOneLevel path_value slots) [
      | inl (e, all_one) ↦ inl (all_one, ground (arith, e, made))
      | inr (e, not_all) ↦ inr (not_all, ground (arith, e, made))
    ]

-- the number of separators
unfoldable pub slashes : String → ℕ
slashes S.[] = zero
slashes (S.◌∷◌ c s) = (if is_slash c then 1 else 0) + slashes s

slashes-append : (s t : String) → slashes (s <> t) ≡ slashes s + slashes t
unfolding slashes
slashes-append S.[] t = rw nil-append (omega arith)
slashes-append (S.◌∷◌ c s) t = rw cons-append (omega (arith, slashes-append s t))

slashes-safe : (s : String) → any_char is_slash s ≡ false → slashes s ≡ 0
unfolding slashes
slashes-safe S.[] h = refl
slashes-safe (S.◌∷◌ c s) h = ground (arith, slashes-safe s)

abbrev pub nothing : String → String
nothing name = ""

slashes-filled :
    (path_value : String → String) (slots : List Slot) (last : String)
    → all_safe path_value slots ≡ true
    → slashes (filled path_value slots last) ≡ slashes (filled nothing slots last)
unfolding filled safe_path_value slashes
slashes-filled path_value [] last h = refl
slashes-filled path_value (s ∷ slots) last h =
    let rest = filled path_value slots last in
    let safe = slashes-safe (path_value s.name) (ground arith) in
    omega (
      arith,
      slashes-append s.before (path_value s.name <> rest),
      slashes-append (path_value s.name) rest,
      slashes-append s.before ("" <> filled nothing slots last),
      slashes-append "" (filled nothing slots last),
      safe,
      slashes-filled path_value slots last (ground arith),
    )

-- A value adds no level to a backend's path: the path has the separators of the configured one.
pub substitute_params-slashes :
    (path_value : String → String) (slots : List Slot) (last p : String)
    → All IsPlain slots
    → contains last "{" ≡ false
    → substitute_params (written slots last) path_value ≡ ok p
    → slashes p ≡ slashes (filled nothing slots last)
substitute_params-slashes path_value slots last p h k e =
    elim (Bool-cases (all_safe path_value slots)) [
      | inl safe ↦
          let value =
            rw (safe) at (sym (substitute_params-all_safe path_value slots last h k) ∙ e) in
          ap slashes (sym (ok-injective _ _ value)) ∙ slashes-filled path_value slots last safe
      | inr unsafe ↦
          absurd (ground (arith, unsafe, e, substitute_params-all_safe path_value slots last h k))
    ]
