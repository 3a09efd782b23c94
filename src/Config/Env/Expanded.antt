-- ===== src/Config/Env/Expanded.antt =====
-- config/env.go: the expansion of a text and of its pieces.
use Prim.Native.Char.{Char, char}
use Prim.Native.String as S
use text.Mathlib.TextLemmas.{nil-append, cons-append}
use hog.Base.{
  String, ◌<>◌, ℕ, zero, suc, ◌<◌, false, Option, none, some, List, [], ◌∷◌, Result, ok, err, ◌>>=◌,
  ◌≡◌, ◌≢◌, refl, ap, ◌∙◌, arith, All, Option-cases, inl, inr,
}
use hog.Base.Text.{size, contains}
use hog.Base.Text.Cut.{cut, cut_shorter, cut-none, cut_one, cut_two}
use hog.Config.Env.{EnvError, out_of_fuel, not_set, named, value_of, expand_loop, expand_env}

value_of-ends :
    (lookup : String → Option String) (expr : String) → value_of lookup expr ≢ err out_of_fuel
unfolding value_of named
value_of-ends lookup expr e = ground arith

expand_loop-ends :
    (fuel : ℕ) (lookup : String → Option String) (s : String)
    → size s < fuel
    → expand_loop fuel lookup s ≢ err out_of_fuel
unfolding expand_loop
expand_loop-ends zero lookup s lt e = absurd (omega arith)
expand_loop-ends (suc fuel) lookup s lt e = elim (Option-cases (cut "${" s)) [
  | inl f ↦ ground (arith, e, f)
  | inr ((before, opened), f) ↦ elim (Option-cases (cut "}" opened)) [
    | inl g ↦ ground (arith, e, f, g)
    | inr ((expr, after), g) ↦
        let shorter = cut_shorter (char 36 tt) "{" s before opened f in
        let shorter' = cut_shorter (char 125 tt) "" opened expr after g in
        ground (
          arith,
          e,
          f,
          g,
          value_of-ends lookup expr,
          expand_loop-ends fuel lookup after (omega arith),
        )
  ]
]

-- The expansion of any text ends: with the text's expansion, or with a variable that is not set or a brace that is
-- not closed.
pub expand_env_ends :
    (s : String) (lookup : String → Option String) → expand_env s lookup ≢ err out_of_fuel
unfolding expand_env
expand_env_ends s lookup = expand_loop-ends (suc (size s)) lookup s (omega arith)

-- A reference: the texts between the references to variables, each with its default.
pub record Reference : Type 0 where
  pub before : String
  pub name : String
  pub default : Option String

abbrev pub inside : Reference → String
inside v = elim v.default [ none ↦ v.name | some d ↦ v.name <> (":-" <> d) ]

-- the text as it is written
pub written : List Reference → String → String
written [] last = last
written (v ∷ vs) last = v.before <> ("${" <> (inside v <> ("}" <> written vs last)))

-- A variable is its value, else its default, else an error.
abbrev pub settled : Option String → Reference → Result EnvError String
settled (some value) v = ok value
settled none v = elim v.default [ none ↦ err (not_set v.name) | some d ↦ ok d ]

-- what it means
pub meaning : (String → Option String) → List Reference → String → Result EnvError String
meaning lookup [] last = ok last
meaning lookup (v ∷ vs) last = settled (lookup v.name) v >>= λ value.
    meaning lookup vs last >>= λ rest. ok (v.before <> (value <> rest))

-- No text before a variable opens another, a name has no default in it, and nothing inside closes early.
abbrev pub IsPlain : Reference → Type 0
IsPlain v =
    (contains v.before "${" ≡ false)
    × (contains v.name ":-" ≡ false)
    × (contains (inside v) "}" ≡ false)

opened_lem : (d e : Char) (t : String) → (S.◌∷◌ d (S.◌∷◌ e "")) <> t ≡ S.◌∷◌ d (S.◌∷◌ e t)
opened_lem d e t = rw (cons-append, cons-append, nil-append) refl

closed_lem : (d : Char) (t : String) → (S.◌∷◌ d "") <> t ≡ S.◌∷◌ d t
closed_lem d t = rw (cons-append, nil-append) refl

value_of-inside :
    (lookup : String → Option String) (v : Reference)
    → contains v.name ":-" ≡ false
    → value_of lookup (inside v) ≡ settled (lookup v.name) v
unfolding value_of named
value_of-inside lookup v h = by_default v.default refl
  where
    by_default :
        (o : Option String) → v.default ≡ o → value_of lookup (inside v) ≡ settled (lookup v.name) v
    by_default none e = ground (arith, e, cut-none ":-" v.name h)
    by_default (some d) e =
        let found =
          ap (λ t. cut ":-" (v.name <> t)) (opened_lem (char 58 tt) (char 45 tt) d)
          ∙ cut_two (char 58 tt) (char 45 tt) v.name d (λ f. absurd (omega (arith, f))) h in
        ground (arith, e, found)

expand_loop-written :
    (fuel : ℕ) (lookup : String → Option String) (vs : List Reference) (last : String)
    → All IsPlain vs
    → contains last "${" ≡ false
    → size (written vs last) < fuel
    → expand_loop fuel lookup (written vs last) ≡ meaning lookup vs last
unfolding expand_loop written meaning
expand_loop-written zero lookup vs last h k lt = absurd (omega arith)
expand_loop-written (suc fuel) lookup [] last h k lt = ground (arith, cut-none "${" last k)
expand_loop-written (suc fuel) lookup (v ∷ vs) last ((plain, name, closed), h) k lt =
    let rest = written vs last in
    let opened =
      ap (λ t. cut "${" (v.before <> t))
        (opened_lem (char 36 tt) (char 123 tt) (inside v <> ("}" <> rest)))
      ∙ cut_two (char 36 tt) (char 123 tt) v.before (inside v <> ("}" <> rest))
          (λ f. absurd (omega (arith, f))) plain in
    let ended =
      ap (λ t. cut "}" (inside v <> t)) (closed_lem (char 125 tt) rest)
      ∙ cut_one (char 125 tt) (inside v) rest closed in
    let short = cut_shorter (char 36 tt) "{" _ _ _ opened in
    let short' = cut_shorter (char 125 tt) "" _ _ _ ended in
    ground (
      arith,
      opened,
      ended,
      value_of-inside lookup v name,
      expand_loop-written fuel lookup vs last h k (omega arith),
    )

-- The expansion of a text that is written with references is what they mean, from left to right, with the texts between
-- them as they are: the value of a set variable, which is not expanded again, else its default, else an error; if no text
-- opens a further reference, and no name or default closes one early.
pub expand_env-written :
    (lookup : String → Option String) (vs : List Reference) (last : String)
    → All IsPlain vs
    → contains last "${" ≡ false
    → expand_env (written vs last) lookup ≡ meaning lookup vs last
unfolding expand_env
expand_env-written lookup vs last h k =
    expand_loop-written (suc (size (written vs last))) lookup vs last h k (omega arith)
