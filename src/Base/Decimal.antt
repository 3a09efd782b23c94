-- ===== src/Base/Decimal.antt =====
-- `strconv.Itoa` and `strconv.Atoi` on non-negative numbers.
use Prim.Native.Nat.{ℕ, zero, suc, ◌+◌, ◌-◌, ◌*◌, ◌/◌, ◌%◌, ◌^◌, ◌<◌, ◌≤◌}
use Prim.Native.Char.{Char, code}
use Prim.Native.String.{String, [], ◌∷◌, char_at}
use mathlib.Core.Path.{◌≡◌, refl}
use mathlib.Core.Bool.{Bool, ◌&&◌}
use mathlib.Core.Option.{Option, none, some}
use mathlib.Core.Logic.{◌⊎◌, inl, inr}
use native.Mathlib.Omega.{arith}
use hog.Base.Tests.{leb, ltb, eqb, if◌then◌else◌}

unfoldable pub digit : ℕ → Char
digit d = char_at "0123456789" d

-- digits are put in front of `acc`; the fuel is above the number
show_loop : ℕ → ℕ → String → String
show_loop zero n acc = acc
show_loop (suc f) n acc =
    let rest = show_loop f (n / 10) (digit (n % 10) ∷ acc) in
    if ltb n 10 then digit n ∷ acc else rest

unfoldable pub show : ℕ → String
unfolding show_loop digit
show n = show_loop (suc n) n ""

abbrev is_digit : Char → Bool
is_digit c = leb b'0' (code c) && leb (code c) b'9'

parse_loop : ℕ → String → Option ℕ
parse_loop acc [] = some acc
parse_loop acc (c ∷ s) = if is_digit c then parse_loop (acc * 10 + (code c - b'0')) s else none

-- At least one digit, and nothing else.
parse_digits : String → Option ℕ
parse_digits [] = none
parse_digits (c ∷ s) = parse_loop 0 (c ∷ s)

abbrev in_range : Option ℕ → Option ℕ
in_range none = none
in_range (some n) = if ltb n (2 ^ 63) then some n else none

-- "-0" is the one number with a minus sign that is not negative.
abbrev minus_zero : Option ℕ → Option ℕ
minus_zero none = none
minus_zero (some n) = if eqb n 0 then some 0 else none

-- `idx, err := strconv.Atoi(s)` where `err == nil && idx >= 0`
unfoldable pub parse_index : String → Option ℕ
unfolding parse_digits parse_loop
parse_index [] = none
parse_index (c ∷ s) =
    if eqb (code c) b'+'
    then in_range (parse_digits s)
    else if eqb (code c) b'-'
    then minus_zero (parse_digits s)
    else in_range (parse_digits (c ∷ s))

code-digit : (d : ℕ) → d < 10 → code (digit d) ≡ 48 + d
unfolding digit
code-digit zero h = refl
code-digit (suc zero) h = refl
code-digit (suc (suc zero)) h = refl
code-digit (suc (suc (suc zero))) h = refl
code-digit (suc (suc (suc (suc zero)))) h = refl
code-digit (suc (suc (suc (suc (suc zero))))) h = refl
code-digit (suc (suc (suc (suc (suc (suc zero)))))) h = refl
code-digit (suc (suc (suc (suc (suc (suc (suc zero))))))) h = refl
code-digit (suc (suc (suc (suc (suc (suc (suc (suc zero)))))))) h = refl
code-digit (suc (suc (suc (suc (suc (suc (suc (suc (suc zero))))))))) h = refl
code-digit (suc (suc (suc (suc (suc (suc (suc (suc (suc (suc d)))))))))) h = absurd (omega arith)

parse_loop-show_loop :
    (f n : ℕ) (acc : String) → n < f → parse_loop 0 (show_loop f n acc) ≡ parse_loop n acc
unfolding show_loop parse_loop
parse_loop-show_loop zero n acc h = absurd (omega arith)
parse_loop-show_loop (suc f) n acc h = ground (
  arith,
  code-digit n,
  code-digit (n % 10),
  parse_loop-show_loop f (n / 10) (digit (n % 10) ∷ acc),
)

lt_or : (a b : ℕ) → (a < b) ⊎ (b ≤ a)
lt_or a b = omega arith

show_loop_head :
    (f n : ℕ) (acc : String)
    → n < f
    → (d : ℕ) × (s : String) × (d < 10) × (show_loop f n acc ≡ digit d ∷ s)
unfolding show_loop
show_loop_head zero n acc h = absurd (omega arith)
show_loop_head (suc f) n acc h = elim (lt_or n 10) [
  | inl lt ↦ (n, acc, lt, ground arith)
  | inr ge ↦
      let (d, s, lt, e) = show_loop_head f (n / 10) (digit (n % 10) ∷ acc) (omega arith) in
      (d, s, lt, ground arith)
]

-- A printed number that fits an `int` is read back.
pub parse_index-show : (n : ℕ) → n < 2 ^ 63 → parse_index (show n) ≡ some n
unfolding parse_index show
parse_index-show n h =
    let (d, s, lt, e) = show_loop_head (suc n) n "" (omega arith) in
    let back : parse_loop 0 (digit d ∷ s) ≡ some n =
      rw e at (parse_loop-show_loop (suc n) n "" (omega arith)) in
    rw e (ground (arith, code-digit d lt))
