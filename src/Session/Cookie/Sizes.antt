-- ===== src/Session/Cookie/Sizes.antt =====
-- How large the cookies of a value are, and how many.
use Prim.Native.String as S
use hog.Base.{
  String, ℕ, zero, suc, ◌+◌, ◌*◌, ◌≤◌, ◌<◌, Bool, true, false, length, All, ◌≡◌, ◌≢◌, refl, sym, ap,
  ◌∙◌, arith, ◌==◌, String-discrete, leb, Bool-cases, ◌⊎◌, inl, inr,
}
use hog.Base.Text.{split_at, split_at_join, size, size-append}
use hog.Http.{SetCookie}
use hog.Session.Cookie.{max_chunk, write_loop, write_chunked}

split_at-size_le : (n : ℕ) (s : String) → size (split_at n s).0 ≤ n
unfolding split_at
split_at-size_le zero s = omega arith
split_at-size_le (suc n) S.[] = omega arith
split_at-size_le (suc n) (S.◌∷◌ c s) = omega (arith, split_at-size_le n s)

-- What is cut off is whole, unless nothing is left.
split_at_full : (n : ℕ) (s : String) → 1 ≤ size (split_at n s).1 → size (split_at n s).0 ≡ n
unfolding split_at
split_at_full zero s h = refl
split_at_full (suc n) S.[] h = absurd (omega (arith, h))
split_at_full (suc n) (S.◌∷◌ c s) h = omega (arith, split_at_full n s h)

left_or_full : (n : ℕ) (s : String) → (size (split_at n s).1 ≡ 0) ⊎ (size (split_at n s).0 ≡ n)
left_or_full n s = elim (Bool-cases (leb 1 (size (split_at n s).1))) [
  | inl more ↦ inr (split_at_full n s (ground (arith, more)))
  | inr done ↦ inl (ground (arith, done))
]

size-ne : (s : String) → s ≢ "" → 1 ≤ size s
size-ne S.[] h = absurd (h refl)
size-ne (S.◌∷◌ c s) h = omega arith

split_at_sum : (n : ℕ) (s : String) → size (split_at n s).0 + size (split_at n s).1 ≡ size s
split_at_sum n s = sym (size-append (split_at n s).0 (split_at n s).1) ∙ ap size (split_at_join n s)

abbrev pub Fits : SetCookie → Type 0
Fits c = (1 ≤ size c.value) × (size c.value ≤ max_chunk)

write_loop-bounds :
    (f i : ℕ) (name value : String) (secure : Bool)
    → size value ≤ f
    → All Fits (write_loop f i name value secure)
      × (size value ≤ max_chunk * length (write_loop f i name value secure))
      × (max_chunk * length (write_loop f i name value secure) < size value + max_chunk)
unfolding write_loop
write_loop-bounds zero i name value secure h = (tt, omega arith, omega arith)
write_loop-bounds (suc f) i name value secure h = elim (String-discrete value "") [
  | yes e ↦
      let nothing : (value == "") ≡ true = ground (arith, e) in
      rw nothing (tt, omega (arith, ap size e), omega arith)
  | no n ↦
      let something : (value == "") ≡ false = ground (arith, n) in
      let (a, rest) = split_at max_chunk value in
      let small = split_at-size_le max_chunk value in
      let sum = split_at_sum max_chunk value in
      let filled = left_or_full max_chunk value in
      let some_text = size-ne value n in
      let (fit, enough, few) =
        write_loop-bounds f (i + 1) name rest secure (omega (arith, sum, filled, some_text, h)) in
      rw something (
        ((omega (arith, sum, filled, some_text), small), fit),
        omega (arith, sum, small, enough),
        omega (arith, sum, filled, some_text, few),
      )
]

-- The cookies of a value each hold between 1 and 3900 characters of it, and are as few as hold it all.
pub write_chunked-Fits :
    (name value : String) (secure : Bool)
    → All Fits (write_chunked name value secure)
      × (size value ≤ max_chunk * length (write_chunked name value secure))
      × (max_chunk * length (write_chunked name value secure) < size value + max_chunk)
unfolding write_chunked
write_chunked-Fits name value secure =
    write_loop-bounds (size value) 0 name value secure (omega arith)
