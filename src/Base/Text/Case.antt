-- ===== src/Base/Text/Case.antt =====
-- The canonical form of header names, and `strings.ToLower`.
use Prim.Native.Nat.{ℕ, zero, suc, ◌+◌, ◌-◌, ◌<◌}
use Prim.Native.Char.{Char, code}
use Prim.Native.String.{String, [], ◌∷◌, char_at}
use text.Mathlib.TextEquality.{Char-path}
use hog.Base.{Bool, true, false, eqb, ◌≡◌, refl, sym, ap, ◌∙◌, arith, inl, inr, Bool-cases}
use mathlib.Core.Path.{ap₂}
use hog.Base.Text.{
  canonical, canonical_loop, all_chars, is_token_char, to_lower, lower_char, upper_char, is_lower,
  is_upper,
}

abbrev Letter : ℕ → Type 0
Letter n =
    (lower_char (char_at "ABCDEFGHIJKLMNOPQRSTUVWXYZ" n) ≡ char_at "abcdefghijklmnopqrstuvwxyz" n)
    × (code (char_at "abcdefghijklmnopqrstuvwxyz" n) ≡ n + 97)
    × (lower_char (char_at "abcdefghijklmnopqrstuvwxyz" n) ≡ char_at "abcdefghijklmnopqrstuvwxyz" n)

letter : (n : ℕ) → n < 26 → Letter n
unfolding lower_char
letter zero h = (refl, refl, refl)
letter (suc zero) h = (refl, refl, refl)
letter (suc (suc zero)) h = (refl, refl, refl)
letter (suc (suc (suc zero))) h = (refl, refl, refl)
letter (suc (suc (suc (suc zero)))) h = (refl, refl, refl)
letter (suc (suc (suc (suc (suc zero))))) h = (refl, refl, refl)
letter (suc (suc (suc (suc (suc (suc zero)))))) h = (refl, refl, refl)
letter (suc (suc (suc (suc (suc (suc (suc zero))))))) h = (refl, refl, refl)
letter (suc (suc (suc (suc (suc (suc (suc (suc zero)))))))) h = (refl, refl, refl)
letter (suc (suc (suc (suc (suc (suc (suc (suc (suc zero))))))))) h = (refl, refl, refl)
letter (suc (suc (suc (suc (suc (suc (suc (suc (suc (suc zero)))))))))) h = (refl, refl, refl)
letter (suc (suc (suc (suc (suc (suc (suc (suc (suc (suc (suc zero))))))))))) h = (refl, refl, refl)
letter (suc (suc (suc (suc (suc (suc (suc (suc (suc (suc (suc (suc zero)))))))))))) h =
    (refl, refl, refl)
letter (suc (suc (suc (suc (suc (suc (suc (suc (suc (suc (suc (suc (suc zero))))))))))))) h =
    (refl, refl, refl)
letter (suc (suc (suc (suc (suc (suc (suc (suc (suc (suc (suc (suc (suc (suc zero)))))))))))))) h =
    (refl, refl, refl)
letter
      (suc (suc (suc (suc (suc (suc (suc (suc (suc (suc (suc (suc (suc (suc (suc zero)))))))))))))))
      h =
    (refl, refl, refl)
letter
      (suc (
        suc
          (suc (suc (suc (suc (suc (suc (suc (suc (suc (suc (suc (suc (suc (suc zero))))))))))))))))
      h =
    (refl, refl, refl)
letter
      (suc (
        suc (
          suc (
            suc
              (suc (suc (suc (suc (suc (suc (suc (suc (suc (suc (suc (suc (suc zero)))))))))))))))))
      h =
    (refl, refl, refl)
letter
      (suc (
        suc (
          suc (
            suc (
              suc (
                suc
                  (suc (suc (suc (suc (suc (suc (suc (suc (suc (suc (suc (suc zero))))))))))))))))))
      h =
    (refl, refl, refl)
letter
      (suc (
        suc (
          suc (
            suc (
              suc (
                suc (
                  suc (
                    suc
                      (suc (suc (suc (suc (suc (suc (suc (suc (suc (suc (suc zero)))))))))))))))))))
      h =
    (refl, refl, refl)
letter
      (suc (
        suc (
          suc (
            suc (
              suc (
                suc (
                  suc (
                    suc (
                      suc (
                        suc
                          (suc (suc (suc (suc (suc (suc (suc (suc (suc (suc zero))))))))))))))))))))
      h =
    (refl, refl, refl)
letter
      (suc (
        suc (
          suc (
            suc (
              suc (
                suc (
                  suc (
                    suc (
                      suc (
                        suc (
                          suc (
                            suc
                              (suc (suc (suc (suc (suc (suc (suc (suc (suc zero)))))))))))))))))))))
      h =
    (refl, refl, refl)
letter
      (suc (
        suc (
          suc (
            suc (
              suc (
                suc (
                  suc (
                    suc (
                      suc (
                        suc (
                          suc (
                            suc (
                              suc (
                                suc
                                  (suc (suc (suc (suc (suc (suc (suc (suc zero))))))))))))))))))))))
      h =
    (refl, refl, refl)
letter
      (suc (
        suc (
          suc (
            suc (
              suc (
                suc (
                  suc (
                    suc (
                      suc (
                        suc (
                          suc (
                            suc (
                              suc (
                                suc (
                                  suc (
                                    suc
                                      (suc (suc (suc (suc (suc (suc (suc zero)))))))))))))))))))))))
      h =
    (refl, refl, refl)
letter
      (suc (
        suc (
          suc (
            suc (
              suc (
                suc (
                  suc (
                    suc (
                      suc (
                        suc (
                          suc (
                            suc (
                              suc (
                                suc (
                                  suc (
                                    suc (
                                      suc (
                                        suc
                                          (suc (suc (suc (suc (suc (suc zero))))))))))))))))))))))))
      h =
    (refl, refl, refl)
letter
      (suc (
        suc (
          suc (
            suc (
              suc (
                suc (
                  suc (
                    suc (
                      suc (
                        suc (
                          suc (
                            suc (
                              suc (
                                suc (
                                  suc (
                                    suc (
                                      suc (
                                        suc (
                                          suc (
                                            suc
                                              (suc (suc (suc (suc (suc zero)))))))))))))))))))))))))
      h =
    (refl, refl, refl)
letter
      (suc (
        suc (
          suc (
            suc (
              suc (
                suc (
                  suc (
                    suc (
                      suc (
                        suc (
                          suc (
                            suc (
                              suc (
                                suc (
                                  suc (
                                    suc (
                                      suc (
                                        suc (
                                          suc (
                                            suc (
                                              suc
                                                (suc (suc (suc (suc (suc n))))))))))))))))))))))))))
      h =
    absurd (omega (arith, h))

lower_char-upper_char : (c : Char) → lower_char (upper_char c) ≡ lower_char c
unfolding upper_char
lower_char-upper_char c = elim (Bool-cases (is_lower c)) [
  | inr e ↦ rw e refl
  | inl e ↦
      let (up, its_code, low) = letter (code c - 97) (ground arith) in
      let same : char_at "abcdefghijklmnopqrstuvwxyz" (code c - 97) ≡ c =
        Char-path _ c (its_code ∙ ground arith) in
      rw e (up ∙ (sym low ∙ ap lower_char same))
]

lower_char_twice : (c : Char) → lower_char (lower_char c) ≡ lower_char c
unfolding lower_char
lower_char_twice c = elim (Bool-cases (is_upper c)) [
  | inr e ↦ rw (e, e) refl
  | inl e ↦ let (_, _, low) = letter (code c - 65) (ground arith) in rw e low
]

to_lower-canonical_loop :
    (first : Bool) (s : String) → to_lower (canonical_loop first s) ≡ to_lower s
unfolding to_lower canonical_loop
to_lower-canonical_loop first [] = refl
to_lower-canonical_loop true (c ∷ s) =
    ap₂ (λ d t. d ∷ t) (lower_char-upper_char c) (to_lower-canonical_loop (eqb (code c) b'-') s)
to_lower-canonical_loop false (c ∷ s) =
    ap₂ (λ d t. d ∷ t) (lower_char_twice c) (to_lower-canonical_loop (eqb (code c) b'-') s)

-- The canonical form of a name differs from it in case alone.
pub to_lower-canonical : (s : String) → to_lower (canonical s) ≡ to_lower s
unfolding canonical
to_lower-canonical s = elim (Bool-cases (all_chars is_token_char s)) [
  | inl e ↦ rw e (to_lower-canonical_loop true s)
  | inr e ↦ rw e refl
]
