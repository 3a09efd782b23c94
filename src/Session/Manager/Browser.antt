-- ===== src/Session/Manager/Browser.antt =====
-- What a browser keeps of the cookies that a response sets: a cookie replaces the one of its name,
-- and one with MaxAge < 0 only removes it.
use hog.Base.{String, ◌<>◌, ℕ, zero, ◌+◌, ◌≤◌, ◌<◌, ◌^◌, ◌≡◌, refl, ◌∙◌, ap, sym, ◌≢◌, arith}
use hog.Base.{
  Bool, true, false, some, List, [], ◌∷◌, ◌++◌, length, All, All-append, ◌==◌, not, if◌then◌else◌,
}
use hog.Base.Text
use hog.Http.{Cookie, SetCookie}
use mathlib.Core.List.{append-nil, append_assoc}
use mathlib.Core.Option.{some-injective}
use hog.Base.{any, ◌||◌, inl, inr, Bool-cases}
use hog.Session.Cookie.{chunk_name, clear_chunked, jar, index_of}
use hog.Session.Cookie.Chunks.{IsOther, numbered, index_of-chunk_name, has_prefix-chunk_name}

abbrev pub remove : String → List Cookie → List Cookie
remove name [] = []
remove name (c ∷ cs) = let rest = remove name cs in if c.name == name then rest else c ∷ rest

abbrev pub accept_one : SetCookie → List Cookie → List Cookie
accept_one s cs = elim s.max_age [
  | some zero ↦ remove s.name cs
  | _ ↦ remove s.name cs ++ (record { name = s.name; value = s.value } ∷ [])
]

unfoldable pub accept : List SetCookie → List Cookie → List Cookie
accept [] cs = cs
accept (s ∷ ss) cs = accept ss (accept_one s cs)

pub accept-append :
    (a b : List SetCookie) (cs : List Cookie) → accept (a ++ b) cs ≡ accept b (accept a cs)
unfolding accept
accept-append [] b cs = refl
accept-append (s ∷ a) b cs = accept-append a b (accept_one s cs)

-- A cookie that is not one of this name's chunks, or is among those that are to be expired.
abbrev covered : String → List Cookie → Cookie → Bool
covered name ks c = not (Text.has_prefix c.name (name <> ".")) || any (λ k. c.name == k.name) ks

module _ (name : String) (secure : Bool) where
  covered-weaken :
      (k : Cookie) (ks cs : List Cookie)
      → All (λ c. covered name ks c ≡ true) cs
      → All (λ c. covered name (k ∷ ks) c ≡ true) cs
  covered-weaken k ks [] h = tt
  covered-weaken k ks (c ∷ cs) (here, h) = (ground arith, covered-weaken k ks cs h)

  covered_self : (cs : List Cookie) → All (λ c. covered name cs c ≡ true) cs
  covered_self [] = tt
  covered_self (c ∷ cs) = (ground arith, covered-weaken c cs cs (covered_self cs))

  -- one cookie of the list is expired, or is no chunk
  covered-remove :
      (k : Cookie) (ks cs : List Cookie)
      → All (λ c. covered name (k ∷ ks) c ≡ true) cs
      → All (λ c. covered name ks c ≡ true) (remove k.name cs)
  covered-remove k ks [] h = tt
  covered-remove k ks (c ∷ cs) (here, h) = ground (arith, covered-remove k ks cs h)

  covered-skip :
      (k : Cookie) (ks cs : List Cookie)
      → Text.has_prefix k.name (name <> ".") ≡ false
      → All (λ c. covered name (k ∷ ks) c ≡ true) cs
      → All (λ c. covered name ks c ≡ true) cs
  covered-skip k ks [] o h = tt
  covered-skip k ks (c ∷ cs) o (here, h) = (ground arith, covered-skip k ks cs o h)

  covered_nil : (cs : List Cookie) → All (λ c. covered name [] c ≡ true) cs → All (IsOther name) cs
  covered_nil [] h = tt
  covered_nil (c ∷ cs) (here, h) = (ground arith, covered_nil cs h)

  accept-clear_covered :
      (ks cs : List Cookie)
      → All (λ c. covered name ks c ≡ true) cs
      → All (IsOther name) (accept (clear_chunked ks name secure) cs)
  unfolding accept clear_chunked
  accept-clear_covered [] cs h = covered_nil cs h
  accept-clear_covered (k ∷ ks) cs h = elim (Bool-cases (Text.has_prefix k.name (name <> "."))) [
    | inl e ↦ rw e (accept-clear_covered ks (remove k.name cs) (covered-remove k ks cs h))
    | inr e ↦ rw e (accept-clear_covered ks cs (covered-skip k ks cs e h))
  ]

  -- Once a response has cleared the chunks, the browser holds none.
  pub accept-clear_chunked :
      (cs : List Cookie) → All (IsOther name) (accept (clear_chunked cs name secure) cs)
  accept-clear_chunked cs = accept-clear_covered cs cs (covered_self cs)

-- A cookie whose name is none of the chunks' from `i` on.
abbrev pub IsFresh : String → ℕ → Cookie → Type 0
IsFresh name i c = (j : ℕ) → i ≤ j → j < 2 ^ 63 → c.name ≢ chunk_name name j

pub IsOther-IsFresh :
    (name : String) (cs : List Cookie) → All (IsOther name) cs → All (IsFresh name 0) cs
IsOther-IsFresh name [] h = tt
IsOther-IsFresh name (c ∷ cs) (o, h) = (
  λ j _ _ e. cc (ap (λ n. Text.has_prefix n (name <> ".")) e, o, has_prefix-chunk_name name j),
  IsOther-IsFresh name cs h,
)

IsFresh-later :
    (name : String) (i : ℕ) (cs : List Cookie)
    → All (IsFresh name i) cs
    → All (IsFresh name (i + 1)) cs
IsFresh-later name i [] h = tt
IsFresh-later name i (c ∷ cs) (f, h) = (λ j le. f j (omega arith), IsFresh-later name i cs h)

remove_fresh :
    (name : String) (i : ℕ) (cs : List Cookie)
    → i < 2 ^ 63
    → All (IsFresh name i) cs
    → remove (chunk_name name i) cs ≡ cs
remove_fresh name i [] lt h = refl
remove_fresh name i (c ∷ cs) lt (f, h) =
    ground (arith, f i (omega arith) lt, remove_fresh name i cs lt h)

chunk_name_injective :
    (name : String) (i j : ℕ)
    → i < 2 ^ 63
    → j < 2 ^ 63
    → chunk_name name i ≡ chunk_name name j
    → i ≡ j
chunk_name_injective name i j hi hj e = some-injective i j (
    sym (index_of-chunk_name name i hi)
    ∙ (ap (index_of (name <> ".")) e ∙ index_of-chunk_name name j hj))

pub accept-numbered :
    (cs : List String) (i : ℕ) (name : String) (secure : Bool) (base : List Cookie)
    → i + length cs ≤ 2 ^ 63
    → All (IsFresh name i) base
    → accept (numbered i name secure cs) base ≡ base ++ jar (numbered i name secure cs)
unfolding accept
accept-numbered [] i name secure base h f = sym (append-nil base)
accept-numbered (c ∷ cs) i name secure base h f =
    let k : Cookie = record { name = chunk_name name i; value = c } in
    let fresh_one : IsFresh name (i + 1) k =
      λ j le lt e. absurd (omega (arith, chunk_name_injective name i j (omega arith) lt e)) in
    ap (λ b. accept (numbered (i + 1) name secure cs) (b ++ (k ∷ [])))
      (remove_fresh name i base (omega arith) f)
    ∙ (accept-numbered cs (i + 1) name secure (base ++ (k ∷ [])) (omega arith) (
          All-append (IsFresh name (i + 1)) base (k ∷ []) (IsFresh-later name i base f)
            (fresh_one, tt))
        ∙ append_assoc base (k ∷ []) _)
