-- ===== src/Session/KeyedMutex/Counts.antt =====
-- How many goroutines are where.
use hog.Base.{ℕ, ◌+◌, Bool, false, List, [], ◌∷◌, ◌++◌, ◌≡◌, arith, eqb, if◌then◌else◌, All}
use hog.Session.KeyedMutex.{Pc, idle, waiting, holding, leaving}

abbrev pub tally : Bool → ℕ
tally b = if b then 1 else 0

unfoldable pub count : (Pc → Bool) → List Pc → ℕ
count f [] = 0
count f (p ∷ ps) = tally (f p) + count f ps

-- Who counts in the references of a mutex, and who holds it.
abbrev pub refers : ℕ → Pc → Bool
refers rm idle = false
refers rm (waiting key n) = eqb n rm
refers rm (holding key n) = eqb n rm
refers rm (leaving key n) = eqb n rm

abbrev pub holds : ℕ → Pc → Bool
holds rm idle = false
holds rm (waiting key n) = false
holds rm (holding key n) = eqb n rm
holds rm (leaving key n) = false

pub count-middle :
    (f : Pc → Bool) (before : List Pc) (p : Pc) (after : List Pc)
    → count f (before ++ (p ∷ after)) ≡ count f before + tally (f p) + count f after
unfolding count
count-middle f [] p after = omega arith
count-middle f (b ∷ before) p after = omega (arith, count-middle f before p after)

pub All-map {ℓ κ} :
    {A : Type ℓ} {P Q : A → Type κ} (xs : List A) → ((a : A) → P a → Q a) → All P xs → All Q xs
All-map [] f h = tt
All-map (x ∷ xs) f (p, h) = (f x p, All-map xs f h)

pub All-middle {ℓ κ} :
    {A : Type ℓ} (P : A → Type κ) (before : List A) (x : A) (after : List A)
    → All P (before ++ (x ∷ after))
    → All P before × P x × All P after
All-middle P [] x after (p, h) = (tt, p, h)
All-middle P (b ∷ before) x after (p, h) =
    let (h1, q, h2) = All-middle P before x after h in ((p, h1), q, h2)

pub All-rejoin {ℓ κ} :
    {A : Type ℓ} (P : A → Type κ) (before : List A) (x : A) (after : List A)
    → All P before
    → P x
    → All P after
    → All P (before ++ (x ∷ after))
All-rejoin P [] x after h1 q h2 = (q, h2)
All-rejoin P (b ∷ before) x after (p, h1) q h2 = (p, All-rejoin P before x after h1 q h2)
