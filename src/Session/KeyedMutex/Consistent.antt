-- ===== src/Session/KeyedMutex/Consistent.antt =====
-- session/keyedmutex.go: the invariant of the mutexes and lemmas on its parts.
use hog.Base.{
  String, ℕ, ◌+◌, ◌≤◌, ◌<◌, Bool, none, some, List, [], ◌∷◌, ◌++◌, ◌≡◌, refl, arith, All,
}
use hog.Base.Dict
use hog.Base.Dict.{Dict}
use hog.Session.KeyedMutex.{Pc, idle, waiting, holding, leaving, System}
use hog.Session.KeyedMutex.Counts.{tally, count, refers, holds, count-middle}

-- The map has the mutex of a goroutine under its key.
abbrev pub IsRegistered : Dict ℕ → Pc → Type 0
IsRegistered m idle = Unit
IsRegistered m (waiting key rm) = Dict.lookup key m ≡ some rm
IsRegistered m (holding key rm) = Dict.lookup key m ≡ some rm
IsRegistered m (leaving key rm) = Dict.lookup key m ≡ some rm

pub record Consistent (s : System) : Type 0 where
  pub counted : (rm : ℕ) → s.mutexes.refs rm ≡ count (refers rm) s.threads
  pub exclusive : (rm : ℕ) → tally (s.mutexes.locked rm) ≡ count (holds rm) s.threads
  pub registered : All (IsRegistered s.mutexes.m) s.threads
  pub made : (key : String) (rm : ℕ) → Dict.lookup key s.mutexes.m ≡ some rm → rm < s.mutexes.next
  pub used : (key : String) (rm : ℕ) → Dict.lookup key s.mutexes.m ≡ some rm → 1 ≤ s.mutexes.refs rm
  pub distinct :
      (key key' : String) (rm : ℕ)
      → Dict.lookup key s.mutexes.m ≡ some rm
      → Dict.lookup key' s.mutexes.m ≡ some rm
      → key ≡ key'

-- A number that no mutex has counts for nobody.
pub unmade :
    (m : Dict ℕ) (next : ℕ) (ps : List Pc)
    → ((key : String) (rm : ℕ) → Dict.lookup key m ≡ some rm → rm < next)
    → All (IsRegistered m) ps
    → (count (refers next) ps ≡ 0) × (count (holds next) ps ≡ 0)
unfolding count
unmade m next [] made h = (refl, refl)
unmade m next (idle ∷ ps) made (r, h) =
    let (a, b) = unmade m next ps made h in (omega (arith, a), omega (arith, b))
unmade m next (waiting key rm ∷ ps) made (r, h) =
    let (a, b) = unmade m next ps made h in
    let small = made key rm r in (ground (arith, a, small), ground (arith, b))
unmade m next (holding key rm ∷ ps) made (r, h) =
    let (a, b) = unmade m next ps made h in
    let small = made key rm r in (ground (arith, a, small), ground (arith, b, small))
unmade m next (leaving key rm ∷ ps) made (r, h) =
    let (a, b) = unmade m next ps made h in
    let small = made key rm r in (ground (arith, a, small), ground (arith, b))

-- Goroutines that do not refer to the mutex of a key are registered without the key.
pub forgotten :
    (m : Dict ℕ) (key : String) (rm : ℕ) (ps : List Pc)
    → Dict.lookup key m ≡ some rm
    → count (refers rm) ps ≡ 0
    → All (IsRegistered m) ps
    → All (IsRegistered (Dict.erase key m)) ps
unfolding count
forgotten m key rm [] e z h = tt
forgotten m key rm (idle ∷ ps) e z (r, h) = (tt, forgotten m key rm ps e (omega (arith, z)) h)
forgotten m key rm (waiting key' rm' ∷ ps) e z (r, h) = (
  ground (arith, e, z, r, Dict.lookup-erase key' key m),
  forgotten m key rm ps e (ground (arith, z)) h,
)
forgotten m key rm (holding key' rm' ∷ ps) e z (r, h) = (
  ground (arith, e, z, r, Dict.lookup-erase key' key m),
  forgotten m key rm ps e (ground (arith, z)) h,
)
forgotten m key rm (leaving key' rm' ∷ ps) e z (r, h) = (
  ground (arith, e, z, r, Dict.lookup-erase key' key m),
  forgotten m key rm ps e (ground (arith, z)) h,
)

-- Goroutines stay registered when a key is added.
pub added :
    (m : Dict ℕ) (key : String) (rm : ℕ) (p : Pc)
    → Dict.lookup key m ≡ none
    → IsRegistered m p
    → IsRegistered (Dict.insert key rm m) p
added m key rm idle e r = tt
added m key rm (waiting key' rm') e r = ground (arith, e, r, Dict.lookup-insert key' key rm m)
added m key rm (holding key' rm') e r = ground (arith, e, r, Dict.lookup-insert key' key rm m)
added m key rm (leaving key' rm') e r = ground (arith, e, r, Dict.lookup-insert key' key rm m)

-- A goroutine that is not counted for a mutex, and one that is.
pub counts_middle :
    (f : Pc → Bool) (before : List Pc) (p q : Pc) (after : List Pc)
    → count f (before ++ (q ∷ after)) + tally (f p) ≡ count f (before ++ (p ∷ after)) + tally (f q)
counts_middle f before p q after =
    omega (arith, count-middle f before p after, count-middle f before q after)
