-- ===== src/Session/KeyedMutex/Exclusion.antt =====
-- session/keyedmutex.go: the invariant along a run, and the holders of one key.
use hog.Base.{
  String, ℕ, zero, suc, ◌≤◌, Bool, false, none, some, List, [], ◌∷◌, ◌++◌, ◌≡◌, refl, sym, arith,
  ◌==◌, All, Option-cases, inl, inr,
}
use hog.Base.Dict
use hog.Base.Dict.{Dict}
use hog.Session.KeyedMutex.{
  Mutexes, Pc, idle, waiting, holding, leaving, System, Step, step, Run, here, later, start,
  many_idle,
}
use hog.Session.KeyedMutex.Counts.{count, refers, holds}
use hog.Session.KeyedMutex.Consistent.{IsRegistered, Consistent}
use hog.Session.KeyedMutex.Moves.{Move-Consistent}

reframe :
    (k : Mutexes) (ps ps' : List Pc)
    → ps ≡ ps'
    → Consistent (record { mutexes = k; threads = ps })
    → Consistent (record { mutexes = k; threads = ps' })
reframe k ps ps' e c = rw (sym e) c

pub Step-Consistent : (s : System) {t : System} → Step s t → Consistent s → Consistent t
Step-Consistent s (step before p after e move) c =
    Move-Consistent s.mutexes before after move
      (reframe s.mutexes s.threads (before ++ (p ∷ after)) e c)

many_idle-counts :
    (n rm : ℕ) → (count (refers rm) (many_idle n) ≡ 0) × (count (holds rm) (many_idle n) ≡ 0)
unfolding count
many_idle-counts zero rm = (refl, refl)
many_idle-counts (suc n) rm =
    let (a, b) = many_idle-counts n rm in (omega (arith, a), omega (arith, b))

many_idle-All : (n : ℕ) (m : Dict ℕ) → All (IsRegistered m) (many_idle n)
many_idle-All zero m = tt
many_idle-All (suc n) m = (tt, many_idle-All n m)

start-Consistent : (n : ℕ) → Consistent (start n)
unfolding Dict.lookup
start-Consistent n = record {
  counted = λ rm. sym (many_idle-counts n rm).0;
  exclusive = λ rm. sym (many_idle-counts n rm).1;
  registered = many_idle-All n [];
  made = λ key rm e. absurd (ground (arith, e));
  used = λ key rm e. absurd (ground (arith, e));
  distinct = λ key key' rm e f. absurd (ground (arith, e));
}

pub Run-Consistent : (n : ℕ) {s : System} → Run (start n) s → Consistent s
Run-Consistent n here = start-Consistent n
Run-Consistent n (later {t = t} run moved) = Step-Consistent t moved (Run-Consistent n run)

-- However many goroutines lock and unlock keys, in any order: a mutex in the map counts the goroutines that refer to it,
-- and there is one at least.
pub Run-counted :
    (n : ℕ) {s : System} (key : String) (rm : ℕ)
    → Run (start n) s
    → Dict.lookup key s.mutexes.m ≡ some rm
    → (s.mutexes.refs rm ≡ count (refers rm) s.threads) × (1 ≤ s.mutexes.refs rm)
Run-counted n key rm run e = let c = Run-Consistent n run in (c.counted rm, c.used key rm e)

-- the goroutines that hold a key
abbrev pub holds_key : String → Pc → Bool
holds_key key idle = false
holds_key key (waiting j rm) = false
holds_key key (holding j rm) = j == key
holds_key key (leaving j rm) = false

-- Who holds a key holds its mutex.
pub holds_key-count :
    (m : Dict ℕ) (key : String) (rm : ℕ) (ps : List Pc)
    → Dict.lookup key m ≡ some rm
    → All (IsRegistered m) ps
    → count (holds_key key) ps ≤ count (holds rm) ps
unfolding count
holds_key-count m key rm [] e h = omega arith
holds_key-count m key rm (idle ∷ ps) e (r, h) = omega (arith, holds_key-count m key rm ps e h)
holds_key-count m key rm (waiting j n ∷ ps) e (r, h) =
    omega (arith, holds_key-count m key rm ps e h)
holds_key-count m key rm (holding j n ∷ ps) e (r, h) =
    ground (arith, e, r, holds_key-count m key rm ps e h)
holds_key-count m key rm (leaving j n ∷ ps) e (r, h) =
    omega (arith, holds_key-count m key rm ps e h)

-- A key that is not in the map is held by nobody.
holds_key-none :
    (m : Dict ℕ) (key : String) (ps : List Pc)
    → Dict.lookup key m ≡ none
    → All (IsRegistered m) ps
    → count (holds_key key) ps ≡ 0
unfolding count
holds_key-none m key [] e h = refl
holds_key-none m key (idle ∷ ps) e (r, h) = omega (arith, holds_key-none m key ps e h)
holds_key-none m key (waiting j n ∷ ps) e (r, h) = omega (arith, holds_key-none m key ps e h)
holds_key-none m key (holding j n ∷ ps) e (r, h) = ground (arith, e, r, holds_key-none m key ps e h)
holds_key-none m key (leaving j n ∷ ps) e (r, h) = omega (arith, holds_key-none m key ps e h)

-- However many goroutines lock and unlock keys, in any order: no two of them hold one key at a time.
pub Run_exclusive :
    (n : ℕ) {s : System} (key : String) → Run (start n) s → count (holds_key key) s.threads ≤ 1
Run_exclusive n {s} key run =
    let c = Run-Consistent n run in
    elim (Option-cases (Dict.lookup key s.mutexes.m)) [
      | inl e ↦ omega (arith, holds_key-none s.mutexes.m key s.threads e c.registered)
      | inr (rm, e) ↦
          ground
            (arith, c.exclusive rm, holds_key-count s.mutexes.m key rm s.threads e c.registered)
    ]
