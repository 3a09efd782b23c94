-- ===== src/Session/KeyedMutex/Drain.antt =====
-- session/keyedmutex.go: the way out of the mutexes, for every goroutine.
use hog.Base.{
  String, ℕ, zero, suc, ◌+◌, ◌≤◌, ◌<◌, Bool, true, false, some, List, [], ◌∷◌, ◌++◌, ◌≡◌, ◌≢◌, refl,
  ap, arith, leb, Bool-cases, inl, inr,
}
use hog.Base.Dict
use hog.Base.Dict.{Dict}
use hog.Session.KeyedMutex.{
  Mutexes, Pc, idle, waiting, holding, leaving, System, Move, acquires, releases, leaves, Step,
  step, Run, here, later, set_locked, leave, start,
}
use hog.Session.KeyedMutex.Counts.{count, refers, holds}
use hog.Session.KeyedMutex.Consistent.{Consistent}
use hog.Session.KeyedMutex.Exclusion.{Step-Consistent, Run-Consistent}

-- the steps that a goroutine has before it
abbrev pub steps_left : Pc → ℕ
steps_left idle = 0
steps_left (waiting key rm) = 3
steps_left (holding key rm) = 2
steps_left (leaving key rm) = 1

unfoldable pub total_left : List Pc → ℕ
total_left [] = 0
total_left (p ∷ ps) = steps_left p + total_left ps

total_left-middle :
    (before : List Pc) (p : Pc) (after : List Pc)
    → total_left (before ++ (p ∷ after)) ≡ total_left before + steps_left p + total_left after
unfolding total_left
total_left-middle [] p after = omega arith
total_left-middle (b ∷ before) p after = omega (arith, total_left-middle before p after)

-- a goroutine that can move whatever the others do
abbrev free_to_move : Pc → Bool
free_to_move idle = false
free_to_move (waiting key rm) = false
free_to_move (holding key rm) = true
free_to_move (leaving key rm) = true

abbrev waits : Pc → Bool
waits idle = false
waits (waiting key rm) = true
waits (holding key rm) = false
waits (leaving key rm) = false

abbrev Found : (Pc → Bool) → List Pc → Type 0
Found f ps =
    (before : List Pc) × (p : Pc) × (after : List Pc) × (ps ≡ before ++ (p ∷ after)) × (f p ≡ true)

find : (f : Pc → Bool) (ps : List Pc) → 1 ≤ count f ps → Found f ps
unfolding count
find f [] h = absurd (omega arith)
find f (p ∷ ps) h = elim (Bool-cases (f p)) [
  | inl e ↦ ([], p, ps, refl, e)
  | inr e ↦
      let (before, q, after, g, k) = find f ps (ground (arith, e, h)) in
      (p ∷ before, q, after, ap (λ r. p ∷ r) g, k)
]

abbrev Onward : Mutexes → Pc → Type 0
Onward k p = (m : Mutexes) × (q : Pc) × Move k p m q × (steps_left q < steps_left p)

free-Onward : (k : Mutexes) (p : Pc) → free_to_move p ≡ true → Onward k p
free-Onward k idle e = absurd (ground (arith, e))
free-Onward k (waiting key rm) e = absurd (ground (arith, e))
free-Onward k (holding key rm) e =
    (set_locked rm false k, leaving key rm, releases key rm, omega arith)
free-Onward k (leaving key rm) e = (leave key rm k, idle, leaves key rm, omega arith)

holds-free : (rm : ℕ) (ps : List Pc) → count (holds rm) ps ≤ count free_to_move ps
unfolding count
holds-free rm [] = omega arith
holds-free rm (idle ∷ ps) = omega (arith, holds-free rm ps)
holds-free rm (waiting key n ∷ ps) = omega (arith, holds-free rm ps)
holds-free rm (holding key n ∷ ps) = ground (arith, holds-free rm ps)
holds-free rm (leaving key n ∷ ps) = omega (arith, holds-free rm ps)

-- Where nobody is free to move, a goroutine that waits finds its mutex unlocked.
waiting-Onward :
    (s : System) (p : Pc)
    → Consistent s
    → count free_to_move s.threads ≡ 0
    → waits p ≡ true
    → Onward s.mutexes p
waiting-Onward s idle c z e = absurd (ground (arith, e))
waiting-Onward s (waiting key rm) c z e = (
  set_locked rm true s.mutexes,
  holding key rm,
  acquires key rm (ground (arith, c.exclusive rm, holds-free rm s.threads, z)),
  omega arith,
)
waiting-Onward s (holding key rm) c z e = absurd (ground (arith, e))
waiting-Onward s (leaving key rm) c z e = absurd (ground (arith, e))

someone_waits : (ps : List Pc) → count free_to_move ps ≡ 0 → 1 ≤ total_left ps → 1 ≤ count waits ps
unfolding count total_left
someone_waits [] z h = absurd (omega arith)
someone_waits (idle ∷ ps) z h =
    omega (arith, someone_waits ps (omega (arith, z)) (omega (arith, h)))
someone_waits (waiting key n ∷ ps) z h = omega arith
someone_waits (holding key n ∷ ps) z h = absurd (omega (arith, z))
someone_waits (leaving key n ∷ ps) z h = absurd (omega (arith, z))

abbrev Nearer : System → Type 0
Nearer s = (t : System) × Step s t × (total_left t.threads < total_left s.threads)

move-Nearer :
    (s : System) (before : List Pc) (p : Pc) (after : List Pc)
    → s.threads ≡ before ++ (p ∷ after)
    → Onward s.mutexes p
    → Nearer s
move-Nearer s before p after e (m, q, move, less) = (
  record { mutexes = m; threads = before ++ (q ∷ after) },
  step before p after e move,
  omega (
    arith,
    ap total_left e,
    total_left-middle before p after,
    total_left-middle before q after,
    less,
  ),
)

-- A goroutine that is inside can always be brought nearer to the end.
progress : (s : System) → Consistent s → 1 ≤ total_left s.threads → Nearer s
progress s c h = elim (Bool-cases (leb 1 (count free_to_move s.threads))) [
  | inl some_free ↦
      let (before, p, after, e, f) = find free_to_move s.threads (ground (arith, some_free)) in
      move-Nearer s before p after e (free-Onward s.mutexes p f)
  | inr none_free ↦
      let z : count free_to_move s.threads ≡ 0 = ground (arith, none_free) in
      let (before, p, after, e, f) = find waits s.threads (someone_waits s.threads z h) in
      move-Nearer s before p after e (waiting-Onward s p c z f)
]

run_first : (s : System) {t u : System} → Step s t → Run t u → Run s u
run_first s st here = later here st
run_first s st (later run moved) = later (run_first s st run) moved

abbrev Drained : System → Type 0
Drained s = (t : System) × Run s t × (total_left t.threads ≡ 0) × Consistent t

drain : (fuel : ℕ) (s : System) → total_left s.threads ≤ fuel → Consistent s → Drained s
drain zero s h c = (s, here, omega arith, c)
drain (suc fuel) s h c = elim (Bool-cases (leb 1 (total_left s.threads))) [
  | inl e ↦
      let (t, moved, less) = progress s c (ground (arith, e)) in
      let (u, run, z, d) = drain fuel t (omega arith) (Step-Consistent s moved c) in
      (u, run_first s moved run, z, d)
  | inr e ↦ (s, here, ground (arith, e), c)
]

refers-left : (rm : ℕ) (ps : List Pc) → count (refers rm) ps ≤ total_left ps
unfolding count total_left
refers-left rm [] = omega arith
refers-left rm (idle ∷ ps) = omega (arith, refers-left rm ps)
refers-left rm (waiting key n ∷ ps) = ground (arith, refers-left rm ps)
refers-left rm (holding key n ∷ ps) = ground (arith, refers-left rm ps)
refers-left rm (leaving key n ∷ ps) = ground (arith, refers-left rm ps)

empty_map : (m : Dict ℕ) → ((key : String) (rm : ℕ) → Dict.lookup key m ≢ some rm) → m ≡ []
unfolding Dict.lookup
empty_map [] h = refl
empty_map ((key, rm) ∷ m) h = absurd (h key rm (ground arith))

-- However many goroutines lock and unlock keys, in any order: they can always go on until every one of them has unlocked
-- what it asked for, and then the map has no entry left.
pub Run_drains :
    (n : ℕ) (s : System)
    → Run (start n) s
    → (t : System) × Run s t × (total_left t.threads ≡ 0) × (t.mutexes.m ≡ [])
Run_drains n s run =
    let (t, on, z, c) = drain (total_left s.threads) s (omega arith) (Run-Consistent n run) in
    let empty =
      empty_map t.mutexes.m
        (λ key rm e. omega (arith, c.used key rm e, c.counted rm, refers-left rm t.threads, z)) in
    (t, on, z, empty)
