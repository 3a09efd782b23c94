-- ===== src/Session/KeyedMutex/Refinement.antt =====
-- session/keyedmutex.go: the mutexes and the abstract lock of each key.
use hog.Base.{
  String, ℕ, Bool, false, some, List, [], ◌∷◌, ◌++◌, map, any, ◌≡◌, refl, ap, ◌∙◌, arith, ◌==◌, inl,
  inr, ◌⊎◌,
}
use hog.Base.Dict
use hog.Session.KeyedMutex.{
  Mutexes, Pc, idle, waiting, holding, leaving, System, Move, enters, acquires, releases, leaves,
  Step, step, Run, start,
}
use hog.Session.KeyedMutex.Counts.{count, All-middle}
use hog.Session.KeyedMutex.Consistent.{Consistent, IsRegistered}
use hog.Session.KeyedMutex.Exclusion.{holds_key, holds_key-count, Run-Consistent}

-- what a client of the lock sees of itself
pub data Client : Type 0 where
  outside : Client
  wants has : String → Client

abbrev pub has_key : String → Client → Bool
has_key key outside = false
has_key key (wants j) = false
has_key key (has j) = j == key

-- The lock: a client asks for a key, gets it while no other has it, and gives it back.
pub data Lock (cs : List Client) : List Client → Type 0 where
  asks :
      (before : List Client) (key : String) (after : List Client)
      → cs ≡ before ++ (outside ∷ after)
      → Lock cs (before ++ (wants key ∷ after))
  gets :
      (before : List Client) (key : String) (after : List Client)
      → cs ≡ before ++ (wants key ∷ after)
      → any (has_key key) cs ≡ false
      → Lock cs (before ++ (has key ∷ after))
  gives :
      (before : List Client) (key : String) (after : List Client)
      → cs ≡ before ++ (has key ∷ after)
      → Lock cs (before ++ (outside ∷ after))

abbrev pub client : Pc → Client
client idle = outside
client (waiting key rm) = wants key
client (holding key rm) = has key
client (leaving key rm) = outside

abbrev pub clients : List Pc → List Client
clients ps = map client ps

clients-middle :
    (before : List Pc) (p : Pc) (after : List Pc)
    → clients (before ++ (p ∷ after)) ≡ clients before ++ (client p ∷ clients after)
clients-middle [] p after = refl
clients-middle (b ∷ before) p after = ap (λ cs. client b ∷ cs) (clients-middle before p after)

nobody_has :
    (key : String) (ps : List Pc)
    → count (holds_key key) ps ≡ 0
    → any (has_key key) (clients ps) ≡ false
unfolding count
nobody_has key [] z = refl
nobody_has key (idle ∷ ps) z = nobody_has key ps (omega (arith, z))
nobody_has key (waiting j rm ∷ ps) z = nobody_has key ps (omega (arith, z))
nobody_has key (holding j rm ∷ ps) z = ground (arith, z, nobody_has key ps)
nobody_has key (leaving j rm ∷ ps) z = nobody_has key ps (omega (arith, z))

-- A mutex that is unlocked has no holder, by whatever key.
unlocked-nobody :
    (s : System) (key : String) (rm : ℕ)
    → Consistent s
    → Dict.lookup key s.mutexes.m ≡ some rm
    → s.mutexes.locked rm ≡ false
    → any (has_key key) (clients s.threads) ≡ false
unlocked-nobody s key rm c found free = nobody_has key s.threads (
    ground (
      arith,
      free,
      c.exclusive rm,
      holds_key-count s.mutexes.m key rm s.threads found c.registered,
    ))

thread-IsRegistered :
    (s : System) (before : List Pc) (p : Pc) (after : List Pc)
    → Consistent s
    → s.threads ≡ before ++ (p ∷ after)
    → IsRegistered s.mutexes.m p
thread-IsRegistered s before p after c e =
    let (_, r, _) = All-middle (IsRegistered s.mutexes.m) before p after (rw (← e) c.registered) in
    r

abbrev Simulated : List Client → List Client → Type 0
Simulated cs ds = Lock cs ds ⊎ (cs ≡ ds)

Move-Simulated :
    (s : System) (before : List Pc) (p q : Pc) (after : List Pc) {k : Mutexes}
    → Consistent s
    → s.threads ≡ before ++ (p ∷ after)
    → Move s.mutexes p k q
    → Simulated (clients s.threads) (clients before ++ (client q ∷ clients after))
Move-Simulated s before p q after c e (enters key) =
    inl (asks (clients before) key (clients after) (ap clients e ∙ clients-middle before p after))
Move-Simulated s before p q after c e (acquires key rm free) = inl (
    gets (clients before) key (clients after) (ap clients e ∙ clients-middle before p after)
      (unlocked-nobody s key rm c (thread-IsRegistered s before p after c e) free))
Move-Simulated s before p q after c e (releases key rm) =
    inl (gives (clients before) key (clients after) (ap clients e ∙ clients-middle before p after))
Move-Simulated s before p q after c e (leaves key rm) =
    inr (ap clients e ∙ clients-middle before p after)

-- However many goroutines lock and unlock keys, in any order: what each of them sees is a lock for each key. Every step is
-- one of that lock's, where a client gets a key only while no client has it, or is seen by nobody.
pub Step-Lock :
    (n : ℕ) {s t : System}
    → Run (start n) s
    → Step s t
    → Lock (clients s.threads) (clients t.threads) ⊎ (clients s.threads ≡ clients t.threads)
Step-Lock n {s} run (step before p after {k} {q} e move) =
    rw (clients-middle before q after)
      (Move-Simulated s before p q after (Run-Consistent n run) e move)
