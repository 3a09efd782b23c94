-- ===== src/Session/KeyedMutex/Tests.antt =====
-- Two goroutines that want one key.
use hog.Base.{ℕ, ◌≤◌, [], ◌∷◌, ◌≡◌, refl, ◌⊎◌}
use hog.Session.KeyedMutex.{
  idle, waiting, System, Mutexes, Run, here, later, Step, step, enters, enter, start,
}
use hog.Session.KeyedMutex.Counts.{count}
use hog.Session.KeyedMutex.Exclusion.{holds_key, Run_exclusive}
use hog.Session.KeyedMutex.Refinement.{Lock, clients, Step-Lock}
use hog.Session.KeyedMutex.Drain.{total_left, Run_drains}

abbrev first : ℕ × Mutexes
first = enter "a" (start 2).mutexes

abbrev second : ℕ × Mutexes
second = enter "a" first.1

abbrev both : System
both = record { mutexes = second.1; threads = waiting "a" first.0 ∷ waiting "a" second.0 ∷ [] }

abbrev one : System
one = record { mutexes = first.1; threads = waiting "a" first.0 ∷ idle ∷ [] }

run_one : Run (start 2) one
run_one = later here (step [] idle (idle ∷ []) refl (enters "a"))

second_enters : Step one both
second_enters = step (waiting "a" first.0 ∷ []) idle [] refl (enters "a")

run : Run (start 2) both
run = later run_one second_enters

Run_exclusive_example : count (holds_key "a") both.threads ≤ 1
Run_exclusive_example = Run_exclusive 2 "a" run

Run_drains_example : (t : System) × Run both t × (total_left t.threads ≡ 0) × (t.mutexes.m ≡ [])
Run_drains_example = Run_drains 2 both run

Step-Lock_example :
    Lock (clients one.threads) (clients both.threads) ⊎ (clients one.threads ≡ clients both.threads)
Step-Lock_example = Step-Lock 2 run_one second_enters
