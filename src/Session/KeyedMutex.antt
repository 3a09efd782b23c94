-- ===== src/Session/KeyedMutex.antt =====
-- session/keyedmutex.go: a mutex for every key, in a map that forgets the keys that nobody uses. A step is what a goroutine
-- does under the map's mutex `mu`, or one call of a key's mutex; a `*refMutex` is a number.
mod Counts
pub mod Consistent
mod Moves
pub mod Exclusion
pub mod Drain
pub mod Refinement
mod Tests
use hog.Base.{
  String, ℕ, zero, suc, ◌-◌, Bool, true, false, Option, none, some, List, [], ◌∷◌, ◌++◌, ◌≡◌, eqb,
  if◌then◌else◌,
}
use hog.Base.Dict
use hog.Base.Dict.{Dict}

-- `f` with a new value at `i`
abbrev pub set_at {ℓ} : {A : Type ℓ} → ℕ → A → (ℕ → A) → ℕ → A
set_at i a f j = if eqb i j then a else f j

-- `keyedMutex`, with the `refMutex`es that were ever made: their counts, and whether they are locked
pub record Mutexes : Type 0 where
  pub m : Dict ℕ
  pub next : ℕ
  pub refs : ℕ → ℕ
  pub locked : ℕ → Bool

-- Where a goroutine is: outside, in front of the key's mutex, with the key, or on its way out.
pub data Pc : Type 0 where
  idle : Pc
  waiting holding leaving : String → ℕ → Pc

-- a new `refMutex` in the map
abbrev pub make : String → Mutexes → Mutexes
make key k = record k {
  m = Dict.insert key k.next k.m;
  next = suc k.next;
  refs = set_at k.next 0 k.refs;
  locked = set_at k.next false k.locked;
}

-- `rm.refs++`
abbrev pub add_ref : ℕ → Mutexes → Mutexes
add_ref rm k = record k { refs = set_at rm (suc (k.refs rm)) k.refs }

-- `lock` up to `k.mu.Unlock()`
unfoldable pub enter : String → Mutexes → ℕ × Mutexes
enter key k = elim (Dict.lookup key k.m) [
  | some rm ↦ (rm, add_ref rm k)
  | none ↦ (k.next, add_ref k.next (make key k))
]

-- `rm.mu.Lock()` and `rm.mu.Unlock()`
abbrev pub set_locked : ℕ → Bool → Mutexes → Mutexes
set_locked rm b k = record k { locked = set_at rm b k.locked }

-- the rest of the function that `lock` returns
unfoldable pub leave : String → ℕ → Mutexes → Mutexes
leave key rm k =
    let left = k.refs rm - 1 in
    record k { refs = set_at rm left k.refs; m = if eqb left 0 then Dict.erase key k.m else k.m }

pub data Move (k : Mutexes) : Pc → Mutexes → Pc → Type 0 where
  enters : (key : String) → Move k idle (enter key k).1 (waiting key (enter key k).0)
  acquires :
      (key : String) (rm : ℕ)
      → k.locked rm ≡ false
      → Move k (waiting key rm) (set_locked rm true k) (holding key rm)
  releases :
      (key : String) (rm : ℕ) → Move k (holding key rm) (set_locked rm false k) (leaving key rm)
  leaves : (key : String) (rm : ℕ) → Move k (leaving key rm) (leave key rm k) idle

-- the mutexes, and the goroutines
pub record System : Type 0 where
  pub mutexes : Mutexes
  pub threads : List Pc

-- One of the goroutines moves.
pub data Step (s : System) : System → Type 0 where
  step :
      (before : List Pc) (p : Pc) (after : List Pc) {k : Mutexes} {q : Pc}
      → s.threads ≡ before ++ (p ∷ after)
      → Move s.mutexes p k q
      → Step s (record { mutexes = k; threads = before ++ (q ∷ after) })

pub data Run (s : System) : System → Type 0 where
  here : Run s s
  later : {t u : System} → Run s t → Step t u → Run s u

abbrev many_idle : ℕ → List Pc
many_idle zero = []
many_idle (suc n) = idle ∷ many_idle n

-- `n` goroutines in front of an empty map
abbrev pub start : ℕ → System
start n = record {
  mutexes = record { m = []; next = 0; refs = λ rm. 0; locked = λ rm. false };
  threads = many_idle n;
}
