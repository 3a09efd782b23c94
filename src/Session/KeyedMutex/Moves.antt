-- ===== src/Session/KeyedMutex/Moves.antt =====
-- session/keyedmutex.go: the invariant of the mutexes at each move of a goroutine.
use hog.Base.{
  String, ℕ, ◌-◌, true, false, Option, none, some, List, ◌∷◌, ◌++◌, ◌≡◌, refl, sym, ◌∙◌, arith, eqb,
  Bool-cases, inl, inr,
}
use hog.Base.Dict
use hog.Base.Dict.{Dict}
use hog.Session.KeyedMutex.{
  Mutexes, Pc, idle, waiting, holding, leaving, System, Move, enters, acquires, releases, leaves,
  set_at, make, add_ref, enter, set_locked, leave,
}
use hog.Session.KeyedMutex.Counts.{
  tally, count, refers, holds, count-middle, All-map, All-middle, All-rejoin,
}
use hog.Session.KeyedMutex.Consistent.{
  IsRegistered, Consistent, unmade, forgotten, added, counts_middle,
}

abbrev pub frame : Mutexes → List Pc → Pc → List Pc → System
frame k before p after = record { mutexes = k; threads = before ++ (p ∷ after) }

module _ (k : Mutexes) (before after : List Pc) where
  acquire-Consistent :
      (key : String) (rm : ℕ)
      → k.locked rm ≡ false
      → Consistent (frame k before (waiting key rm) after)
      → Consistent (frame (set_locked rm true k) before (holding key rm) after)
  acquire-Consistent key rm free c =
      let (h1, r, h2) = All-middle (IsRegistered k.m) before (waiting key rm) after c.registered in
      record {
        counted = λ n. omega (
          arith,
          c.counted n,
          counts_middle (refers n) before (waiting key rm) (holding key rm) after,
        );
        exclusive = λ n. ground (
          arith,
          free,
          c.exclusive n,
          counts_middle (holds n) before (waiting key rm) (holding key rm) after,
        );
        registered = All-rejoin (IsRegistered k.m) before (holding key rm) after h1 r h2;
        made = c.made;
        used = c.used;
        distinct = c.distinct;
      }

  release-Consistent :
      (key : String) (rm : ℕ)
      → Consistent (frame k before (holding key rm) after)
      → Consistent (frame (set_locked rm false k) before (leaving key rm) after)
  release-Consistent key rm c =
      let (h1, r, h2) = All-middle (IsRegistered k.m) before (holding key rm) after c.registered in
      record {
        counted = λ n. omega (
          arith,
          c.counted n,
          counts_middle (refers n) before (holding key rm) (leaving key rm) after,
        );
        exclusive = λ n. ground (
          arith,
          c.exclusive n,
          counts_middle (holds n) before (holding key rm) (leaving key rm) after,
        );
        registered = All-rejoin (IsRegistered k.m) before (leaving key rm) after h1 r h2;
        made = c.made;
        used = c.used;
        distinct = c.distinct;
      }

  -- A goroutine that starts to wait holds nothing yet.
  waiting-exclusive :
      (key : String) (rm n : ℕ)
      → count (holds n) (before ++ (waiting key rm ∷ after))
        ≡ count (holds n) (before ++ (idle ∷ after))
  waiting-exclusive key rm n =
      omega (arith, counts_middle (holds n) before idle (waiting key rm) after)

  found-Consistent :
      (key : String) (rm : ℕ)
      → Dict.lookup key k.m ≡ some rm
      → Consistent (frame k before idle after)
      → Consistent (frame (add_ref rm k) before (waiting key rm) after)
  found-Consistent key rm e c =
      let (h1, r, h2) = All-middle (IsRegistered k.m) before idle after c.registered in
      record {
        counted = λ n.
            ground
              (arith, c.counted n, counts_middle (refers n) before idle (waiting key rm) after);
        exclusive = λ n. c.exclusive n ∙ sym (waiting-exclusive key rm n);
        registered = All-rejoin (IsRegistered k.m) before (waiting key rm) after h1 e h2;
        made = c.made;
        used = λ j n f. ground (arith, c.used j n f);
        distinct = c.distinct;
      }

  made-Consistent :
      (key : String)
      → Dict.lookup key k.m ≡ none
      → Consistent (frame k before idle after)
      → Consistent (frame (add_ref k.next (make key k)) before (waiting key k.next) after)
  made-Consistent key e c =
      let (h1, r, h2) = All-middle (IsRegistered k.m) before idle after c.registered in
      let (nobody, nobody') = unmade k.m k.next (before ++ (idle ∷ after)) c.made c.registered in
      let keep = added k.m key k.next in
      record {
        counted = λ n. ground (
          arith,
          nobody,
          c.counted n,
          counts_middle (refers n) before idle (waiting key k.next) after,
        );
        exclusive = λ n. ground (arith, nobody', c.exclusive n, waiting-exclusive key k.next n);
        registered =
            All-rejoin (IsRegistered (Dict.insert key k.next k.m)) before (waiting key k.next) after
              (All-map before (λ p g. keep p e g) h1)
              (ground (arith, Dict.lookup-insert key key k.next k.m))
              (All-map after (λ p g. keep p e g) h2);
        made = λ j n f. ground (arith, f, Dict.lookup-insert j key k.next k.m, c.made j n);
        used = λ j n f. ground (arith, f, Dict.lookup-insert j key k.next k.m, c.used j n);
        distinct = λ j j' n f g. ground (
          arith,
          f,
          g,
          Dict.lookup-insert j key k.next k.m,
          Dict.lookup-insert j' key k.next k.m,
          c.distinct j j' n,
          c.made j n,
          c.made j' n,
        );
      }

  enter-Consistent :
      (key : String)
      → Consistent (frame k before idle after)
      → Consistent (frame (enter key k).1 before (waiting key (enter key k).0) after)
  unfolding enter
  enter-Consistent key c = by_entry (Dict.lookup key k.m) refl
    where
      by_entry :
          (o : Option ℕ)
          → Dict.lookup key k.m ≡ o
          → Consistent (frame (enter key k).1 before (waiting key (enter key k).0) after)
      by_entry none e = rw (e, enter) (made-Consistent key e c)
      by_entry (some rm) e = rw (e, enter) (found-Consistent key rm e c)

  left-counted :
      (key : String) (rm n : ℕ)
      → Consistent (frame k before (leaving key rm) after)
      → set_at rm (k.refs rm - 1) k.refs n ≡ count (refers n) (before ++ (idle ∷ after))
  left-counted key rm n c =
      ground (arith, c.counted n, counts_middle (refers n) before (leaving key rm) idle after)

  left-exclusive :
      (key : String) (rm n : ℕ)
      → Consistent (frame k before (leaving key rm) after)
      → tally (k.locked n) ≡ count (holds n) (before ++ (idle ∷ after))
  left-exclusive key rm n c =
      omega (arith, c.exclusive n, counts_middle (holds n) before (leaving key rm) idle after)

  -- the last goroutine of a key leaves
  last-Consistent :
      (key : String) (rm : ℕ)
      → k.refs rm - 1 ≡ 0
      → Consistent (frame k before (leaving key rm) after)
      → Consistent (
          frame
            (record k { refs = set_at rm (k.refs rm - 1) k.refs; m = Dict.erase key k.m })
            before
            idle
            after)
  last-Consistent key rm e c =
      let (h1, r, h2) = All-middle (IsRegistered k.m) before (leaving key rm) after c.registered in
      let alone = count-middle (refers rm) before (leaving key rm) after in
      let total = c.counted rm in
      let self : eqb rm rm ≡ true = ground arith in
      let none_before : count (refers rm) before ≡ 0 = ground (arith, alone, total, e, self) in
      let none_after : count (refers rm) after ≡ 0 = ground (arith, alone, total, e, self) in
      record {
        counted = λ n. left-counted key rm n c;
        exclusive = λ n. left-exclusive key rm n c;
        registered =
            All-rejoin (IsRegistered (Dict.erase key k.m)) before idle after
              (forgotten k.m key rm before r none_before h1) tt
              (forgotten k.m key rm after r none_after h2);
        made = λ j n f. ground (arith, f, Dict.lookup-erase j key k.m, c.made j n);
        used = λ j n f.
            ground (arith, f, r, Dict.lookup-erase j key k.m, c.used j n, c.distinct j key rm);
        distinct = λ j j' n f g. ground (
          arith,
          f,
          g,
          Dict.lookup-erase j key k.m,
          Dict.lookup-erase j' key k.m,
          c.distinct j j' n,
        );
      }

  -- a goroutine leaves, and others stay
  others-Consistent :
      (key : String) (rm : ℕ)
      → eqb (k.refs rm - 1) 0 ≡ false
      → Consistent (frame k before (leaving key rm) after)
      → Consistent (frame (record k { refs = set_at rm (k.refs rm - 1) k.refs }) before idle after)
  others-Consistent key rm e c =
      let (h1, r, h2) = All-middle (IsRegistered k.m) before (leaving key rm) after c.registered in
      record {
        counted = λ n. left-counted key rm n c;
        exclusive = λ n. left-exclusive key rm n c;
        registered = All-rejoin (IsRegistered k.m) before idle after h1 tt h2;
        made = c.made;
        used = λ j n f. ground (arith, e, c.used j n f);
        distinct = c.distinct;
      }

  leave-Consistent :
      (key : String) (rm : ℕ)
      → Consistent (frame k before (leaving key rm) after)
      → Consistent (frame (leave key rm k) before idle after)
  unfolding leave
  leave-Consistent key rm c = elim (Bool-cases (eqb (k.refs rm - 1) 0)) [
    | inl e ↦ rw (e, leave) (last-Consistent key rm (ground (arith, e)) c)
    | inr e ↦ rw (e, leave) (others-Consistent key rm e c)
  ]

pub Move-Consistent :
    (k : Mutexes) {m : Mutexes} {p q : Pc} (before after : List Pc)
    → Move k p m q
    → Consistent (frame k before p after)
    → Consistent (frame m before q after)
Move-Consistent k before after (enters key) c = enter-Consistent k before after key c
Move-Consistent k before after (acquires key rm free) c =
    acquire-Consistent k before after key rm free c
Move-Consistent k before after (releases key rm) c = release-Consistent k before after key rm c
Move-Consistent k before after (leaves key rm) c = leave-Consistent k before after key rm c
