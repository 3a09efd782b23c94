-- ===== src/Authz/Policy/Compiled.antt =====
-- What every policy of the compiled map is.
use hog.Base.{String, true, false, some, List, [], ◌∷◌, any, is_some, ◌||◌}
use hog.Base.{◌≡◌, arith, ok, All, Result-cases, ok-injective, inl, inr}
use mathlib.Core.Path.{subst}
use hog.Base.Dict.{Dict, lookup, insert}
use hog.Config.{Resource}
use hog.Authz.{is_empty}
use hog.Authz.Policy.{
  Policy, Compiler, compile_one, compile_loop, compile, engine_of, requires_nothing, claims_of,
}

-- A policy that can deny: it has a rule or a query, and its rule is neither empty nor impossible.
abbrev pub IsUseful : Policy → Type 0
IsUseful p =
    ((is_some p.require || is_some p.engine) ≡ true)
    × (requires_nothing p.require ≡ false)
    × (any (λ (claim, allowed). is_empty allowed) (claims_of p.require) ≡ false)

abbrev pub IsEntry : String × Policy → Type 0
IsEntry (name, p) = (p.name ≡ name) × IsUseful p

insert-IsEntry :
    (out : Dict Policy) (name : String) (p : Policy)
    → All IsEntry out
    → IsEntry (name, p)
    → All IsEntry (insert name p out)
unfolding insert
insert-IsEntry [] name p h e = (e, tt)
insert-IsEntry ((n, q) ∷ out) name p (here, h) e = ground (arith, insert-IsEntry out name p h e)

lookup-IsEntry :
    (out : Dict Policy) (name : String) (p : Policy)
    → All IsEntry out
    → lookup name out ≡ some p
    → IsEntry (name, p)
unfolding lookup
lookup-IsEntry [] name p h e = absurd (ground arith)
lookup-IsEntry ((n, q) ∷ out) name p (here, h) e = ground (arith, lookup-IsEntry out name p h)

module _ {Node : Type 0} (c : Compiler Node) where
  compile_one-IsEntry :
      (out : Dict Policy) (r : Resource Node) (p : Policy)
      → compile_one c out r ≡ ok p
      → IsEntry (r.metadata.name, p)
  unfolding compile_one engine_of
  compile_one-IsEntry out r p h = ground arith

  compile_loop-IsEntry :
      (rs : List (Resource Node)) (out done : Dict Policy)
      → All IsEntry out
      → compile_loop c out rs ≡ ok done
      → All IsEntry done
  unfolding compile_loop
  compile_loop-IsEntry [] out done h e = subst (All IsEntry) (ok-injective out done e) h
  compile_loop-IsEntry (r ∷ rs) out done h e = elim (Result-cases (compile_one c out r)) [
    | inl (why, f) ↦ absurd (ground (arith, f, e))
    | inr (p, f) ↦
        compile_loop-IsEntry rs (insert r.metadata.name p out) done
          (insert-IsEntry out r.metadata.name p h (compile_one-IsEntry out r p f))
          (ground (arith, f, e))
  ]

  -- Every policy that the compiled map has under a name bears that name, has a rule or a query, and its
  -- rule is not empty and has no claim that no value satisfies.
  pub compile-IsEntry :
      (rs : List (Resource Node)) (out : Dict Policy) (name : String) (p : Policy)
      → compile c rs ≡ ok out
      → lookup name out ≡ some p
      → IsEntry (name, p)
  unfolding compile
  compile-IsEntry rs out name p h e =
      lookup-IsEntry out name p (compile_loop-IsEntry rs [] out tt h) e
