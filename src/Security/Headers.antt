-- ===== src/Security/Headers.antt =====
-- security/security.go: the headers of a response behind the policy.
use hog.Base.{
  true, ok, ◌≡◌, refl, sym, ap, if◌then◌else◌, Bool-cases, inl, inr, bind-ok, ok-injective,
}
use hog.Http.{Handler, Request, Exchange, writing}
use hog.Chain.{Middleware}
use hog.Security.{
  Config, CrossOriginProtection, bad_trusted_origin, bad_bypass_pattern, deref, security_headers,
  headers_handler, add_all, build,
}

-- Whatever protection the configuration asks for, the middleware sets the configured headers first, and then goes on: with
-- the protection around the handler, or with the handler alone just where the configuration turns protection off.
pub build-security_headers :
    {World : Type 0} (cop : CrossOriginProtection World) (cfg : Config) (mw : Middleware World)
    (next : Handler World) (r : Request) (x : Exchange World)
    → build cop cfg ≡ ok mw
    → (inner : Handler World) × (mw next r x
        ≡ inner r (writing (λ w. record w { header = security_headers cfg.headers w.header }) x))
      × (if deref cfg.csrf.enabled true
          then ((s : cop.State) × (inner ≡ cop.protect s next))
          else inner ≡ next)
unfolding build headers_handler
build-security_headers cop cfg mw next r x e = elim (Bool-cases (deref cfg.csrf.enabled true)) [
  | inl on ↦
      let (s, e1, f1) =
        bind-ok
          (add_all cop cop.add_trusted_origin bad_trusted_origin cfg.csrf.trusted_origins cop.new) _
          mw (rw (on, build) at e) in
      let (s', e2, f2) =
        bind-ok
          (add_all cop cop.add_insecure_bypass_pattern bad_bypass_pattern cfg.csrf.bypass_patterns
            s)
          _ mw f1 in
      (cop.protect s' next, ap (λ m. m next r x) (sym (ok-injective _ _ f2)), rw on (s', refl))
  | inr off ↦
      (next, ap (λ m. m next r x) (sym (ok-injective _ _ (rw (off, build) at e))), rw off refl)
]
