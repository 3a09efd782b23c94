-- ===== src/Chain/Forwarded.antt =====
-- chain/forwarded.go: which peers may set forwarding headers. net/netip is a parameter.
use mathlib.Core.Option
use mathlib.Core.Option.{some-injective}
use hog.Base.{
  String, Bool, true, false, Option, none, some, List, [], ◌∷◌, ◌++◌, ◌==◌, ◌||◌, not,
  if◌then◌else◌, any,
}
use hog.Base.{◌≡◌, refl, sym, ◌&&◌, arith, ap, ◌∙◌, Bool-cases, Option-cases, inl, inr}
use hog.Base.Text
use hog.Http.{Request, Exchange, Handler, Header, with_header, get, del}
use hog.Http.Headers.{get-del}
use hog.Chain.{Middleware}

-- net/netip and net.SplitHostPort
pub record Netip : Type 1 where
  pub Addr : Type 0
  pub Prefix : Type 0
  pub parse_prefix : String → Option Prefix
  pub masked : Prefix → Prefix
  pub parse_addr : String → Option Addr
  pub host_prefix : Addr → Prefix  -- PrefixFrom(a, a.BitLen())
  pub has_addr : Prefix → Addr → Bool  -- Prefix.Contains
  pub unmap : Addr → Addr
  pub split_host : String → Option String

module _ (ip : Netip) where
  -- `TrustedProxies`
  pub record TrustedProxies : Type 0 where
    pub prefixes : List ip.Prefix
    pub everyone : Bool

  put : Option ip.Prefix → TrustedProxies → Option TrustedProxies
  put none tp = none
  put (some p) tp = some (record tp { prefixes = tp.prefixes ++ (p ∷ []) })

  -- one entry, trimmed: nothing, everyone, a CIDR or an address
  read_entry : String → TrustedProxies → Option TrustedProxies
  unfolding put
  read_entry e tp =
      if e == ""
      then some tp
      else if e == "*"
      then some (record tp { everyone = true })
      else if Text.contains e "/"
      then put (Option.map ip.masked (ip.parse_prefix e)) tp
      else put (Option.map ip.host_prefix (ip.parse_addr e)) tp

  parse_loop : TrustedProxies → List String → Option TrustedProxies
  unfolding read_entry
  parse_loop tp [] = some tp
  parse_loop tp (e ∷ es) = elim (read_entry (Text.trim_space e) tp) [
    | none ↦ none
    | some tp' ↦ parse_loop tp' es
  ]

  -- `ParseTrustedProxies`; an error is none
  unfoldable pub parse_trusted_proxies : List String → Option TrustedProxies
  unfolding parse_loop read_entry
  parse_trusted_proxies entries = parse_loop (record { prefixes = []; everyone = false }) entries

  -- `Trusts`
  unfoldable pub trusts : TrustedProxies → ip.Addr → Bool
  trusts tp a = tp.everyone || any (λ p. ip.has_addr p (ip.unmap a)) tp.prefixes

  host_of : Option String → String → String
  host_of none addr = addr
  host_of (some h) addr = h

  trusts_parsed : TrustedProxies → Option ip.Addr → Bool
  trusts_parsed tp none = false
  trusts_parsed tp (some a) = trusts tp a

  -- `peerTrusted`
  unfoldable pub peer_trusted : TrustedProxies → Request → Bool
  unfolding trusts host_of trusts_parsed
  peer_trusted tp r =
      trusts_parsed tp (ip.parse_addr (host_of (ip.split_host r.remote_addr) r.remote_addr))

  -- What an entry, taken alone, admits.
  abbrev admits_prefix : Option ip.Prefix → ip.Addr → Bool
  admits_prefix none a = false
  admits_prefix (some p) a = ip.has_addr p (ip.unmap a)

  abbrev pub admits : ip.Addr → String → Bool
  admits a e =
      if e == ""
      then false
      else if e == "*"
      then true
      else if Text.contains e "/"
      then admits_prefix (Option.map ip.masked (ip.parse_prefix e)) a
      else admits_prefix (Option.map ip.host_prefix (ip.parse_addr e)) a

  any-snoc :
      (f : ip.Prefix → Bool) (ps : List ip.Prefix) (p : ip.Prefix)
      → any f (ps ++ (p ∷ [])) ≡ (any f ps || f p)
  any-snoc f [] p = ground arith
  any-snoc f (q ∷ ps) p = ground (arith, any-snoc f ps p)

  trusts-put :
      (p : Option ip.Prefix) (tp tp' : TrustedProxies) (a : ip.Addr)
      → put p tp ≡ some tp'
      → trusts tp' a ≡ (trusts tp a || admits_prefix p a)
  unfolding put trusts
  trusts-put none tp tp' a h = ground arith
  trusts-put (some p) tp tp' a h = ap (λ t. trusts t a) (sym (some-injective _ _ h)) ∙ grown
    where
      grown :
          trusts (record tp { prefixes = tp.prefixes ++ (p ∷ []) }) a
          ≡ (trusts tp a || ip.has_addr p (ip.unmap a))
      grown = ground (arith, any-snoc (λ q. ip.has_addr q (ip.unmap a)) tp.prefixes p)

  trusts-read_entry :
      (e : String) (tp tp' : TrustedProxies) (a : ip.Addr)
      → read_entry e tp ≡ some tp'
      → trusts tp' a ≡ (trusts tp a || admits a e)
  unfolding read_entry trusts
  trusts-read_entry e tp tp' a h = ground (
    arith,
    trusts-put (Option.map ip.masked (ip.parse_prefix e)) tp tp' a,
    trusts-put (Option.map ip.host_prefix (ip.parse_addr e)) tp tp' a,
  )

  trusts-loop :
      (entries : List String) (tp done : TrustedProxies) (a : ip.Addr)
      → parse_loop tp entries ≡ some done
      → trusts done a ≡ (trusts tp a || any (λ e. admits a (Text.trim_space e)) entries)
  unfolding parse_loop
  trusts-loop [] tp done a h = ap (λ t. trusts t a) (sym (some-injective _ _ h)) ∙ ground arith
  trusts-loop (e ∷ es) tp done a h = elim (Option-cases (read_entry (Text.trim_space e) tp)) [
    | inl f ↦ absurd (ground (arith, f, h))
    | inr (tp', f) ↦ ground (
      arith,
      trusts-read_entry (Text.trim_space e) tp tp' a f,
      trusts-loop es tp' done a (ground (arith, f, h)),
    )
  ]

  -- A parsed list of proxies trusts an address exactly when one of its entries, taken alone and trimmed,
  -- admits it: "*", a CIDR that holds it, or the address itself. The empty list trusts no one.
  pub trusts-parse_trusted_proxies :
      (entries : List String) (tp : TrustedProxies) (a : ip.Addr)
      → parse_trusted_proxies entries ≡ some tp
      → trusts tp a ≡ any (λ e. admits a (Text.trim_space e)) entries
  unfolding parse_trusted_proxies trusts
  trusts-parse_trusted_proxies entries tp a h =
      trusts-loop entries (record { prefixes = []; everyone = false }) tp a h

abbrev pub forwarded_headers : List String
forwarded_headers =
    "X-Forwarded-For" ∷ "X-Forwarded-Proto" ∷ "X-Forwarded-Host" ∷ "X-Forwarded-Port" ∷ "X-Real-Ip"
    ∷ "Forwarded" ∷ []

unfoldable pub del_all : List String → Header → Header
del_all [] h = h
del_all (n ∷ names) h = del_all names (del n h)

-- `Forwarded`
unfoldable pub forwarded : {World : Type 0} (ip : Netip) → TrustedProxies ip → Middleware World
unfolding del_all
forwarded ip tp next r x =
    if not (peer_trusted ip tp r)
    then next (with_header (del_all forwarded_headers r.header) r) x
    else next r x

get-del_all :
    (names : List String) (j : String) (h : Header)
    → get j (del_all names h)
      ≡ (if any (λ n. Text.canonical j == Text.canonical n) names then "" else get j h)
unfolding del_all
get-del_all [] j h = refl
get-del_all (n ∷ names) j h = ground (arith, get-del_all names j (del n h), get-del j n h)

-- What is behind the middleware sees the forwarding headers only of a peer that is trusted; no other
-- header is changed, and neither is anything else of the request.
pub forwarded_lem :
    {World : Type 0} (ip : Netip) (tp : TrustedProxies ip) (r : Request)
    → (h : Header) × ((next : Handler World) (x : Exchange World)
        → forwarded ip tp next r x ≡ next (with_header h r) x)
      × ((j : String)
          → get j h ≡ (
              if not (peer_trusted ip tp r)
                && any (λ n. Text.canonical j == Text.canonical n) forwarded_headers
              then ""
              else get j r.header))
unfolding forwarded
forwarded_lem ip tp r = elim (Bool-cases (peer_trusted ip tp r)) [
  | inl e ↦ (r.header, λ next x. rw (e, forwarded) refl, λ j. rw e refl)
  | inr e ↦ (
    del_all forwarded_headers r.header,
    λ next x. rw (e, forwarded) refl,
    λ j. rw e (get-del_all forwarded_headers j r.header),
  )
]
