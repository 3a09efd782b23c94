-- ===== src/Terminal/Proxy/Rewritten.antt =====
-- Which credentials a reverse proxy hands on.
use hog.Base.{String, ◌<>◌, Option, ok, ◌≡◌, ◌≢◌, ap, ◌∙◌, arith, not, ◌&&◌, ◌==◌, if◌then◌else◌}
use hog.Base.Text
use hog.Http.{Request, get}
use hog.Session.Principal.{from_context}
use hog.Terminal.Forward.{token_of, assertion_header_of}
use hog.Terminal.Forward.Backend.{prepare_backend_request_authorization}
use hog.Terminal.Aggregate.{Url, Parsers}
use hog.Terminal.Proxy.{ProxyConfig, ProxyHandler, Outgoing, new_proxy, rewrite, strip_path}

new_proxy-opts :
    (std : Parsers) (pc : ProxyConfig) (h : ProxyHandler)
    → new_proxy std pc ≡ ok h
    → h.opts.forward_access_token ≡ pc.forward_access_token
unfolding new_proxy
new_proxy-opts std pc h e = ground (arith, e)

-- The only bearer token that a reverse proxy sends on is the principal's own, just where its configuration forwards it,
-- whatever credentials the client sent; if the header of the assertion is not Authorization.
pub rewrite_authorization :
    (set_url : Url → Url → Url) (split_host : String → Option String) (std : Parsers)
    (pc : ProxyConfig) (h : ProxyHandler) (r : Request) (out : Outgoing)
    → new_proxy std pc ≡ ok h
    → Text.canonical (assertion_header_of r.context) ≢ "Authorization"
    → get "Authorization" (rewrite set_url split_host h r out).header ≡ (
        if pc.forward_access_token && not (token_of (from_context r.context) == "")
        then "Bearer " <> token_of (from_context r.context)
        else "")
unfolding rewrite
rewrite_authorization set_url split_host std pc h r out e apart =
    prepare_backend_request_authorization split_host h.opts r
      (strip_path set_url split_host h out).header apart
    ∙ ap
        (λ b.
          if b && not (token_of (from_context r.context) == "")
          then "Bearer " <> token_of (from_context r.context)
          else "")
        (new_proxy-opts std pc h e)
