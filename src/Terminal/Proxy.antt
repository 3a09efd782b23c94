-- ===== src/Terminal/Proxy.antt =====
-- terminal/proxy.go: the reverse proxy. httputil.ReverseProxy is a parameter, given the code's `Rewrite` and
-- `ErrorHandler`; its `SetURL`, the parsers and the transports are parameters too.
pub mod Rewritten
mod Tests
use hog.Base.{
  String, ℕ, Bool, true, false, Option, none, some, List, [], ◌∷◌, Result, ok, err, guard, or_fail,
  ◌>>◌, ◌>>=◌, ◌==◌, not, ◌&&◌, if◌then◌else◌,
}
use hog.Base.Text.{trim_prefix}
use hog.Http.{Request, Header, Writer, error}
use hog.Terminal.Forward.{ForwardOptions, prepare_backend_request}
use hog.Terminal.Aggregate.{Url, RoundTrip, Parsers}

-- `proxyConfig`
pub record ProxyConfig : Type 0 where
  pub upstream : String
  pub strip_prefix : String
  pub preserve_host : Bool
  pub forward_access_token : Bool
  pub forward_cookies : Bool
  pub forward_identity : Bool
  pub timeout : String
  pub insecure_skip_verify : Bool

pub data ProxyError : Type 0 where
  upstream_required invalid_upstream bad_timeout : ProxyError

-- `proxyHandler`, with what its closures hold; no timeout is one that is not positive
pub record ProxyHandler : Type 0 where
  pub target : Url
  pub strip_prefix : String
  pub preserve_host : Bool
  pub opts : ForwardOptions
  pub timeout : Option ℕ
  pub insecure : Bool

-- the outbound request of a `httputil.ProxyRequest`
pub record Outgoing : Type 0 where
  pub url : Url
  pub raw_path : String
  pub host : String
  pub header : Header

abbrev with_origin : Option Url → Option Url
with_origin none = none
with_origin (some u) = if not (u.scheme == "") && not (u.host == "") then some u else none

abbrev timeout_of : Parsers → String → Result ProxyError (Option ℕ)
timeout_of std s = if s == "" then ok none else or_fail (std.parse_duration s) bad_timeout

-- the factory of `registerProxy`
unfoldable pub new_proxy : Parsers → ProxyConfig → Result ProxyError ProxyHandler
new_proxy std pc =
    guard (not (pc.upstream == "")) upstream_required
    >> (or_fail (with_origin (std.parse_url pc.upstream)) invalid_upstream >>= λ target.
        timeout_of std pc.timeout >>= λ timeout. ok (record {
          target = target;
          strip_prefix = pc.strip_prefix;
          preserve_host = pc.preserve_host;
          opts = record {
            forward_access_token = pc.forward_access_token;
            forward_cookies = pc.forward_cookies;
            forward_identity = pc.forward_identity;
          };
          timeout = timeout;
          insecure = pc.insecure_skip_verify;
        }))

module _ (set_url : Url → Url → Url) (split_host : String → Option String) where
  pub strip_path : ProxyHandler → Outgoing → Outgoing
  strip_path h out =
      if h.strip_prefix == ""
      then out
      else (let url = out.url in
          record out {
            url = record url { path = trim_prefix url.path h.strip_prefix };
            raw_path = "";
          })

  -- `Rewrite`, of the inbound request and the outbound one
  unfoldable pub rewrite : ProxyHandler → Request → Outgoing → Outgoing
  unfolding strip_path
  rewrite h r out =
      let out' = strip_path h out in
      record {
        url = set_url h.target out'.url;
        raw_path = out'.raw_path;
        host = if h.preserve_host then r.host else h.target.host;
        header = prepare_backend_request split_host h.opts r out'.header;
      }

-- `ErrorHandler`, by whether the error is a deadline's
unfoldable pub upstream_error : Bool → Writer → Writer
upstream_error deadline_exceeded w =
    error "upstream error" (if deadline_exceeded then 504 else 502) w
