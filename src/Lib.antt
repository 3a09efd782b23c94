-- ===== src/Lib.antt =====
-- HOG, an application gateway that signs browsers in, keeps their sessions, checks bearer tokens and
-- policies, and hands identities to backends.
--
-- A request runs through a chain of middlewares (chain/): forwarding headers of peers that are not
-- trusted are removed, the session gate resolves the session cookie (auth/gates.go, session/), bearer
-- tokens and assertions of other gateways add a principal (auth/bearer.go, auth/assertion_gate.go), the
-- auth gate turns away who has none, the authorization gate asks the route's policies (authz/), and the
-- projection writes the identity headers (auth/projection.go). What a route asks for is resolved from its own
-- settings and those of the groups whose selectors match its labels (route/, selector/). At the end of the chain
-- a terminal handler answers: files, a proxy, or the merged answers of several backends (terminal/). Modules are
-- registered by kind and name (registry/), and app/ builds all of this from the resources of a configuration,
-- whose texts may refer to environment variables (config/).
--
-- Files:
--   Base         shared helpers: tests, lists, Go's strings, maps and errors, decimal numbers
--   Http         what the code uses of net/http: headers, requests, writers, handlers
--   Selector     selector/selector.go
--   Config       config/resource.go; Env (env.go)
--   Route        route/route.go: parse_route, parse_group, resolve
--   Session      session/: Value and Passport (passport.go), Principal (principal.go), Cookie and Sealer
--                (cookie.go), Record (session.go, fingerprint.go, makeSession), Manager (manager.go), State
--                (statemanager.go, store.go), Interface (the Manager interface, info.go), Identity
--                (identity.go), KeyedMutex (keyedmutex.go), Settings (config.go, stateconfig.go), Fixtures (what
--                the tests run with)
--   Chain        chain/middleware.go and builtin.go; Forwarded (forwarded.go); Guard (the gates together)
--   Authz        authz/: rule.go; Policy (policy.go, input.go, engine.go); Gate (gate.go)
--   Auth         auth/: LoginState, Gates, Bearer, Assertion, Projection, Endpoints, each after its file
--   Terminal     terminal/: Forward, Aggregate, Static, Proxy, Health, each after its file
--   Oidc         idp/oidc.go
--   Telemetry    telemetry/accesslog.go
--   Security     security/security.go
--   App          Registry (registry/registry.go), Gateway (gateway/gateway.go), and app/build.go: Parse (Parse), Plugins
--                (resolvePlugins, buildTerminal), Routes (the loop of Build over the routes), Assembled (Build)
--
-- Correspondence: a function of the source has a definition of the same name in snake case, and its loops and the
-- continuations after a call that may fail are helpers beside it. A handler is a function of the request and of
-- an exchange, which is the response so far and the state `World` that stores and providers share. A
-- pointer that may be nil is an Option, an error is a Result or none. A string is a text of code points; header
-- names, cookie values and encodings are ASCII, where a code point is a byte. An instant is a number, and
-- the instants at which a request reads the clock, random values and nonces are arguments.
--
-- Loops are structural, but for the writing and the reading of cookie chunks: writing has the value's length as fuel,
-- and each round takes a character; reading has one more than the number of parts, and each round uses
-- a part up. The expansion of variables and the substitution of path parameters have one more than the text's
-- length, and each round drops the braces at least.
--
-- Concurrency: the goroutines of the per-session lock are a list of program counters, and a step is what one of them does
-- under the map's mutex, or one call of a key's mutex. Those that call backends write disjoint slots, and are a list of
-- results. What other requests do to a session while one waits for the lock is an argument of the refresh.
--
-- Parameters, with what they promise as hypotheses where a theorem needs it: AES-GCM and base64 (Session.Sealer), JSON, SHA-256,
-- Ed25519 (Auth.Assertion), net/netip, net/url, OPA, YAML decoding, the state store, the identity provider,
-- go-oidc and oauth2, os.Root, http.ServeContent, http.CrossOriginProtection, httputil.ReverseProxy, the transports, Unicode's case mapping and fmt.Sprint.
--
-- Not modelled: serving and reading files, the telemetry but for the access log's records, the session store plugin, the buffer of
-- response plugins, the command line tools, YAML, logging, panics, and timeouts but for the status that they lead to.
-- Build is handed the constructors of session/ and auth/ as parameters; its edge layers are those of chain/ and security/.
-- Cookies are written as they are, since their values are base64url and their names valid. The targets of the sign-in's
-- redirects go through a parameter for net/http's cleaning; those of the gates are written as they are.
-- The instants of an assertion are the 64 bits of an int64, and the clock counts nanoseconds since 1970.
mod Base
pub mod Selector
pub mod Config
pub mod Route
pub mod Session
pub mod Http
pub mod Chain
pub mod Authz
pub mod Auth
pub mod Terminal
pub mod Telemetry
pub mod Oidc
pub mod Security
pub mod App
