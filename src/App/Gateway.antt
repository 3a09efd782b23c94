-- ===== src/App/Gateway.antt =====
-- gateway/gateway.go: the settings of the Gateway resource.
use hog.Base.{String, Option, List, Result, ok, guard, or_fail, ◌>>◌, ◌>>=◌, ◌==◌, if◌then◌else◌}
use hog.Config.{Resource}

-- `Settings`; a node is none where its block is absent
pub record Settings (Node : Type 0) : Type 0 where
  pub listen : String
  pub trusted_proxies : List String
  pub security : Option Node
  pub plugins : List String
  pub session : Option Node
  pub identity : Option Node
  pub auth : Option Node
  pub state_provider : Option Node

pub data GatewayError : Type 0 where
  not_a_gateway gateway_undecodable : String → GatewayError

-- `FromResource`; `decode` is `Spec.Decode`
unfoldable pub from_resource :
    {Node : Type 0}
    → (Node → Option (Settings Node))
    → Resource Node
    → Result GatewayError (Settings Node)
from_resource decode r =
    guard (r.kind == "Gateway") (not_a_gateway r.kind)
    >> (or_fail (decode r.spec) (gateway_undecodable r.metadata.name) >>= λ s.
        ok (record s { listen = if s.listen == "" then ":8080" else s.listen }))
