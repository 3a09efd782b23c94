-- ===== src/Config.antt =====
-- config/: resources, and the expansion of environment variables. YAML nodes are a parameter.
pub mod Env
use hog.Base.{String, ◌==◌, if◌then◌else◌}
use hog.Base.Dict.{Dict}

-- `Metadata`
pub record Metadata : Type 0 where
  pub name : String
  pub labels : Dict String

-- `Resource`; `spec` is a raw YAML node
pub record Resource (Node : Type 0) : Type 0 where
  pub api_version : String
  pub kind : String
  pub metadata : Metadata
  pub spec : Node

-- the kinds of `switch r.Kind`
pub data Kind : Type 0 where
  gateway route route_group request_plugin response_plugin idp policy telemetry unknown : Kind

unfoldable pub kind_of : String → Kind
kind_of k =
    if k == "Gateway"
    then gateway
    else if k == "Route"
    then route
    else if k == "RouteGroup"
    then route_group
    else if k == "RequestPlugin"
    then request_plugin
    else if k == "ResponsePlugin"
    then response_plugin
    else if k == "IdP"
    then idp
    else if k == "Policy"
    then policy
    else if k == "Telemetry"
    then telemetry
    else unknown
