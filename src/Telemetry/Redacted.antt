-- ===== src/Telemetry/Redacted.antt =====
-- telemetry/accesslog.go: the records of requests that differ in their secrets.
use hog.Base.{String, List, [], ◌∷◌, ◌≡◌, ◌≢◌}
use hog.Base.Text
use hog.Base.Dict.{Dict}

-- A header that carries no credential, in whatever case it is written.
abbrev pub IsPlainHeader : String → Type 0
IsPlainHeader name =
    (Text.to_lower name ≢ "authorization")
    × (Text.to_lower name ≢ "proxy-authorization")
    × (Text.to_lower name ≢ "cookie")
    × (Text.to_lower name ≢ "set-cookie")
    × (Text.to_lower name ≢ "x-hog-identity")

-- A parameter of a query that carries no secret, in whatever case it is written.
abbrev pub IsPlainParam : String → Type 0
IsPlainParam k =
    (Text.to_lower k ≢ "code")
    × (Text.to_lower k ≢ "state")
    × (Text.to_lower k ≢ "token")
    × (Text.to_lower k ≢ "access_token")
    × (Text.to_lower k ≢ "id_token")
    × (Text.to_lower k ≢ "refresh_token")
    × (Text.to_lower k ≢ "api_key")
    × (Text.to_lower k ≢ "apikey")
    × (Text.to_lower k ≢ "client_secret")
    × (Text.to_lower k ≢ "password")
    × (Text.to_lower k ≢ "assertion")

-- Two queries with the same parameters, and the same values of those that carry no secret.
unfoldable pub IsAlike : Dict (List String) → Dict (List String) → Type 0
IsAlike [] [] = Unit {0}
IsAlike ((k, vs) ∷ rest) ((k', vs') ∷ rest') =
    (k ≡ k') × (IsPlainParam k → vs ≡ vs') × IsAlike rest rest'
IsAlike [] (_ ∷ _) = ⊥
IsAlike (_ ∷ _) [] = ⊥
