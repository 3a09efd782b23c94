-- ===== src/Terminal/Health.antt =====
-- terminal/health.go: the health handler.
use hog.Base.{◌<>◌}
use hog.Http.{Handler, writing, set_header, write_header}

-- the handler that `Register` adds as `health`
pub health : {World : Type 0} → Handler World
health r x =
    writing
      (λ w.
        let w' = write_header 200 (set_header "Content-Type" "application/json" w) in
        record w' { body = w'.body <> "{\"status\":\"ok\"}" })
      x
