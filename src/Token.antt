-- ===== src/Token.antt =====
-- maas-api/internal/token/types.go: the user that the middleware puts into the Gin context.
use models_as_a_service_mids.Prelude.{Text, List}

pub record UserContext : Type 0 where
  pub username : Text
  pub groups : List Text

-- What the Gin context holds under "user".
pub data Context : Type 0 where
  absent wrong_type : Context
  present : UserContext → Context
