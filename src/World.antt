-- ===== src/World.antt =====
-- What a request works on: the tables as its session sees them, and Redis.
use chatfolio_backend.Models.Billing.{Db}
use chatfolio_backend.Models.Redis.{Redis}

pub record World : Type 0 where
  pub db : Db
  pub redis : Redis
