-- ===== src/Assignment/Config.antt =====
-- The settings of the assignment, `env.delivery` of `src/lib/config/env.ts`, and what the cache server
-- computes itself.
use quick_bite_order_service.Common.{Dict, List, ℕ, ℤ}

pub record DeliveryConfig : Type 0 where
  pub presence_stale_sec : ℕ
  pub radius_meters : ℕ
  pub candidates : ℕ
  pub offer_ttl_sec : ℕ
  pub claim_ttl_sec : ℕ
  pub max_attempts : ℕ
  pub batch : ℕ

-- `nearest` answers GEOSEARCH: the agents within a radius of a point, the nearest first, at most so
-- many. `whole_seconds` is how TTL rounds the milliseconds that a key has left.
pub record CacheServer : Type 0 where
  pub nearest : Dict ℕ (ℤ × ℤ) → ℤ → ℤ → ℕ → ℕ → List ℕ
  pub whole_seconds : ℕ → ℕ
