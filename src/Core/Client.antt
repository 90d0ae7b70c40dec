-- ===== src/Core/Client.antt =====
-- Calls of the core service: `src/lib/core-client/branch.client.ts`. The answers of the service, after
-- the retries of `CoreClient.request`, are a parameter.
pub mod Frame
use quick_bite_order_service.Common.{
  List, Option, String, insert, nat_eq, none, some, string_eq, ℕ, ◌+◌,
}
use quick_bite_order_service.Core.Model.{
  CoreBranchMetadata, CoreBranchProduct, CoreCustomerAddress, ReserveStockItem,
}
use quick_bite_order_service.Errors.{Result}
use quick_bite_order_service.Order.Model.{actor_eq, status_eq}
use quick_bite_order_service.World.Cache.{live}
use quick_bite_order_service.World.Monad.{M, call, command, ignore_errors, pure, ◌>>=◌, ◌>>◌}

-- What the core service answers; an answer may be an error.
pub record CoreService : Type 0 where
  pub branch : ℕ → Result CoreBranchMetadata
  pub products : ℕ → List ℕ → Result (List CoreBranchProduct)
  pub address : ℕ → Result CoreCustomerAddress
  pub permissions : String → Result (List String)
  pub reserve : ℕ → List ReserveStockItem → String → Result (Unit {0})
  pub release : ℕ → List ReserveStockItem → String → Result (Unit {0})

-- `toSeconds(1, "h")`, in milliseconds.
abbrev pub branch_cache_ttl_ms : ℕ
branch_cache_ttl_ms = 3600000

abbrev pub fetch_branch : CoreService → ℕ → M CoreBranchMetadata
fetch_branch core id = call (λ w. (core.branch id, w))

abbrev pub store_branch : ℕ → CoreBranchMetadata → M (Unit {0})
store_branch id b = command (λ now r. (
  tt,
  record r {
    branches =
        insert id (record { value = b; expires_at = some (now + branch_cache_ttl_ms) }) r.branches;
  },
))

-- The rest of `getBranch`, on what the cache held.
abbrev pub cached_or_fetched : CoreService → ℕ → Option CoreBranchMetadata → M CoreBranchMetadata
cached_or_fetched core id (some b) = pure b
cached_or_fetched core id none = do
  b ← fetch_branch core id
  ignore_errors (store_branch id b)
  pure b

-- `getBranch`: read through the cache; a failure to fill the cache is logged and forgotten.
unfoldable pub get_branch : CoreService → ℕ → M CoreBranchMetadata
get_branch core id = do
  cached ← command (λ now r. (live now id r.branches, r))
  cached_or_fetched core id cached
