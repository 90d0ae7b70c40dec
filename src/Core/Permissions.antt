-- ===== src/Core/Permissions.antt =====
-- `PermissionCacheService`: `src/lib/rbac/permission-cache.service.ts`.
use Prim.Native.String.{◌++◌}
use quick_bite_order_service.Common.{
  Bool, List, Option, String, [], contains, erase, if◌then◌else◌, insert, lookup, ltb, nat_eq, none,
  some, string_eq, ℕ, ◌+◌, ◌==◌,
}
use quick_bite_order_service.Core.Client.{CoreService}
use quick_bite_order_service.Errors.{ok}
use quick_bite_order_service.Order.Model.{actor_eq, status_eq}
use quick_bite_order_service.World.Monad.{M, call, pure, ◌>>=◌, ◌>>◌}
use quick_bite_order_service.World.State.{CachedPermissions}

-- `toMs(1, "h")`
abbrev pub permission_ttl_ms : ℕ
permission_ttl_ms = 3600000

abbrev pub store_permissions : String → List String → M (Unit {0})
store_permissions role permissions w = (
  ok tt,
  record w {
    permission_cache =
        insert role (record { permissions = permissions; cached_at = w.now }) w.permission_cache;
  },
)

abbrev pub fetch_permissions : CoreService → String → M (List String)
fetch_permissions core role = do
  permissions ← call (λ w. (core.permissions role, w))
  store_permissions role permissions
  pure permissions

-- The rest of `getPermissions`, on what the cache held.
abbrev pub fresh_or_fetched : CoreService → String → Option CachedPermissions → M (List String)
fresh_or_fetched core role none w = fetch_permissions core role w
fresh_or_fetched core role (some c) w =
    if ltb w.now (c.cached_at + permission_ttl_ms)
    then (ok c.permissions, w)
    else fetch_permissions core role w

-- `getPermissions`
unfoldable pub get_permissions : CoreService → String → M (List String)
get_permissions core role w = fresh_or_fetched core role (lookup role w.permission_cache) w

-- `hasPermission`
unfoldable pub has_permission : List String → String → String → Bool
has_permission permissions resource action = contains permissions (resource ++ ":" ++ action)

-- `handlePermissionsChanged`: without a role (or with the empty one) all entries go.
unfoldable pub handle_permissions_changed : Option String → M (Unit {0})
handle_permissions_changed none w = (ok tt, record w { permission_cache = [] })
handle_permissions_changed (some role) w = (
  ok tt,
  record w { permission_cache = if role == "" then [] else erase role w.permission_cache },
)
