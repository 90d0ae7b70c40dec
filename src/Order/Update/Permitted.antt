-- ===== src/Order/Update/Permitted.antt =====
-- The permission that a member of a restaurant's staff needs to change an order.
use mathlib.Core.Option.{get_or}
use quick_bite_order_service.Common.{
  Bool, List, Option, String, [], arith, contains, false, if◌then◌else◌, inl, inr, lookup, ltb,
  nat_eq, none, refl, some, string_eq, sym, true, ◌+◌, ◌<◌, ◌==◌, ◌∙◌, ◌∷◌, ◌≡◌, ◌⊎◌,
}
use quick_bite_order_service.Core.Client.{CoreService}
use quick_bite_order_service.Core.Permissions.{
  fetch_permissions, fresh_or_fetched, get_permissions, has_permission, permission_ttl_ms,
  store_permissions,
}
use quick_bite_order_service.Errors.{Result, err, ok, un_authorised}
use quick_bite_order_service.Order.Access.{assert_restaurant_member_permission, permission_action}
use quick_bite_order_service.Order.Model.{
  ActorContext, OrderStatus, StatusActor, accepted, actor_eq, admin, agent, cancelled, customer,
  rejected, restaurant_member, status_eq, system,
}
use quick_bite_order_service.World.Checks.{Checks, Checks-bind}
use quick_bite_order_service.World.Monad.{call, call_on, lift, pure, when, ◌>>◌}
use quick_bite_order_service.World.State.{CachedPermissions, World}

-- What the role needs in the catalogue of permissions, for the status that is asked for.
abbrev pub needed : OrderStatus → String
needed accepted = "orders:accept"
needed rejected = "orders:reject"
needed cancelled = "orders:cancel"
needed _ = "orders:update"

-- The permissions of a role: those that the process has cached, if the hour is not over, or else those
-- that the core service answers.
abbrev pub AreOf : CoreService → String → World → List String → Type 0
AreOf core role w permissions =
    (core.permissions role ≡ ok permissions)
    ⊎ ((c : CachedPermissions) × (lookup role w.permission_cache ≡ some c)
        × (w.now < c.cached_at + permission_ttl_ms)
        × (c.permissions ≡ permissions))

-- The role of the caller has the permission.
abbrev pub HasPermission : CoreService → ActorContext → OrderStatus → World → Type 0
HasPermission core actor status w =
    (permissions : List String) × AreOf core (get_or actor.restaurant_role "undefined") w
      permissions
    × (contains permissions (needed status) ≡ true)

-- Only staff need it.
abbrev pub Permitted : CoreService → ActorContext → OrderStatus → World → StatusActor → Type 0
Permitted core actor status w restaurant_member = HasPermission core actor status w
Permitted core actor status w customer = Unit
Permitted core actor status w agent = Unit
Permitted core actor status w system = Unit
Permitted core actor status w admin = Unit

answer_on-Checks :
    {A : Type 0} (r : Result A) (l : List Bool) (w : World)
    → Checks (λ a. r ≡ ok a) w (call_on (λ v. (r, v)) l w)
answer_on-Checks (ok a) [] w = (refl, refl, refl)
answer_on-Checks (ok a) (true ∷ fs) w = refl
answer_on-Checks (ok a) (false ∷ fs) w = (refl, refl, refl)
answer_on-Checks (err e) [] w = refl
answer_on-Checks (err e) (true ∷ fs) w = refl
answer_on-Checks (err e) (false ∷ fs) w = refl

module _ (core : CoreService) (role : String) where
  fetch_permissions-Checks :
      (w : World) → Checks (AreOf core role w) w (fetch_permissions core role w)
  unfolding call
  fetch_permissions-Checks w =
      Checks-bind (λ ps. core.permissions role ≡ ok ps) (AreOf core role w) w
        (λ ps. store_permissions role ps >> pure ps) (call (λ v. (core.permissions role, v)) w)
        (answer_on-Checks (core.permissions role) w.faults w) (λ ps v d t known. (d, t, inl known))

  get_permissions-Checks : (w : World) → Checks (AreOf core role w) w (get_permissions core role w)
  unfolding get_permissions
  get_permissions-Checks w = by_entry (lookup role w.permission_cache) refl
    where
      by_entry :
          (o : Option CachedPermissions)
          → lookup role w.permission_cache ≡ o
          → Checks (AreOf core role w) w (fresh_or_fetched core role o w)
      by_entry none h = fetch_permissions-Checks w
      by_entry (some c) h = by_age (ltb w.now (c.cached_at + permission_ttl_ms)) refl
        where
          by_age :
              (b : Bool)
              → ltb w.now (c.cached_at + permission_ttl_ms) ≡ b
              → Checks
                  (AreOf core role w)
                  w
                  (if b then (ok c.permissions, w) else fetch_permissions core role w)
          by_age true young = (refl, refl, inr (c, h, ground arith, refl))
          by_age false old = fetch_permissions-Checks w

has_permission-needed :
    (permissions : List String) (status : OrderStatus)
    → has_permission permissions "orders" (permission_action status)
      ≡ contains permissions (needed status)
unfolding has_permission permission_action
has_permission-needed permissions accepted = refl
has_permission-needed permissions rejected = refl
has_permission-needed permissions cancelled = refl
has_permission-needed permissions _ = refl

module _ (core : CoreService) (actor : ActorContext) (status : OrderStatus) where
  permission-Checks :
      (w : World)
      → Checks
          (λ _. HasPermission core actor status w)
          w
          (assert_restaurant_member_permission core actor status w)
  unfolding assert_restaurant_member_permission
  permission-Checks w =
      let role = get_or actor.restaurant_role "undefined" in
      Checks-bind (AreOf core role w) (λ _. HasPermission core actor status w) w
        (λ ps. lift (
          if has_permission ps "orders" (permission_action status)
          then ok tt
          else err un_authorised))
        (get_permissions core role w) (get_permissions-Checks core role w)
        (λ ps v d t known.
          by_test ps v d t known (has_permission ps "orders" (permission_action status)) refl)
    where
      by_test :
          (ps : List String) (v : World)
          → v.db ≡ w.db
          → v.now ≡ w.now
          → AreOf core (get_or actor.restaurant_role "undefined") w ps
          → (b : Bool) → has_permission ps "orders" (permission_action status) ≡ b
          → Checks
              (λ _. HasPermission core actor status w)
              w
              (lift (if b then ok tt else err un_authorised) v)
      by_test ps v d t known true h = (d, t, (ps, known, sym (has_permission-needed ps status) ∙ h))
      by_test ps v d t known false h = d

  -- The check of `updateStatus`, for whichever actor.
  pub when_member-Checks :
      (who : StatusActor) (w : World)
      → Checks
          (λ _. Permitted core actor status w who)
          w
          (when
            (who == restaurant_member)
            (assert_restaurant_member_permission core actor status)
            w)
  when_member-Checks restaurant_member w = permission-Checks w
  when_member-Checks customer w = (refl, refl, tt)
  when_member-Checks agent w = (refl, refl, tt)
  when_member-Checks system w = (refl, refl, tt)
  when_member-Checks admin w = (refl, refl, tt)
