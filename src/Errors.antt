-- ===== src/Errors.antt =====
-- The errors that the service throws: `src/lib/error/AppError.ts`, the `errors.ts` of each module
-- under `src/app`, `src/lib/auth`, `src/lib/core-client` and `src/lib/sharding`, and the result of a
-- call that may throw.
use quick_bite_order_service.Common.{List, Option, String, none, some, ℕ}
use quick_bite_order_service.Order.Model.{OrderStatus}

pub record UnavailableItem : Type 0 where
  pub product_id : ℕ
  pub requested : ℕ
  pub available : ℕ

-- One constructor for each error constant or factory; `unexpected` is any other thrown `Error`
-- (a failed statement, a broken connection).
pub data AppError : Type 0 where
  order_not_found branch_not_accepting_orders cancellation_window_expired : AppError
  reason_required online_payment_not_available invalid_backfill_year : AppError
  invalid_status_transition : OrderStatus → OrderStatus → AppError
  out_of_stock : List UnavailableItem → AppError
  offline_while_picked offer_not_found_or_expired not_in_candidate_list : AppError
  order_already_claimed order_not_in_ready_state not_your_task : AppError
  order_not_in_assigned_state invalid_agent_transition : AppError
  insufficient_balance restaurant_not_found : AppError
  payment_provider_unavailable payment_not_found invalid_webhook_signature : AppError
  malformed_webhook : AppError
  not_authenticated un_authorised : AppError
  core_service_unavailable : AppError
  core_upstream : ℕ → AppError
  region_not_resolved : AppError
  unknown_region : Option String → AppError
  unexpected : AppError

-- The second argument of each `new AppError(message, statusCode)`.
abbrev pub status_code : AppError → ℕ
status_code order_not_found = 404
status_code branch_not_accepting_orders = 409
status_code cancellation_window_expired = 409
status_code reason_required = 400
status_code online_payment_not_available = 409
status_code invalid_backfill_year = 400
status_code (invalid_status_transition _ _) = 409
status_code (out_of_stock _) = 409
status_code offline_while_picked = 409
status_code offer_not_found_or_expired = 404
status_code not_in_candidate_list = 403
status_code order_already_claimed = 409
status_code order_not_in_ready_state = 409
status_code not_your_task = 403
status_code order_not_in_assigned_state = 409
status_code invalid_agent_transition = 400
status_code insufficient_balance = 409
status_code restaurant_not_found = 404
status_code payment_provider_unavailable = 503
status_code payment_not_found = 404
status_code invalid_webhook_signature = 401
status_code malformed_webhook = 400
status_code not_authenticated = 401
status_code un_authorised = 403
status_code core_service_unavailable = 503
status_code (core_upstream status) = status
status_code region_not_resolved = 400
status_code (unknown_region _) = 400
status_code unexpected = 500

pub data Result {ℓ} (A : Type ℓ) : Type ℓ where
  ok : A → Result A
  err : AppError → Result A

-- `if (!found) throw e;`
abbrev pub or_throw {ℓ} : {A : Type ℓ} → Option A → AppError → Result A
or_throw none e = err e
or_throw (some a) _ = ok a
