-- ===== src/Payment/Session.antt =====
-- `PaymentService`: `src/app/payment/service/payment.service.ts`.
use mathlib.Core.Option.{get_or}
use quick_bite_order_service.Common.{
  Bool, Option, String, false, if◌then◌else◌, nat_eq, none, not, some, string_eq, ℕ, ◌+◌, ◌==◌,
}
use quick_bite_order_service.Errors.{
  Result, err, ok, or_throw, payment_not_found, payment_provider_unavailable, un_authorised,
}
use quick_bite_order_service.Order.Model.{OrderEntity, actor_eq, status_eq}
use quick_bite_order_service.Payment.Model.{
  CreateSessionRowInput, KashierWebhookEnvelope, PaymentSessionEntity, PaymentSessionStatus,
  TransactionEntity, kashier_provider_id,
}
use quick_bite_order_service.Payment.Repository.{
  create_session, find_active_session_by_order_id, find_transaction_with_restaurant,
}
use quick_bite_order_service.World.Monad.{
  M, call, catch, checked, clock, lift, pure, query, throw, ◌>>=◌,
}

-- What the payment provider answers to `createSession`.
pub record CreateSessionResult : Type 0 where
  pub provider_session_id : String
  pub redirect_url : String
  pub raw_response : String
  pub expires_at : Option ℕ

-- The payment provider: sessions for orders, and the check of a webhook's signature.
pub record PaymentProvider : Type 0 where
  pub new_session : OrderEntity → Result CreateSessionResult
  pub verify : KashierWebhookEnvelope → String → Bool
  pub session_ttl_ms : ℕ

pub record InitOnlinePaymentResult : Type 0 where
  pub session : PaymentSessionEntity
  pub expires_at : ℕ

-- Every failure of the provider becomes this error.
abbrev pub provider_session : PaymentProvider → OrderEntity → M CreateSessionResult
provider_session provider o =
    catch (call (λ w. (provider.new_session o, w))) (λ _. throw payment_provider_unavailable)

abbrev pub session_row : OrderEntity → CreateSessionResult → CreateSessionRowInput
session_row o r = record {
  region = o.region;
  order_id = o.id;
  provider_id = kashier_provider_id;
  provider_session_id = r.provider_session_id;
  redirect_url = r.redirect_url;
  amount = o.total;
  currency = o.currency;
  status = PaymentSessionStatus.initialized;
  raw_init_payload = r.raw_response;
}

abbrev pub open_session : PaymentProvider → OrderEntity → M InitOnlinePaymentResult
open_session provider o = do
  r ← provider_session provider o
  s ← checked (create_session (session_row o r))
  now ← clock
  pure (record { session = s; expires_at = get_or r.expires_at (now + provider.session_ttl_ms) })

abbrev pub existing_or_open :
    PaymentProvider → OrderEntity → Option PaymentSessionEntity → M InitOnlinePaymentResult
existing_or_open provider o none = open_session provider o
existing_or_open provider o (some s) =
    pure (record { session = s; expires_at = s.created_at + provider.session_ttl_ms })

-- `initOnlinePayment`
unfoldable pub init_online_payment : PaymentProvider → OrderEntity → M InitOnlinePaymentResult
init_online_payment provider o = do
  existing ← query (find_active_session_by_order_id o.id)
  existing_or_open provider o existing

-- `found.restaurantId !== null && found.restaurantId !== restaurantId`
abbrev pub is_elsewhere : Option ℕ → ℕ → Bool
is_elsewhere none restaurant_id = false
is_elsewhere (some r) restaurant_id = not (r == restaurant_id)

unfoldable pub check_payment_owner : TransactionEntity × Option ℕ → ℕ → Result TransactionEntity
check_payment_owner (t, owner) restaurant_id =
    if is_elsewhere owner restaurant_id then err un_authorised else ok t

-- `getById`
unfoldable pub get_payment_by_id : ℕ → ℕ → M TransactionEntity
get_payment_by_id payment_id restaurant_id = do
  found ← query (find_transaction_with_restaurant payment_id)
  t ← lift (or_throw found payment_not_found)
  lift (check_payment_owner t restaurant_id)
