-- ===== src/Payment/Model.antt =====
-- The data of the payment module: `src/app/payment/enums.ts`, `entity/` and `types.ts`, and the
-- webhook envelope of `src/pkg/payments/kashier/types.ts`.
use quick_bite_order_service.Common.{Bool, List, Option, String, ℕ}
use quick_bite_order_service.Errors.{AppError}

pub data PaymentSessionStatus : Type 0 where
  initialized pending authorized captured failed expired cancelled : PaymentSessionStatus

pub data TransactionType : Type 0 where
  charge refund commission payout cod_collection service_fee delivery_fee adjustment :
      TransactionType

pub data TransactionMethod : Type 0 where
  online cod bank_transfer system : TransactionMethod

pub data TransactionStatus : Type 0 where
  pending succeeded failed reversed : TransactionStatus

-- `PAYMENT_PROVIDER_IDS`
abbrev pub kashier_provider_id : ℕ
kashier_provider_id = 1

-- The fields of the inbound envelope that the service reads. `event` and `status` are texts that the
-- sender chooses.
pub record KashierWebhookEnvelope : Type 0 where
  pub event : String
  pub merchant_order_id : String
  pub transaction_id : String
  pub status : String
  pub signature_keys : List String

pub record PaymentSessionEntity : Type 0 where
  pub id : ℕ
  pub region : String
  pub order_id : ℕ
  pub provider_id : ℕ
  pub provider_session_id : String
  pub redirect_url : String
  pub amount : ℕ
  pub currency : String
  pub status : PaymentSessionStatus
  pub raw_init_payload : String
  pub raw_last_payload : Option KashierWebhookEnvelope
  pub created_at : ℕ
  pub updated_at : ℕ

pub record PaymentWebhookEventEntity : Type 0 where
  pub id : ℕ
  pub region : String
  pub provider_id : ℕ
  pub provider_event_id : String
  pub signature : String
  pub payload : KashierWebhookEnvelope
  pub received_at : ℕ
  pub processed_at : Option ℕ
  pub process_error : Option AppError

pub record TransactionEntity : Type 0 where
  pub id : ℕ
  pub region : String
  pub order_id : Option ℕ
  pub transaction_type : TransactionType
  pub method : TransactionMethod
  pub provider_id : Option ℕ
  pub provider_reference_id : Option String
  pub status : TransactionStatus
  pub amount : ℕ
  pub currency : String
  pub src_acc_id : Option ℕ
  pub dst_acc_id : Option ℕ
  pub is_refunded : Bool
  pub refunded_payment_id : Option ℕ
  pub idempotency_key : Option String
  pub created_at : ℕ
  pub updated_at : ℕ

pub record CreateSessionRowInput : Type 0 where
  pub region : String
  pub order_id : ℕ
  pub provider_id : ℕ
  pub provider_session_id : String
  pub redirect_url : String
  pub amount : ℕ
  pub currency : String
  pub status : PaymentSessionStatus
  pub raw_init_payload : String

pub record CreateTransactionInput : Type 0 where
  pub region : String
  pub order_id : Option ℕ
  pub transaction_type : TransactionType
  pub method : TransactionMethod
  pub provider_id : Option ℕ
  pub provider_reference_id : Option String
  pub status : TransactionStatus
  pub amount : ℕ
  pub currency : String
  pub src_acc_id : Option ℕ
  pub dst_acc_id : Option ℕ
  pub idempotency_key : Option String

pub record RecordWebhookInput : Type 0 where
  pub region : String
  pub provider_id : ℕ
  pub provider_event_id : String
  pub signature : String
  pub payload : KashierWebhookEnvelope
