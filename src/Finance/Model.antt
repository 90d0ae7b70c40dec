-- ===== src/Finance/Model.antt =====
-- The data of the finance module: `src/app/finance/entity/restaurant-balance.entity.ts` and
-- `dto/finance.request.dto.ts`. A balance may be negative: nothing stops a commission above the
-- subtotal.
use quick_bite_order_service.Common.{String, ℕ, ℤ}

pub record RestaurantBalanceEntity : Type 0 where
  pub restaurant_id : ℕ
  pub region : String
  pub currency : String
  pub balance : ℤ
  pub updated_at : ℕ

pub record CreatePayoutRequest : Type 0 where
  pub restaurant_id : ℕ
  pub amount : ℕ
  pub currency : String
  pub provider_reference_id : String
