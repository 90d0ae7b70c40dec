-- ===== src/Core/Model.antt =====
-- What the core service answers: `src/lib/core-client/types.ts`.
use quick_bite_order_service.Common.{Bool, Option, String, ℕ, ℤ}

pub record CoreBranchMetadata : Type 0 where
  pub id : ℕ
  pub restaurant_id : ℕ
  pub restaurant_owner_id : ℕ
  pub restaurant_status : String
  pub region : String
  pub is_active : Bool
  pub accept_orders : Bool
  pub delivery_fee : ℕ
  pub commission_bps : ℕ
  pub currency : String
  pub lat : ℤ
  pub lng : ℤ
  pub name : String
  pub address_text : String

pub record CoreBranchProduct : Type 0 where
  pub product_id : ℕ
  pub name : String
  pub image_url : Option String
  pub price : ℕ
  pub stock : ℕ
  pub is_available : Bool

pub record ReserveStockItem : Type 0 where
  pub product_id : ℕ
  pub quantity : ℕ

pub record CoreCustomerAddress : Type 0 where
  pub id : ℕ
  pub user_id : ℕ
  pub country : String
  pub city : String
  pub street : String
  pub building : String
  pub lat : ℤ
  pub lng : ℤ
