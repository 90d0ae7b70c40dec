-- ===== src/Order/Model.antt =====
-- The data of the order module: `src/app/order/enums.ts`, `entity/order.entity.ts`,
-- `entity/order-item.entity.ts` and `types.ts`. Coordinates are whole numbers of 10⁻⁷ degrees (the
-- columns are DECIMAL(10,7)), instants are milliseconds, money is in minor units.
use quick_bite_order_service.Common.{ℕ, ℤ, String, List, Option, Bool, ◌≡◌, ◌↔◌, arith, Eq, nat_beq}

pub data OrderStatus : Type 0 where
  pending_payment placed accepted rejected preparing : OrderStatus
  ready assigned picked delivered cancelled : OrderStatus

pub data PaymentMethod : Type 0 where
  online cod : PaymentMethod

pub data StatusActor : Type 0 where
  customer restaurant_member agent system admin : StatusActor

-- Equality of enums, by the position of each member.
abbrev pub status_index : OrderStatus → ℕ
status_index pending_payment = 0
status_index placed = 1
status_index accepted = 2
status_index rejected = 3
status_index preparing = 4
status_index ready = 5
status_index assigned = 6
status_index picked = 7
status_index delivered = 8
status_index cancelled = 9

abbrev pub status_beq : OrderStatus → OrderStatus → Bool
status_beq s t = nat_beq (status_index s) (status_index t)

pub status_beq_iff : (s t : OrderStatus) → (status_beq s t ≡ Bool.true) ↔ (s ≡ t)
status_beq_iff s t = ground arith

instance abbrev pub status_eq : Eq OrderStatus
status_eq = record { test = status_beq; test_iff = status_beq_iff }

abbrev pub actor_index : StatusActor → ℕ
actor_index customer = 0
actor_index restaurant_member = 1
actor_index agent = 2
actor_index system = 3
actor_index admin = 4

abbrev pub actor_beq : StatusActor → StatusActor → Bool
actor_beq a b = nat_beq (actor_index a) (actor_index b)

pub actor_beq_iff : (a b : StatusActor) → (actor_beq a b ≡ Bool.true) ↔ (a ≡ b)
actor_beq_iff a b = ground arith

instance abbrev pub actor_eq : Eq StatusActor
actor_eq = record { test = actor_beq; test_iff = actor_beq_iff }

abbrev pub is_online : PaymentMethod → Bool
is_online online = Bool.true
is_online cod = Bool.false

abbrev pub is_cod : PaymentMethod → Bool
is_cod online = Bool.false
is_cod cod = Bool.true

pub record OrderEntity : Type 0 where
  pub id : ℕ
  pub region : String
  pub public_id : String
  pub country_code : String
  pub restaurant_id : ℕ
  pub restaurant_owner_id : ℕ
  pub branch_id : ℕ
  pub customer_id : ℕ
  pub customer_address_id : ℕ
  pub delivery_lat : ℤ
  pub delivery_lng : ℤ
  pub delivery_address_text_snapshot : String
  pub branch_lat : ℤ
  pub branch_lng : ℤ
  pub status : OrderStatus
  pub subtotal : ℕ
  pub delivery_fee : ℕ
  pub service_fee : ℕ
  pub total : ℕ
  pub commission : ℕ
  pub currency : String
  pub payment_method : PaymentMethod
  pub delivery_agent_id : Option ℕ
  pub created_at : ℕ
  pub updated_at : ℕ
  pub accepted_at : Option ℕ
  pub rejected_at : Option ℕ
  pub ready_at : Option ℕ
  pub assigned_at : Option ℕ
  pub picked_at : Option ℕ
  pub delivered_at : Option ℕ
  pub cancelled_at : Option ℕ

pub record OrderItemEntity : Type 0 where
  pub id : ℕ
  pub region : String
  pub order_id : ℕ
  pub product_id : ℕ
  pub quantity : ℕ
  pub unit_price_snapshot : ℕ
  pub name_snapshot : String
  pub image_url_snapshot : Option String
  pub line_total : ℕ
  pub created_at : ℕ

pub record CreateOrderInput : Type 0 where
  pub region : String
  pub public_id : String
  pub country_code : String
  pub restaurant_id : ℕ
  pub restaurant_owner_id : ℕ
  pub branch_id : ℕ
  pub customer_id : ℕ
  pub customer_address_id : ℕ
  pub delivery_lat : ℤ
  pub delivery_lng : ℤ
  pub delivery_address_text_snapshot : String
  pub branch_lat : ℤ
  pub branch_lng : ℤ
  pub status : OrderStatus
  pub subtotal : ℕ
  pub delivery_fee : ℕ
  pub service_fee : ℕ
  pub total : ℕ
  pub currency : String
  pub payment_method : PaymentMethod

pub record InsertOrderItemInput : Type 0 where
  pub region : String
  pub order_id : ℕ
  pub product_id : ℕ
  pub quantity : ℕ
  pub unit_price_snapshot : ℕ
  pub name_snapshot : String
  pub image_url_snapshot : Option String
  pub line_total : ℕ

pub record OrderLineDraft : Type 0 where
  pub product_id : ℕ
  pub quantity : ℕ
  pub unit_price : ℕ
  pub line_total : ℕ
  pub name : String
  pub image_url : Option String

-- The roles of a token that the code tells apart; it compares no other text.
pub data Role : Type 0 where
  system_admin restaurant_user delivery_agent : Role
  other_role : String → Role

pub record ActorContext : Type 0 where
  pub user_id : ℕ
  pub role : Role
  pub restaurant_id : Option ℕ
  pub restaurant_role : Option String
  pub branch_ids : Option (List ℕ)
