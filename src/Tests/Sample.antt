-- ===== src/Tests/Sample.antt =====
-- Concrete rows, and a world that holds them.
use quick_bite_order_service.Common.{Bool, List, [], none, pos, some, true, ◌∷◌}
use quick_bite_order_service.Core.Client.{CoreService}
use quick_bite_order_service.Core.Model.{CoreBranchMetadata, CoreBranchProduct, CoreCustomerAddress}
use quick_bite_order_service.Errors.{ok}
use quick_bite_order_service.Finance.Model.{RestaurantBalanceEntity}
use quick_bite_order_service.Order.Model.{OrderEntity, OrderStatus, PaymentMethod}
use quick_bite_order_service.Payment.Model.{PaymentSessionEntity, PaymentSessionStatus}
use quick_bite_order_service.World.State.{Db, Redis, Table, World}

abbrev pub sample_branch : CoreBranchMetadata
sample_branch = record {
  id = 4;
  restaurant_id = 3;
  restaurant_owner_id = 9;
  restaurant_status = "active";
  region = "EG";
  is_active = true;
  accept_orders = true;
  delivery_fee = 2000;
  commission_bps = 1500;
  currency = "EGP";
  lat = pos 300000000;
  lng = pos 310000000;
  name = "Nile Grill";
  address_text = "Corniche";
}

abbrev pub sample_product : CoreBranchProduct
sample_product = record {
  product_id = 11;
  name = "Koshari";
  image_url = none;
  price = 5000;
  stock = 6;
  is_available = true;
}

abbrev pub sample_address : CoreCustomerAddress
sample_address = record {
  id = 2;
  user_id = 7;
  country = "EG";
  city = "Cairo";
  street = "Corniche";
  building = "1";
  lat = pos 0;
  lng = pos 0;
}

abbrev pub sample_core : CoreService
sample_core = record {
  branch = λ id. ok sample_branch;
  products = λ id ids. ok (sample_product ∷ []);
  address = λ id. ok sample_address;
  permissions = λ role. ok ("orders:accept" ∷ []);
  reserve = λ id items key. ok tt;
  release = λ id items key. ok tt;
}

-- An order with the agent 5, of 130.00 in all.
abbrev pub sample_order : OrderStatus → PaymentMethod → OrderEntity
sample_order status method = record {
  id = 1;
  region = "eg";
  public_id = "o1";
  country_code = "EG";
  restaurant_id = 3;
  restaurant_owner_id = 9;
  branch_id = 4;
  customer_id = 7;
  customer_address_id = 2;
  delivery_lat = pos 0;
  delivery_lng = pos 0;
  delivery_address_text_snapshot = "1, Corniche, Cairo, EG";
  branch_lat = pos 300000000;
  branch_lng = pos 310000000;
  status = status;
  subtotal = 10000;
  delivery_fee = 2000;
  service_fee = 1000;
  total = 13000;
  commission = 0;
  currency = "EGP";
  payment_method = method;
  delivery_agent_id = some 5;
  created_at = 100;
  updated_at = 100;
  accepted_at = none;
  rejected_at = none;
  ready_at = none;
  assigned_at = none;
  picked_at = none;
  delivered_at = none;
  cancelled_at = none;
}

abbrev pub empty_table : {A : Type 0} → Table A
empty_table = record { rows = []; next_id = 1 }

abbrev pub sample_redis : Redis
sample_redis = record {
  offers = [];
  claims = [];
  attempts = [];
  presence = [];
  geo = [];
  busy = [];
  branches = [];
  reject_flags = [];
  branch_orders = [];
}

abbrev pub sample_balance : RestaurantBalanceEntity
sample_balance = record {
  restaurant_id = 3;
  region = "eg";
  currency = "EGP";
  balance = pos 500;
  updated_at = 0;
}

abbrev pub sample_session : PaymentSessionEntity
sample_session = record {
  id = 1;
  region = "eg";
  order_id = 1;
  provider_id = 1;
  provider_session_id = "s1";
  redirect_url = "u";
  amount = 13000;
  currency = "EGP";
  status = PaymentSessionStatus.initialized;
  raw_init_payload = "";
  raw_last_payload = none;
  created_at = 100;
  updated_at = 100;
}

abbrev pub sample_db : List OrderEntity → Db
sample_db orders = record {
  orders = record { rows = orders; next_id = 2 };
  order_items = empty_table;
  transactions = empty_table;
  balances = sample_balance ∷ [];
  earnings = empty_table;
  sessions = record { rows = sample_session ∷ []; next_id = 2 };
  webhook_events = empty_table;
  outbox = empty_table;
}

-- The world at instant 1000, with a schedule of faults.
abbrev pub sample_world : List OrderEntity → List Bool → World
sample_world orders faults = record {
  db = sample_db orders;
  archive = sample_db [];
  redis = sample_redis;
  sent = [];
  core_calls = [];
  published = [];
  permission_cache = [];
  faults = faults;
  now = 1000;
}
