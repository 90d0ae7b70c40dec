-- ===== src/Finance/Repository.antt =====
-- Statements on the running balances: `src/app/finance/repository/restaurant-balance.repo.ts`.
use mathlib.Core.Option
use quick_bite_order_service.Common.{
  Bool, List, Option, String, [], find, if◌then◌else◌, keep, leb_ℤ, nat_eq, pos, string_eq, update,
  ℕ, ℤ, ◌&&◌, ◌+ℤ◌, ◌-ℤ◌, ◌==◌, ◌∷◌,
}
use quick_bite_order_service.Finance.Model.{RestaurantBalanceEntity}
use quick_bite_order_service.Order.Model.{actor_eq, status_eq}
use quick_bite_order_service.World.State.{Db}

abbrev pub is_balance : ℕ → String → RestaurantBalanceEntity → Bool
is_balance restaurant_id currency b = b.restaurant_id == restaurant_id && b.currency == currency

unfoldable pub find_by_restaurant : ℕ → ℕ → Db → List RestaurantBalanceEntity
find_by_restaurant restaurant_id now d = keep (λ b. b.restaurant_id == restaurant_id) d.balances

abbrev pub add_to : ℤ → ℕ → RestaurantBalanceEntity → RestaurantBalanceEntity
add_to delta now b = record b { balance = b.balance +ℤ delta; updated_at = now }

-- `INSERT … ON CONFLICT (restaurant_id, currency) DO UPDATE SET balance = balance + EXCLUDED.balance`
unfoldable pub increment :
    ℕ → String → String → ℤ → ℕ → List RestaurantBalanceEntity → List RestaurantBalanceEntity
increment restaurant_id region currency delta now [] =
    record {
      restaurant_id = restaurant_id;
      region = region;
      currency = currency;
      balance = delta;
      updated_at = now;
    }
    ∷ []
increment restaurant_id region currency delta now (b ∷ bs) =
    let rest = increment restaurant_id region currency delta now bs in
    if is_balance restaurant_id currency b then add_to delta now b ∷ bs else b ∷ rest

unfoldable pub upsert_increment : ℕ → String → String → ℤ → ℕ → Db → Unit {0} × Db
upsert_increment restaurant_id region currency delta now d =
    (tt, record d { balances = increment restaurant_id region currency delta now d.balances })

abbrev pub can_pay : ℕ → String → ℕ → RestaurantBalanceEntity → Bool
can_pay restaurant_id currency amount b =
    is_balance restaurant_id currency b && leb_ℤ (pos amount) b.balance

abbrev pub take_from : ℕ → ℕ → RestaurantBalanceEntity → RestaurantBalanceEntity
take_from amount now b = record b { balance = b.balance -ℤ pos amount; updated_at = now }

-- `UPDATE … SET balance = balance - ? WHERE restaurant_id = ? AND currency = ? AND balance >= ?`
unfoldable pub decrement :
    ℕ → String → ℕ → ℕ → List RestaurantBalanceEntity → List RestaurantBalanceEntity
decrement restaurant_id currency amount now =
    update (can_pay restaurant_id currency amount) (take_from amount now)

-- `decrementIfSufficient`
unfoldable pub decrement_if_sufficient :
    ℕ → String → ℕ → ℕ → Db → Option RestaurantBalanceEntity × Db
unfolding decrement
decrement_if_sufficient restaurant_id currency amount now d = (
  Option.map (take_from amount now) (find (can_pay restaurant_id currency amount) d.balances),
  record d { balances = decrement restaurant_id currency amount now d.balances },
)
