-- ===== src/Finance/Accounts.antt =====
-- What the tables say about money, as sums over their rows, and how each statement moves these sums.
use quick_bite_order_service.Common.{
  +ℤ-zero, +ℤ_assoc, +ℤ_comm, AtMostOne, Bool, Bool-cases, List, Option, String, [], arith, eq_iff,
  false, if◌then◌else◌, inl, inr, is_zero_ℤ, move_middle, nat_eq, none, not, pos, some, string_eq,
  sum_by, sum_by-append_one, sym, true, ℕ, ℤ, ◌&&◌, ◌+ℤ◌, ◌-ℤ◌, ◌==◌, ◌∷◌, ◌≡◌,
}
use quick_bite_order_service.Finance.Model.{RestaurantBalanceEntity}
use quick_bite_order_service.Finance.Repository.{increment, is_balance, upsert_increment}
use quick_bite_order_service.Order.Model.{OrderEntity, actor_eq, delivered, status_eq}
use quick_bite_order_service.Order.Repository.{has_public_id}
use quick_bite_order_service.Payment.Model.{
  CreateTransactionInput, TransactionEntity, TransactionStatus, TransactionType,
}
use quick_bite_order_service.Payment.Repository.{
  book, create_transaction_idempotent, key_taken, new_transaction,
}
use quick_bite_order_service.World.State.{Db}

abbrev if_then : Bool → ℤ → ℤ
if_then b x = if b then x else pos 0

-- The balances of the restaurants and currencies that `p` selects.
abbrev pub held : (ℕ → String → Bool) → Db → ℤ
held p d = sum_by (λ b. if p b.restaurant_id b.currency then b.balance else pos 0) d.balances

-- One restaurant's balance in one currency.
abbrev pub balance_of : ℕ → String → Db → ℤ
balance_of restaurant_id currency = held (λ r c. r == restaurant_id && c == currency)

-- All balances in one currency.
abbrev pub total_balance : String → Db → ℤ
total_balance currency = held (λ r c. c == currency)

abbrev pub is_account : Option ℕ → ℕ → Bool
is_account none a = false
is_account (some b) a = b == a

abbrev pub is_succeeded : TransactionStatus → Bool
is_succeeded TransactionStatus.succeeded = true
is_succeeded _ = false

-- What a row of the ledger adds to an account: its amount if it flows in, less it if it flows out.
abbrev pub flow : ℕ → String → TransactionEntity → ℤ
flow account currency t =
    if is_succeeded t.status && t.currency == currency
    then (if is_account t.dst_acc_id account then pos t.amount else pos 0)
      -ℤ (if is_account t.src_acc_id account then pos t.amount else pos 0)
    else pos 0

abbrev pub account_net : ℕ → String → Db → ℤ
account_net account currency d = sum_by (flow account currency) d.transactions.rows

abbrev pub is_payout : TransactionType → Bool
is_payout TransactionType.payout = true
is_payout _ = false

abbrev pub payout_amount : String → TransactionEntity → ℤ
payout_amount currency t =
    if is_payout t.transaction_type && t.currency == currency then pos t.amount else pos 0

-- All payouts in one currency.
abbrev pub paid_out : String → Db → ℤ
paid_out currency d = sum_by (payout_amount currency) d.transactions.rows

abbrev pub earned_amount : String → OrderEntity → ℤ
earned_amount currency o =
    if o.status == delivered && o.currency == currency
    then pos o.subtotal -ℤ pos o.commission
    else pos 0

-- What the delivered orders in one currency brought their restaurants.
abbrev pub earned : String → Db → ℤ
earned currency d = sum_by (earned_amount currency) d.orders.rows

-- The primary keys and the identity of orders: at most one row for each.
pub record UniqueRows (d : Db) : Type 0 where
  pub one_balance :
      (restaurant_id : ℕ) (currency : String)
      → AtMostOne (is_balance restaurant_id currency) d.balances
  pub one_order : (public_id : String) → AtMostOne (has_public_id public_id) d.orders.rows

is_balance-eq :
    (r : ℕ) (c : String) (b : RestaurantBalanceEntity)
    → is_balance r c b ≡ true
    → (b.restaurant_id ≡ r) × (b.currency ≡ c)
is_balance-eq r c b h = (ground arith, ground (arith, eq_iff b.currency c))

add_selected :
    (q : Bool) (x delta s : ℤ)
    → (if q then x +ℤ delta else pos 0) +ℤ s
      ≡ (if q then x else pos 0) +ℤ s +ℤ (if q then delta else pos 0)
add_selected true x delta s = move_middle x delta s
add_selected false x delta s = sym (+ℤ-zero _)

pub held-increment :
    (p : ℕ → String → Bool) (r : ℕ) (region c : String) (delta : ℤ) (now : ℕ)
    (bs : List RestaurantBalanceEntity)
    → sum_by
        (λ b. if p b.restaurant_id b.currency then b.balance else pos 0)
        (increment r region c delta now bs)
      ≡ sum_by (λ b. if p b.restaurant_id b.currency then b.balance else pos 0) bs
        +ℤ (if p r c then delta else pos 0)
unfolding increment
held-increment p r region c delta now [] = +ℤ_comm _ _
held-increment p r region c delta now (b ∷ bs) = elim (Bool-cases (is_balance r c b)) [
  | inl same ↦
      let (same_r, same_c) = is_balance-eq r c b same in
      let selected : p b.restaurant_id b.currency ≡ p r c = cc (same_r, same_c) in
      rw (same, selected) (add_selected (p r c) b.balance delta _)
  | inr other ↦ rw (other, held-increment p r region c delta now bs) (sym (+ℤ_assoc _ _ _))
]

pub sum_by-book :
    (f : TransactionEntity → ℤ) (input : CreateTransactionInput) (now : ℕ) (d : Db)
    → sum_by f (book input now d).1.transactions.rows ≡ (
        if key_taken input.idempotency_key d
        then sum_by f d.transactions.rows
        else sum_by f d.transactions.rows +ℤ f (new_transaction input d.transactions.next_id now))
unfolding book create_transaction_idempotent
sum_by-book f input now d = elim (Bool-cases (key_taken input.idempotency_key d)) [
  | inl taken ↦ rw taken
  | inr free ↦ rw free (sum_by-append_one f d.transactions.rows _)
]

-- `if (net !== 0) upsertIncrement(net)`
pub held-credit_if :
    (p : ℕ → String → Bool) (r : ℕ) (region c : String) (net : ℤ) (now : ℕ) (d : Db)
    → held p (if not (is_zero_ℤ net) then (upsert_increment r region c net now d).1 else d)
      ≡ held p d +ℤ (if p r c then net else pos 0)
unfolding upsert_increment
held-credit_if p r region c net now d = elim (Bool-cases (is_zero_ℤ net)) [
  | inl nil ↦
      let none_added : (if p r c then net else pos 0) ≡ pos 0 = ground arith in
      rw (nil, none_added) (sym (+ℤ-zero _))
  | inr some_added ↦ rw some_added (held-increment p r region c net now d.balances)
]
