-- ===== src/Finance/Payout.antt =====
-- `FinanceService.recordPayout`: `src/app/finance/service/finance.service.ts`. An administrator records
-- a bank transfer that was made elsewhere.
pub mod Sound
pub mod Exact
use quick_bite_order_service.Common.{Option, String, none, some, suc, zero, ℕ}
use quick_bite_order_service.Errors.{Result, err, insufficient_balance, ok, restaurant_not_found}
use quick_bite_order_service.Finance.Model.{CreatePayoutRequest, RestaurantBalanceEntity}
use quick_bite_order_service.Finance.Repository.{decrement_if_sufficient}
use quick_bite_order_service.Order.Repository.{find_owner_id_for_restaurant}
use quick_bite_order_service.Payment.Model.{
  CreateTransactionInput, TransactionEntity, TransactionMethod, TransactionStatus, TransactionType,
}
use quick_bite_order_service.Payment.Repository.{create_transaction}
use quick_bite_order_service.World.Monad.{
  M, call, catch, checked, ignore_errors, lift, pure, query, statement, throw, ◌>>=◌, ◌>>◌,
}
use quick_bite_order_service.World.State.{Db}

-- `await trx.rollback()`
abbrev pub roll_back : Db → M (Unit {0})
roll_back old w = call (λ v. (ok tt, v)) (record w { db = old })

abbrev pub payout_row : CreatePayoutRequest → String → String → ℕ → CreateTransactionInput
payout_row body region key owner_id = record {
  region = region;
  order_id = none;
  transaction_type = TransactionType.payout;
  method = TransactionMethod.bank_transfer;
  provider_id = none;
  provider_reference_id = some body.provider_reference_id;
  status = TransactionStatus.succeeded;
  amount = body.amount;
  currency = body.currency;
  src_acc_id = none;
  dst_acc_id = some owner_id;
  idempotency_key = some key;
}

-- `if (!ownerId) throw RestaurantNotFoundError;` 0 counts as missing.
unfoldable pub owner_or_throw : Option ℕ → Result ℕ
owner_or_throw none = err restaurant_not_found
owner_or_throw (some zero) = err restaurant_not_found
owner_or_throw (some (suc n)) = ok (suc n)

-- `if (!decremented) { await trx.rollback(); throw InsufficientBalanceError; }`
abbrev pub sufficient_or_throw : Db → Option RestaurantBalanceEntity → M (Unit {0})
sufficient_or_throw old (some b) = pure tt
sufficient_or_throw old none = roll_back old >> throw insufficient_balance

-- The block of the `try`; `old` is the state at the start of the transaction.
unfoldable pub payout_writes : CreatePayoutRequest → String → String → ℕ → Db → M TransactionEntity
payout_writes body region key owner_id old = do
  decremented ← statement (decrement_if_sufficient body.restaurant_id body.currency body.amount)
  sufficient_or_throw old decremented
  t ← checked (create_transaction (payout_row body region key owner_id))
  call (λ w. (ok tt, w))
  pure t

-- `recordPayout`
unfoldable pub record_payout : CreatePayoutRequest → String → String → M TransactionEntity
record_payout body region key = do
  owner ← query (find_owner_id_for_restaurant body.restaurant_id)
  owner_id ← lift (owner_or_throw owner)
  call (λ w. (ok tt, w))
  λ w.
      catch (payout_writes body region key owner_id w.db)
        (λ e. ignore_errors (roll_back w.db) >> throw e) w
