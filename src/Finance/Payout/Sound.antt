-- ===== src/Finance/Payout/Sound.antt =====
-- What `recordPayout` can do to the balances and the ledger.
use quick_bite_order_service.Common.{
  All, Bool, Bool-cases, List, Option, String, [], ap, arith, false, if◌then◌else◌, inl, inr,
  int_laws, leb_ℤ, none, pos, refl, some, some-injective, subst, sym, true, ℕ, ℤ, ◌-ℤ◌, ◌∷◌, ◌≡◌,
  ◌≤ℤ◌,
}
use quick_bite_order_service.Errors.{insufficient_balance, ok}
use quick_bite_order_service.Finance.Model.{CreatePayoutRequest, RestaurantBalanceEntity}
use quick_bite_order_service.Finance.Payout.{
  owner_or_throw, payout_row, payout_writes, record_payout, roll_back, sufficient_or_throw,
}
use quick_bite_order_service.Finance.Repository.{
  can_pay, decrement, decrement_if_sufficient, take_from,
}
use quick_bite_order_service.Order.Repository.{find_owner_id_for_restaurant}
use quick_bite_order_service.Payment.Model.{CreateTransactionInput, TransactionEntity}
use quick_bite_order_service.Payment.Repository.{append_transaction, create_transaction, key_taken}
use quick_bite_order_service.World.Frame.{query-Keeps}
use quick_bite_order_service.World.Monad.{
  call, catch, checked, ignore_errors, lift, pure, query, statement, throw, ◌>>◌,
}
use quick_bite_order_service.World.State.{Db}
use quick_bite_order_service.World.Stays.{
  Stays, Stays-bind, Stays-call, Stays-catch, Stays-checked, Stays-ignore, Stays-Keeps,
  Stays-statement,
}

-- No balance is negative.
abbrev pub Solvent : Db → Type 0
Solvent d = All (λ b. pos 0 ≤ℤ b.balance) d.balances

taken_lem : (amount : ℕ) (x : ℤ) → leb_ℤ (pos amount) x ≡ true → pos 0 ≤ℤ (x -ℤ pos amount)
taken_lem amount x h = let enough : pos amount ≤ℤ x = ground arith in omega (int_laws, enough)

decrement-Solvent :
    (r : ℕ) (c : String) (amount now : ℕ) (bs : List RestaurantBalanceEntity)
    → All (λ b. pos 0 ≤ℤ b.balance) bs
    → All (λ b. pos 0 ≤ℤ b.balance) (decrement r c amount now bs)
unfolding decrement
decrement-Solvent r c amount now [] h = tt
decrement-Solvent r c amount now (b ∷ bs) (p, h) =
    (kept (can_pay r c amount b) refl, decrement-Solvent r c amount now bs h)
  where
    kept :
        (pays : Bool)
        → can_pay r c amount b ≡ pays
        → pos 0 ≤ℤ (if pays then take_from amount now b else b).balance
    kept true e = taken_lem amount b.balance (ground arith)
    kept false e = p

create_transaction-balances :
    (input : CreateTransactionInput) (now : ℕ) (d : Db) (t : TransactionEntity) (d' : Db)
    → create_transaction input now d ≡ some (t, d')
    → d'.balances ≡ d.balances
unfolding create_transaction append_transaction
create_transaction-balances input now d t d' e =
    elim (Bool-cases (key_taken input.idempotency_key d)) [
      | inl taken ↦ cc (rw taken at e)
      | inr free ↦ sym (ap (λ x. x.1.balances) (some-injective (rw free at e)))
    ]

pub roll_back-Stays : (P : Db → Type 0) (old : Db) → P old → Stays P (roll_back old)
roll_back-Stays P old p w _ = Stays-call P (λ v. (ok tt, v)) (λ v q. q) (record w { db = old }) p

module _ (body : CreatePayoutRequest) (region key : String) where
  -- However a payout ends, no balance is negative if none was before.
  pub record_payout-Solvent : Stays Solvent (record_payout body region key)
  unfolding record_payout payout_writes decrement_if_sufficient
  record_payout-Solvent =
      let P = Solvent in
      Stays-bind P (query (find_owner_id_for_restaurant body.restaurant_id)) _
        (Stays-Keeps P (query (find_owner_id_for_restaurant body.restaurant_id)) (query-Keeps _))
        λ owner.
          Stays-bind P (lift (owner_or_throw owner)) _ (λ w p. p)
            λ owner_id.
              Stays-bind P (call (λ w. (ok tt, w)))
                (λ (_ : Unit {0}) w.
                  catch (payout_writes body region key owner_id w.db)
                    (λ e. ignore_errors (roll_back w.db) >> throw e) w)
                (Stays-call P _ (λ w p. p))
                λ _ w p.
                  Stays-catch P (payout_writes body region key owner_id w.db)
                    (λ e. ignore_errors (roll_back w.db) >> throw e) (writes owner_id w.db p)
                    (λ e.
                      Stays-bind P {B = TransactionEntity} (ignore_errors (roll_back w.db))
                        (λ _. throw e) (Stays-ignore P (roll_back w.db) (roll_back-Stays P w.db p))
                        (λ _ v q. q))
                    w p
    where
      enough :
          (old : Db) (b : Option RestaurantBalanceEntity)
          → Solvent old
          → Stays Solvent (sufficient_or_throw old b)
      enough old (some b) p = λ w q. q
      enough old none p =
          Stays-bind Solvent (roll_back old) (λ _. throw insufficient_balance)
            (roll_back-Stays Solvent old p) (λ _ v q. q)

      writes :
          (owner_id : ℕ) (old : Db)
          → Solvent old
          → Stays Solvent (payout_writes body region key owner_id old)
      writes owner_id old p =
          Stays-bind Solvent
            (statement (decrement_if_sufficient body.restaurant_id body.currency body.amount)) _
            (Stays-statement Solvent
              (decrement_if_sufficient body.restaurant_id body.currency body.amount)
              (λ now d q.
                decrement-Solvent body.restaurant_id body.currency body.amount now d.balances q))
            λ b. Stays-bind Solvent (sufficient_or_throw old b) _ (enough old b p) λ _.
              Stays-bind Solvent
                (checked (create_transaction (payout_row body region key owner_id))) _
                (Stays-checked Solvent (create_transaction (payout_row body region key owner_id))
                  (λ now d t d' e q.
                    subst (All (λ b. pos 0 ≤ℤ b.balance))
                      (sym (create_transaction-balances _ now d t d' e)) q))
                λ t.
                  Stays-bind Solvent (call (λ w. (ok tt, w))) (λ _. pure t)
                    (Stays-call Solvent _ (λ w q. q)) (λ _ w q. q)
