-- ===== src/Finance/Payout/Exact.antt =====
-- A payout happens as a whole or not at all.
use quick_bite_order_service.Common.{
  All, Bool, List, Option, String, [], ap, arith, eq_iff, false, find, if◌then◌else◌, inl, inr,
  is_some, map-some, nat_eq, none, pos, refl, some, some-injective, string_eq, subst, suc, sym,
  true, zero, ℕ, ◌++◌, ◌+◌, ◌-ℤ◌, ◌==◌, ◌∙◌, ◌∷◌, ◌≡◌, ◌≢◌, ◌≤ℤ◌, ◌⊎◌,
}
use quick_bite_order_service.Errors.{Result, err, insufficient_balance, ok}
use quick_bite_order_service.Finance.Model.{CreatePayoutRequest, RestaurantBalanceEntity}
use quick_bite_order_service.Finance.Payout.{
  owner_or_throw, payout_row, payout_writes, record_payout, roll_back, sufficient_or_throw,
}
use quick_bite_order_service.Finance.Repository.{
  can_pay, decrement, decrement_if_sufficient, take_from,
}
use quick_bite_order_service.Order.Model.{actor_eq, status_eq}
use quick_bite_order_service.Order.Repository.{find_owner_id_for_restaurant}
use quick_bite_order_service.Payment.Model.{
  TransactionEntity, TransactionMethod, TransactionStatus, TransactionType,
}
use quick_bite_order_service.Payment.Repository.{
  append_transaction, create_transaction, has_key, key_taken,
}
use quick_bite_order_service.World.Checks.{Checks-Tables, query-Checks}
use quick_bite_order_service.World.Frame.{
  Tables, bind-Keeps-Tables, bind-Tables, call-Keeps, weaken,
}
use quick_bite_order_service.World.Monad.{
  M, bind_result, call, catch, catch_result, checked, ignore_errors, lift, pure, query, throw,
  ◌>>=◌, ◌>>◌,
}
use quick_bite_order_service.World.Rules.{Ensures, bind-Ensures, bind_call, bind_checked}
use quick_bite_order_service.World.State.{Db, World}
use quick_bite_order_service.World.Stays.{Stays-call, ignored}

-- One of the balances.
abbrev pub Among : RestaurantBalanceEntity → List RestaurantBalanceEntity → Type 0
Among b [] = ⊥
Among b (c ∷ cs) = (b ≡ c) ⊎ Among b cs

module _ (body : CreatePayoutRequest) (region key : String) where
  -- The balance of the restaurant in the currency of the payout, if it is at least the amount.
  abbrev pub IsPayable : RestaurantBalanceEntity → Type 0
  IsPayable b =
      (b.restaurant_id ≡ body.restaurant_id)
      × (b.currency ≡ body.currency)
      × (pos body.amount ≤ℤ b.balance)

  -- The balances after a payout: those of the restaurant in the currency that suffice are less by the
  -- amount, and no other row changed.
  abbrev pub Reduced : ℕ → List RestaurantBalanceEntity → List RestaurantBalanceEntity → Type 0
  Reduced now [] [] = Unit
  Reduced now [] (_ ∷ _) = ⊥
  Reduced now (_ ∷ _) [] = ⊥
  Reduced now (b ∷ bs) (c ∷ cs) =
      ((IsPayable b × (c ≡ record b { balance = b.balance -ℤ pos body.amount; updated_at = now }))
        ⊎ ((¬ IsPayable b) × (c ≡ b)))
      × Reduced now bs cs

  -- The row that the ledger takes.
  abbrev pub paid_row : ℕ → ℕ → ℕ → TransactionEntity
  paid_row id owner_id now = record {
    id = id;
    region = region;
    order_id = none;
    transaction_type = TransactionType.payout;
    method = TransactionMethod.bank_transfer;
    provider_id = none;
    provider_reference_id = some body.provider_reference_id;
    status = TransactionStatus.succeeded;
    amount = body.amount;
    currency = body.currency;
    src_acc_id = none;
    dst_acc_id = some owner_id;
    is_refunded = false;
    refunded_payment_id = none;
    idempotency_key = some key;
    created_at = now;
    updated_at = now;
  }

  -- A payout of the tables `d`: the balance sufficed and was reduced, then the ledger took the row.
  pub record PaidOut (now : ℕ) (d d' : Db) : Type 0 where
    pub owner_id : ℕ
    pub before : RestaurantBalanceEntity
    pub owner : find_owner_id_for_restaurant body.restaurant_id now d ≡ some owner_id
    pub there : Among before d.balances
    pub sufficed : IsPayable before
    pub reduced : Reduced now d.balances d'.balances
    pub key_free : All (λ t. t.idempotency_key ≢ some key) d.transactions.rows
    pub others : d' ≡ record d {
      balances = d'.balances;
      transactions = record {
        rows = d.transactions.rows ++ paid_row d.transactions.next_id owner_id now ∷ [];
        next_id = d.transactions.next_id + 1;
      };
    }

  IsPayable-facts :
      (b : RestaurantBalanceEntity)
      → can_pay body.restaurant_id body.currency body.amount b ≡ true
      → IsPayable b
  IsPayable-facts b h =
      (ground arith, ground (arith, eq_iff b.currency body.currency), ground arith)

  facts-IsPayable :
      (b : RestaurantBalanceEntity)
      → IsPayable b
      → can_pay body.restaurant_id body.currency body.amount b ≡ true
  facts-IsPayable b (r, c, e) = ground (arith, eq_iff b.currency body.currency, r, c, e)

  found-IsPayable :
      (bs : List RestaurantBalanceEntity) (b : RestaurantBalanceEntity)
      → find (can_pay body.restaurant_id body.currency body.amount) bs ≡ some b
      → Among b bs × IsPayable b
  found-IsPayable [] b e = cc
  found-IsPayable (x ∷ xs) b e =
      by_row (can_pay body.restaurant_id body.currency body.amount x) refl e (found-IsPayable xs b)
    where
      by_row :
          (p : Bool)
          → can_pay body.restaurant_id body.currency body.amount x ≡ p
          → (if p then some x else find (can_pay body.restaurant_id body.currency body.amount) xs)
            ≡ some b
          → (find (can_pay body.restaurant_id body.currency body.amount) xs ≡ some b
              → Among b xs × IsPayable b)
          → Among b (x ∷ xs) × IsPayable b
      by_row true h f ih =
          (inl (sym (some-injective f)), subst IsPayable (some-injective f) (IsPayable-facts x h))
      by_row false h f ih = let (among, facts) = ih f in (inr among, facts)

  decrement-Reduced :
      (now : ℕ) (bs : List RestaurantBalanceEntity)
      → Reduced now bs (decrement body.restaurant_id body.currency body.amount now bs)
  unfolding decrement
  decrement-Reduced now [] = tt
  decrement-Reduced now (b ∷ bs) =
      (one (can_pay body.restaurant_id body.currency body.amount b) refl, decrement-Reduced now bs)
    where
      one :
          (p : Bool)
          → can_pay body.restaurant_id body.currency body.amount b ≡ p
          → (IsPayable b
              × ((if p then take_from body.amount now b else b)
                  ≡ record b { balance = b.balance -ℤ pos body.amount; updated_at = now }))
            ⊎ ((¬ IsPayable b) × ((if p then take_from body.amount now b else b) ≡ b))
      one true h = inl (IsPayable-facts b h, refl)
      one false h = inr ((λ f. cc (facts-IsPayable b f, h)), refl)

  no_key :
      (ts : List TransactionEntity)
      → is_some (find (has_key (some key)) ts) ≡ false
      → All (λ t. t.idempotency_key ≢ some key) ts
  no_key [] h = tt
  no_key (t ∷ ts) h = by_row (has_key (some key) t) refl h (no_key ts)
    where
      by_row :
          (p : Bool)
          → has_key (some key) t ≡ p
          → is_some (if p then some t else find (has_key (some key)) ts) ≡ false
          → (is_some (find (has_key (some key)) ts) ≡ false
              → All (λ t. t.idempotency_key ≢ some key) ts)
          → (t.idempotency_key ≢ some key) × All (λ t. t.idempotency_key ≢ some key) ts
      by_row true e f ih = cc
      by_row false e f ih = ((λ same. other t.idempotency_key e same), ih f)
        where
          other :
              (k : Option String)
              → elim k [ none ↦ false | some j ↦ j == key ] ≡ false
              → k ≡ some key
              → ⊥
          other none e same = cc
          other (some j) e same = cc (e, (eq_iff j key).1 (some-injective same))

  booked-PaidOut :
      (now owner_id : ℕ) (d : Db) (before : RestaurantBalanceEntity) (t : TransactionEntity)
      (d' : Db)
      → find_owner_id_for_restaurant body.restaurant_id now d ≡ some owner_id
      → find (can_pay body.restaurant_id body.currency body.amount) d.balances ≡ some before
      → create_transaction
          (payout_row body region key owner_id)
          now
          (decrement_if_sufficient body.restaurant_id body.currency body.amount now d).1
        ≡ some (t, d')
      → PaidOut now d d'
  unfolding create_transaction append_transaction decrement_if_sufficient
  booked-PaidOut now owner_id d before t d' owner found taken_in =
      by_key (key_taken (some key) d) refl taken_in
    where
      paid : Db
      paid = record d {
        balances = decrement body.restaurant_id body.currency body.amount now d.balances;
        transactions = record {
          rows = d.transactions.rows ++ paid_row d.transactions.next_id owner_id now ∷ [];
          next_id = d.transactions.next_id + 1;
        };
      }

      result : TransactionEntity × Db
      result = (paid_row d.transactions.next_id owner_id now, paid)

      by_key :
          (b : Bool)
          → key_taken (some key) d ≡ b
          → (if b then none else some result) ≡ some (t, d')
          → PaidOut now d d'
      by_key true h e = cc
      by_key false h e =
          let (there, facts) = found-IsPayable d.balances before found in
          subst (PaidOut now d) (ap (λ x. x.1) (some-injective e)) (record {
            owner_id = owner_id;
            before = before;
            owner = owner;
            there = there;
            sufficed = facts;
            reduced = decrement-Reduced now d.balances;
            key_free = no_key d.transactions.rows h;
            others = refl;
          })

  rolled_back :
      {A : Type 0} (P : Db → Type 0) (old : Db) (r : Result A × World)
      → P old
      → Ensures (λ a v. P v.db) r
      → Tables P (catch_result (λ e. ignore_errors (roll_back old) >> throw e) r)
  rolled_back P old (ok a, v) p q = q
  rolled_back {A} P old (err e, v) p q =
      bind-Tables {B = A} P (λ _. throw e) (ignore_errors (roll_back old) v)
        (ignored P (roll_back old v)
          (Stays-call P (λ u. (ok tt, u)) (λ u h. h) (record v { db = old }) p))
        (λ _ u h. h)

  payout_writes-Ensures :
      (owner_id : ℕ) (old : Db) (w : World)
      → find_owner_id_for_restaurant body.restaurant_id w.now w.db ≡ some owner_id
      → Ensures (λ t v. PaidOut w.now w.db v.db) (payout_writes body region key owner_id old w)
  unfolding payout_writes decrement_if_sufficient
  payout_writes-Ensures owner_id old w owner = bind_call _ _ _ w λ fs.
      taken fs (decrement_if_sufficient body.restaurant_id body.currency body.amount w.now w.db).0
        refl
    where
      after : Option RestaurantBalanceEntity → M TransactionEntity
      after b = do
        sufficient_or_throw old b
        t ← checked (create_transaction (payout_row body region key owner_id))
        call (λ w. (ok tt, w))
        pure t

      no_money : (v : World) → Ensures (λ t v. PaidOut w.now w.db v.db) (after none v)
      no_money v =
          bind-Ensures (λ _ _. ⊥) (λ t v. PaidOut w.now w.db v.db) _
            (sufficient_or_throw old none v)
            (bind_call (λ _ _. ⊥) (λ u. (ok tt, u)) (λ _. throw insufficient_balance)
              (record v { db = old }) (λ fs. tt))
            (λ _ _ bad. absurd bad)

      taken :
          (fs : List Bool) (b : Option RestaurantBalanceEntity)
          → (decrement_if_sufficient body.restaurant_id body.currency body.amount w.now w.db).0 ≡ b
          → Ensures
              (λ t v. PaidOut w.now w.db v.db)
              (after b (record w {
                faults = fs;
                db =
                    (decrement_if_sufficient body.restaurant_id body.currency body.amount w.now
                      w.db).1;
              }))
      taken fs none e = no_money (record w {
        faults = fs;
        db = (decrement_if_sufficient body.restaurant_id body.currency body.amount w.now w.db).1;
      })
      taken fs (some b) e =
          bind_checked _ (create_transaction (payout_row body region key owner_id)) _ _ λ _ t d f.
            bind_call _ _ _ _ λ _.
              let (before, found, _) =
                map-some (take_from body.amount w.now)
                  (find (can_pay body.restaurant_id body.currency body.amount) w.db.balances) e in
              booked-PaidOut w.now owner_id w.db before t d owner found f

  begun :
      (owner_id : ℕ) (v : World)
      → find_owner_id_for_restaurant body.restaurant_id v.now v.db ≡ some owner_id
      → Tables
          (λ d. (d ≡ v.db) ⊎ PaidOut v.now v.db d)
          (catch
            (payout_writes body region key owner_id v.db)
            (λ e. ignore_errors (roll_back v.db) >> throw e)
            v)
  begun owner_id v owner =
      rolled_back (λ d. (d ≡ v.db) ⊎ PaidOut v.now v.db d) v.db
        (payout_writes body region key owner_id v.db v) (inl refl)
        (weaken _ _ (payout_writes body region key owner_id v.db v)
          (payout_writes-Ensures owner_id v.db v owner) (λ t u q. inr q))

  owner_known : (found : Option ℕ) (n : ℕ) → owner_or_throw found ≡ ok n → found ≡ some n
  unfolding owner_or_throw
  owner_known none n e = cc
  owner_known (some zero) n e = cc
  owner_known (some (suc m)) n e = cc

  -- However a call of `recordPayout` ends, the tables are as they were, or the whole payout is there: the
  -- restaurant has an owner, its balance in that currency was at least the amount and is less by it, the
  -- other balances are as they were, the ledger has one more row, the payout of the amount to the owner,
  -- under a key that was free, and nothing else changed.
  pub record_payout-Tables :
      (w : World)
      → Tables (λ d. (d ≡ w.db) ⊎ PaidOut w.now w.db d) (record_payout body region key w)
  unfolding record_payout
  record_payout-Tables w =
      let Done = λ (d : Db). (d ≡ w.db) ⊎ PaidOut w.now w.db d in
      let owner = find_owner_id_for_restaurant body.restaurant_id in
      Checks-Tables (λ a. owner w.now w.db ≡ a) Done w _ (query owner w) (query-Checks w owner)
        (inl refl) λ found v d t known. owned found v d t known (owner_or_throw found) refl
    where
      moved :
          (u : World)
          → u.db ≡ w.db
          → u.now ≡ w.now
          → (r : Result TransactionEntity × World)
          → Tables (λ d. (d ≡ u.db) ⊎ PaidOut u.now u.db d) r
          → Tables (λ d. (d ≡ w.db) ⊎ PaidOut w.now w.db d) r
      moved u d t (_, z) (inl e) = inl (e ∙ d)
      moved u d t (_, z) (inr q) =
          inr (subst (λ n. PaidOut n w.db z.db) t (subst (λ x. PaidOut u.now x z.db) d q))

      owned :
          (found : Option ℕ) (v : World)
          → v.db ≡ w.db
          → v.now ≡ w.now
          → find_owner_id_for_restaurant body.restaurant_id w.now w.db ≡ found
          → (r : Result ℕ) → owner_or_throw found ≡ r
          → Tables
              (λ d. (d ≡ w.db) ⊎ PaidOut w.now w.db d)
              (bind_result
                (λ owner_id. call (λ w. (ok tt, w)) >>= λ (_ : Unit {0}) w.
                  catch
                    (payout_writes body region key owner_id w.db)
                    (λ e. ignore_errors (roll_back w.db) >> throw e)
                    w)
                (lift r v))
      owned found v d t known (err x) e = inl d
      owned found v d t known (ok n) e =
          bind-Keeps-Tables (λ x. (x ≡ w.db) ⊎ PaidOut w.now w.db x) v
            (λ (_ : Unit {0}) u.
              catch (payout_writes body region key n u.db)
                (λ e. ignore_errors (roll_back u.db) >> throw e) u)
            (call (λ u. (ok tt, u)) v) (call-Keeps (λ u. (ok tt, u)) v (λ fs. (refl, refl))) (inl d)
            λ _ u d' t'.
              moved u (d' ∙ d) (t' ∙ t)
                (catch (payout_writes body region key n u.db)
                  (λ e. ignore_errors (roll_back u.db) >> throw e) u)
                (begun n u (
                  ap (λ x. find_owner_id_for_restaurant body.restaurant_id u.now x) (d' ∙ d)
                  ∙ ap (λ x. find_owner_id_for_restaurant body.restaurant_id x w.db) (t' ∙ t)
                  ∙ known
                  ∙ owner_known found n e))
