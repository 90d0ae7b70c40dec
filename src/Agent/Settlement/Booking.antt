-- ===== src/Agent/Settlement/Booking.antt =====
-- The rows that a settlement adds to the ledger.
use Prim.Native.String.{◌++◌}
use quick_bite_order_service.Agent.Settlement.{
  cod_row, commission_row, delivery_fee_row, service_fee_row,
}
use quick_bite_order_service.Agent.Settlement.Writes.{ledger_booked}
use quick_bite_order_service.Common.{
  +ℤ-zero, Bool, Bool-cases, String, ap, arith, diverges, diverges_beq, false, find-append_miss,
  if◌then◌else◌, inl, inr, is_some, ltb, nat_eq, pos, refl, some, string_eq, sum_by, sym, true, ℕ,
  ℤ, ◌+ℤ◌, ◌==◌, ◌∙◌, ◌≡◌,
}
use quick_bite_order_service.Finance.Accounts.{sum_by-book}
use quick_bite_order_service.Order.Model.{OrderEntity, actor_eq, is_cod, status_eq}
use quick_bite_order_service.Order.Repository.{update_order_commission}
use quick_bite_order_service.Payment.Model.{CreateTransactionInput, TransactionEntity}
use quick_bite_order_service.Payment.Repository.{
  append_transaction, book, create_transaction_idempotent, has_key, key_taken, new_transaction,
}
use quick_bite_order_service.World.State.{Db}

-- A part of the state that a step leaves alone is left alone by `if (b) step`.
pub if_keeps {ℓ} :
    {X : Type ℓ} (view : Db → X) (b : Bool) (after before : Db)
    → view after ≡ view before
    → view (if b then after else before) ≡ view before
if_keeps view true after before h = h
if_keeps view false after before h = refl

-- A key that differs from the one booked stays free.
key_taken-book :
    (j k : String) (input : CreateTransactionInput) (now : ℕ) (d : Db)
    → input.idempotency_key ≡ some j
    → (j == k) ≡ false
    → key_taken (some k) (book input now d).1 ≡ key_taken (some k) d
unfolding book create_transaction_idempotent append_transaction
key_taken-book j k input now d e ne = elim (Bool-cases (key_taken input.idempotency_key d)) [
  | inl taken ↦ rw taken
  | inr free ↦ rw free (
      ap is_some (
        find-append_miss (has_key (some k)) d.transactions.rows
          (new_transaction input d.transactions.next_id now) (ground (arith, e))))
]

module _ (f : TransactionEntity → ℤ) (g : CreateTransactionInput → ℤ)
    (same : (input : CreateTransactionInput) (id now : ℕ)
      → f (new_transaction input id now) ≡ g input) where
  -- One optional row under a free key.
  sum_by-book_if :
      (b : Bool) (input : CreateTransactionInput) (now : ℕ) (d : Db)
      → key_taken input.idempotency_key d ≡ false
      → sum_by f (if b then (book input now d).1 else d).transactions.rows
        ≡ sum_by f d.transactions.rows +ℤ (if b then g input else pos 0)
  sum_by-book_if true input now d free =
      rw (sum_by-book f input now d, free, same input d.transactions.next_id now)
  sum_by-book_if false input now d free = sym (+ℤ-zero _)

-- The four keys of a settlement are free: the order has not been settled.
pub record IsUnbooked (o : OrderEntity) (d : Db) : Type 0 where
  pub cod_free : key_taken (some ("cod-collect:" ++ o.public_id)) d ≡ false
  pub commission_free : key_taken (some ("commission:" ++ o.public_id)) d ≡ false
  pub service_free : key_taken (some ("service-fee:" ++ o.public_id)) d ≡ false
  pub delivery_free : key_taken (some ("delivery-fee:" ++ o.public_id)) d ≡ false

-- A key stays free across an optional row under another prefix.
free_after :
    (s t p : String) (b : Bool) (input : CreateTransactionInput) (now : ℕ) (d : Db)
    → input.idempotency_key ≡ some (s ++ p)
    → diverges s t ≡ true
    → key_taken (some (t ++ p)) d ≡ false
    → key_taken (some (t ++ p)) (if b then (book input now d).1 else d) ≡ false
free_after s t p b input now d e ne free =
    if_keeps (key_taken (some (t ++ p))) b (book input now d).1 d
      (key_taken-book (s ++ p) (t ++ p) input now d e (diverges_beq s t p p ne))
    ∙ free

module _ (o : OrderEntity) (public_id : String) (agent_id : ℕ) (region : String)
    (commission earning : ℕ) where
  -- What the ledger of a settlement adds up to, for any quantity that looks at the booked row alone.
  abbrev pub booked_sum : (CreateTransactionInput → ℤ) → ℤ → ℤ
  booked_sum g s =
      s
      +ℤ (if is_cod o.payment_method then g (cod_row o region) else pos 0)
      +ℤ (if ltb 0 commission then g (commission_row o region commission) else pos 0)
      +ℤ (if ltb 0 o.service_fee then g (service_fee_row o region) else pos 0)
      +ℤ (if ltb 0 o.delivery_fee then g (delivery_fee_row o region) else pos 0)

  pub sum_by-ledger_booked :
      (f : TransactionEntity → ℤ) (g : CreateTransactionInput → ℤ) (now : ℕ) (d : Db)
      → ((input : CreateTransactionInput) (id now : ℕ) → f (new_transaction input id now) ≡ g input)
      → IsUnbooked o d
      → sum_by f
          (ledger_booked o public_id agent_id region commission earning now d).transactions.rows
        ≡ booked_sum g (sum_by f d.transactions.rows)
  unfolding update_order_commission
  sum_by-ledger_booked f g now d same unbooked =
      let p = o.public_id in
      let d1 = (update_order_commission public_id commission now d).1 in
      let cod = is_cod o.payment_method in
      let d2 = if cod then (book (cod_row o region) now d1).1 else d1 in
      let fee = ltb 0 commission in
      let row3 = commission_row o region commission in
      let d3 = if fee then (book row3 now d2).1 else d2 in
      let row4 = service_fee_row o region in
      let svc = ltb 0 o.service_fee in
      let d4 = if svc then (book row4 now d3).1 else d3 in
      let c2 : key_taken (some ("commission:" ++ p)) d2 ≡ false =
        free_after "cod-collect:" "commission:" p cod (cod_row o region) now d1 refl refl
          unbooked.commission_free in
      let s2 : key_taken (some ("service-fee:" ++ p)) d2 ≡ false =
        free_after "cod-collect:" "service-fee:" p cod (cod_row o region) now d1 refl refl
          unbooked.service_free in
      let f2 : key_taken (some ("delivery-fee:" ++ p)) d2 ≡ false =
        free_after "cod-collect:" "delivery-fee:" p cod (cod_row o region) now d1 refl refl
          unbooked.delivery_free in
      let s3 : key_taken (some ("service-fee:" ++ p)) d3 ≡ false =
        free_after "commission:" "service-fee:" p fee row3 now d2 refl refl s2 in
      let f3 : key_taken (some ("delivery-fee:" ++ p)) d3 ≡ false =
        free_after "commission:" "delivery-fee:" p fee row3 now d2 refl refl f2 in
      let f4 : key_taken (some ("delivery-fee:" ++ p)) d4 ≡ false =
        free_after "service-fee:" "delivery-fee:" p svc row4 now d3 refl refl f3 in
      let delivery = sum_by-book_if f g same (ltb 0 o.delivery_fee) (delivery_fee_row o region) in
      delivery now d4 f4
      ∙ ap (λ s. s +ℤ (if ltb 0 o.delivery_fee then g (delivery_fee_row o region) else pos 0))
          (sum_by-book_if f g same svc row4 now d3 s3
            ∙ ap (λ s. s +ℤ (if svc then g row4 else pos 0))
                (sum_by-book_if f g same fee row3 now d2 c2
                  ∙ ap (λ s. s +ℤ (if fee then g row3 else pos 0))
                      (sum_by-book_if f g same cod (cod_row o region) now d1 unbooked.cod_free)))
