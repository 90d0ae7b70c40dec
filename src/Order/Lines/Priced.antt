-- ===== src/Order/Lines/Priced.antt =====
-- What the drafts of an order's lines promise.
use quick_bite_order_service.Common.{
  Bool, List, Option, [], ap, arith, false, if◌then◌else◌, inl, inr, is_some, nat_eq, none, refl,
  some, some-injective, string_eq, subst, sym, true, ℕ, ◌*◌, ◌==◌, ◌∙◌, ◌∷◌, ◌≡◌, ◌≤◌, ◌⊎◌,
}
use quick_bite_order_service.Core.Model.{CoreBranchProduct}
use quick_bite_order_service.Errors.{UnavailableItem, ok}
use quick_bite_order_service.Order.Lines.{
  Checked, RequestedItem, add_checked, build_order_line_drafts, by_product, check_item, check_items,
  drafted, multiply_minor, none_lacking, unavailable,
}
use quick_bite_order_service.Order.Model.{OrderLineDraft, actor_eq, status_eq}

-- One of the products.
abbrev pub Among : CoreBranchProduct → List CoreBranchProduct → Type 0
Among p [] = ⊥
Among p (q ∷ qs) = (p ≡ q) ⊎ Among p qs

-- The line of an item: the product is the requested one, available and in stock, and the line has its
-- name and its price.
abbrev pub Line : RequestedItem → List CoreBranchProduct → OrderLineDraft → Type 0
Line it products l =
    (p : CoreBranchProduct) × (by_product it.product_id products ≡ some p)
    × Among p products
    × (p.product_id ≡ it.product_id)
    × (p.is_available ≡ true)
    × (it.quantity ≤ p.stock)
    × (l.product_id ≡ it.product_id)
    × (l.quantity ≡ it.quantity)
    × (l.name ≡ p.name)
    × (l.unit_price ≡ p.price)
    × (l.line_total ≡ p.price * it.quantity)

abbrev pub Priced : List RequestedItem → List CoreBranchProduct → List OrderLineDraft → Type 0
Priced [] products [] = Unit
Priced [] products (_ ∷ _) = ⊥
Priced (_ ∷ _) products [] = ⊥
Priced (it ∷ its) products (l ∷ ls) = Line it products l × Priced its products ls

-- What the map holds for an id is a product of that id.
by_product-Among :
    (id : ℕ) (products : List CoreBranchProduct) (p : CoreBranchProduct)
    → by_product id products ≡ some p
    → Among p products × (p.product_id ≡ id)
unfolding by_product
by_product-Among id [] p e = cc
by_product-Among id (q ∷ qs) p e = later (by_product-Among id qs p) (by_product id qs) refl e
  where
    first :
        (b : Bool)
        → q.product_id == id ≡ b
        → (if b then some q else none) ≡ some p
        → Among p (q ∷ qs) × (p.product_id ≡ id)
    first true h f =
        let same : q ≡ p = some-injective f in
        (inl (sym same), ap (λ x. x.product_id) (sym same) ∙ ground arith)
    first false h f = cc

    later :
        (by_product id qs ≡ some p → Among p qs × (p.product_id ≡ id))
        → (o : Option CoreBranchProduct) → by_product id qs ≡ o
        → (if is_some o then o else if q.product_id == id then some q else none) ≡ some p
        → Among p (q ∷ qs) × (p.product_id ≡ id)
    later ih none h f = first (q.product_id == id) refl f
    later ih (some r) h f = let (among, same) = ih (h ∙ f) in (inr among, same)

check_item-Line :
    (it : RequestedItem) (products : List CoreBranchProduct) (o : Option CoreBranchProduct)
    (l : OrderLineDraft)
    → by_product it.product_id products ≡ o
    → check_item it o ≡ drafted l
    → Line it products l
unfolding check_item multiply_minor
check_item-Line it products none l h e = cc
check_item-Line it products (some p) l h e =
    let (among, same) = by_product-Among it.product_id products p h in
    (
      p,
      h,
      among,
      same,
      ground arith,
      ground arith,
      ground arith,
      ground arith,
      ground arith,
      ground arith,
      ground arith,
    )

check_items-Priced :
    (items : List RequestedItem) (products : List CoreBranchProduct)
    → (check_items items products).0 ≡ []
    → Priced items products (check_items items products).1
unfolding check_items
check_items-Priced [] products e = tt
check_items-Priced (it ∷ its) products e =
    go (check_items-Priced its products) (check_item it (by_product it.product_id products)) refl e
  where
    go :
        ((check_items its products).0 ≡ [] → Priced its products (check_items its products).1)
        → (c : Checked) → check_item it (by_product it.product_id products) ≡ c
        → (add_checked c (check_items its products)).0 ≡ []
        → Priced (it ∷ its) products (add_checked c (check_items its products)).1
    go rest (unavailable u) f e = cc
    go rest (drafted l) f e =
        (check_item-Line it products (by_product it.product_id products) l refl f, rest e)

none_lacking-ok :
    (r : List UnavailableItem × List OrderLineDraft) (drafts : List OrderLineDraft)
    → none_lacking r ≡ ok drafts
    → (r.0 ≡ []) × (r.1 ≡ drafts)
none_lacking-ok ([], ds) drafts e = (refl, cc)
none_lacking-ok (u ∷ us, ds) drafts e = cc

-- If `buildOrderLineDrafts` returns, there is one line for each requested item, in order, and each has
-- the item's quantity of the product of that id, which is one of the branch's products, available and in
-- stock, with the product's name, at its price.
pub build_order_line_drafts-Priced :
    (items : List RequestedItem) (products : List CoreBranchProduct) (drafts : List OrderLineDraft)
    → build_order_line_drafts items products ≡ ok drafts
    → Priced items products drafts
unfolding build_order_line_drafts
build_order_line_drafts-Priced items products drafts e =
    let (none_left, same) = none_lacking-ok (check_items items products) drafts e in
    subst (Priced items products) same (check_items-Priced items products none_left)
