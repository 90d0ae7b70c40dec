-- ===== src/Order/Lines.antt =====
-- The lines of a new order: `buildOrderLineDrafts` of `src/app/order/service/order.service.ts`, with
-- `src/pkg/money` below it.
pub mod Priced
use quick_bite_order_service.Common.{
  List, Option, [], if◌then◌else◌, is_some, ltb, nat_eq, none, not, some, string_eq, ℕ, ◌*◌, ◌+◌,
  ◌==◌, ◌∷◌,
}
use quick_bite_order_service.Core.Model.{CoreBranchProduct}
use quick_bite_order_service.Errors.{Result, UnavailableItem, err, ok, out_of_stock}
use quick_bite_order_service.Order.Model.{OrderLineDraft, actor_eq, status_eq}

-- A requested item.
pub record RequestedItem : Type 0 where
  pub product_id : ℕ
  pub quantity : ℕ

unfoldable pub sum_minor : List ℕ → ℕ
sum_minor [] = 0
sum_minor (v ∷ vs) = v + sum_minor vs

unfoldable pub multiply_minor : ℕ → ℕ → ℕ
multiply_minor unit_price quantity = unit_price * quantity

-- `byProduct.get(id)`: of several products with one id the last set counts.
unfoldable pub by_product : ℕ → List CoreBranchProduct → Option CoreBranchProduct
by_product id [] = none
by_product id (p ∷ ps) =
    let later = by_product id ps in
    if is_some later then later else if p.product_id == id then some p else none

pub data Checked : Type 0 where
  unavailable : UnavailableItem → Checked
  drafted : OrderLineDraft → Checked

abbrev lacking : RequestedItem → ℕ → Checked
lacking it available =
    unavailable
      (record { product_id = it.product_id; requested = it.quantity; available = available })

-- The body of the loop, on what the map holds.
unfoldable pub check_item : RequestedItem → Option CoreBranchProduct → Checked
unfolding multiply_minor
check_item it none = lacking it 0
check_item it (some p) =
    if not p.is_available
    then lacking it 0
    else if ltb p.stock it.quantity
    then lacking it p.stock
    else drafted (record {
      product_id = it.product_id;
      quantity = it.quantity;
      unit_price = p.price;
      line_total = multiply_minor p.price it.quantity;
      name = p.name;
      image_url = p.image_url;
    })

abbrev pub add_checked :
    Checked
    → List UnavailableItem × List OrderLineDraft
    → List UnavailableItem × List OrderLineDraft
add_checked (unavailable u) (us, ds) = (u ∷ us, ds)
add_checked (drafted d) (us, ds) = (us, d ∷ ds)

-- The loop: the items that lack, and the drafts of the others, both in order.
unfoldable pub check_items :
    List RequestedItem → List CoreBranchProduct → List UnavailableItem × List OrderLineDraft
check_items [] products = ([], [])
check_items (it ∷ its) products =
    add_checked (check_item it (by_product it.product_id products)) (check_items its products)

abbrev pub none_lacking : List UnavailableItem × List OrderLineDraft → Result (List OrderLineDraft)
none_lacking ([], drafts) = ok drafts
none_lacking (u ∷ us, drafts) = err (out_of_stock (u ∷ us))

-- `buildOrderLineDrafts`
unfoldable pub build_order_line_drafts :
    List RequestedItem → List CoreBranchProduct → Result (List OrderLineDraft)
build_order_line_drafts items products = none_lacking (check_items items products)
