-- ===== src/Order/Read/Listed.antt =====
-- Whose orders the lists show.
use quick_bite_order_service.Common.{
  All, All-take, Bool, Bool-cases, List, Option, String, [], ap, arith, contains, false, find,
  if◌then◌else◌, inl, inr, keep, length, map, nat_eq, none, refl, some, string_eq, subst, sym, true,
  ℕ, ◌&&◌, ◌++◌, ◌+◌, ◌==◌, ◌∙◌, ◌∷◌, ◌≡◌,
}
use quick_bite_order_service.Http.Cursor.{
  Columns, PaginationParams, apply_cursor_pagination, build_pagination_result, decode_cursor,
  from_cursor, given, is_after,
}
use quick_bite_order_service.Http.Cursor.Order.{All-keep, All-sort, All-weaken, keep-ext}
use quick_bite_order_service.Order.Model.{OrderEntity, actor_eq, status_eq}
use quick_bite_order_service.Order.Queries.{ListResult, count_items_by_order_ids, page_of}
use quick_bite_order_service.Order.Read.{
  Cluster, counts_at, ids_of, list_at, query_at, summaries, tables_of,
}
use quick_bite_order_service.Order.Read.Granted.{query_at-Reads}
use quick_bite_order_service.World.Monad.{pure}
use quick_bite_order_service.World.Reads.{Reads, Reads-bind, Reads-weaken, at_faults}
use quick_bite_order_service.World.State.{Db, OrderSummaryResponse, World, summary_response}

-- The number of items that an order has.
abbrev pub item_count : Db → OrderEntity → ℕ
item_count d o = length (keep (λ i. i.order_id == o.id) d.order_items.rows)

counted_once :
    (ids : List ℕ) (id j : ℕ) → contains ids id ≡ true → contains ids j && j == id ≡ j == id
counted_once ids id j h = elim (Bool-cases (j == id)) [
  | inl same ↦ ground (arith, same, subst (λ k. contains ids k ≡ true) (equal same) h)
  | inr other ↦ ground (arith, other)
]
  where
    equal : (j == id) ≡ true → id ≡ j
    equal e = ground arith

counts-item_count :
    (ids : List ℕ) (now : ℕ) (d : Db) (orders : List OrderEntity)
    → All (λ o. contains ids o.id ≡ true) orders
    → summaries (count_items_by_order_ids ids now d) orders
      ≡ map (λ o. summary_response o (item_count d o)) orders
unfolding count_items_by_order_ids
counts-item_count ids now d [] h = refl
counts-item_count ids now d (o ∷ os) (h, k) =
    rw
      (keep-ext (λ i. contains ids i.order_id && i.order_id == o.id) (λ i. i.order_id == o.id)
        d.order_items.rows (λ i. counted_once ids o.id i.order_id h))
      (ap (λ rest. summary_response o (item_count d o) ∷ rest) (counts-item_count ids now d os k))

all_among : (orders : List OrderEntity) → All (λ o. contains (ids_of orders) o.id ≡ true) orders
all_among [] = tt
all_among (o ∷ os) = (ground arith, All-weaken _ _ os (λ x h. ground (arith, h)) (all_among os))

pub counts_at-Reads :
    (at : Cluster) (w : World) (orders : List OrderEntity)
    → Reads
        (λ counts.
          summaries counts orders
          ≡ map (λ o. summary_response o (item_count (tables_of at w) o)) orders)
        w
        (counts_at at (ids_of orders) w)
counts_at-Reads at w [] = (w.faults, refl, refl)
counts_at-Reads at w (o ∷ os) =
    Reads-weaken (λ counts. counts ≡ count_items_by_order_ids ids w.now (tables_of at w))
      (λ counts.
        summaries counts (o ∷ os)
        ≡ map (λ x. summary_response x (item_count (tables_of at w) x)) (o ∷ os))
      w (query_at at (count_items_by_order_ids ids) w)
      (query_at-Reads at w (count_items_by_order_ids ids))
      (λ counts e.
        ap (λ f. summaries f (o ∷ os)) e
        ∙ counts-item_count ids w.now (tables_of at w) (o ∷ os) (all_among (o ∷ os)))
  where
    ids : List ℕ
    ids = ids_of (o ∷ os)

-- The page shows `orders` in their order, each with the number that `items` gives.
pub record Shows (R : List OrderEntity → Type 0) (items : OrderEntity → ℕ)
    (r : ListResult OrderSummaryResponse) : Type 0 where
  pub orders : List OrderEntity
  pub shown : r.page ≡ map (λ o. summary_response o (items o)) orders
  pub right : R orders

pub list_at-Shows :
    (R : List OrderEntity → Type 0) (at : Cluster) (w : World)
    (find : ℕ → Db → ListResult OrderEntity)
    → R (find w.now (tables_of at w)).page
    → Reads (Shows R (item_count (tables_of at w))) w (list_at at find w)
list_at-Shows R at w find h =
    Reads-bind (λ result. result ≡ find w.now (tables_of at w)) Q w _ _ (query_at-Reads at w find)
      (λ result fs e.
        Reads-bind
          (λ counts.
            summaries counts result.page
            ≡ map (λ o. summary_response o (item_count (tables_of at w) o)) result.page)
          Q (at_faults w fs)
          (λ counts. pure (record { page = summaries counts result.page; meta = result.meta })) _
          (counts_at-Reads at (at_faults w fs) result.page)
          (λ counts gs same. (
            gs,
            refl,
            record { orders = result.page; shown = same; right = subst (λ x. R x.page) (sym e) h },
          )))
  where
    Q : ListResult OrderSummaryResponse → Type 0
    Q = Shows R (item_count (tables_of at w))

pub All-append :
    {A : Type 0} (P : A → Type 0) (xs ys : List A) → All P xs → All P ys → All P (xs ++ ys)
All-append P [] ys h k = k
All-append P (x ∷ xs) ys (p, h) k = (p, All-append P xs ys h k)

either :
    {A : Type 0} (P : List A → Type 0) (b : Bool) (xs ys : List A)
    → P xs
    → P ys
    → P (if b then xs else ys)
either P true xs ys h k = h
either P false xs ys h k = k

kept_if :
    {A : Type 0} (P : A → Type 0) (p : A → Bool) (x : A) (b : Bool) (rest : List A)
    → p x ≡ b
    → P x
    → All (λ y. P y × (p y ≡ true)) rest
    → All (λ y. P y × (p y ≡ true)) (if b then x ∷ rest else rest)
kept_if P p x true rest e q h = ((q, e), h)
kept_if P p x false rest e q h = h

pub All-kept :
    {A : Type 0} (P : A → Type 0) (p : A → Bool) (xs : List A)
    → All P xs
    → All (λ x. P x × (p x ≡ true)) (keep p xs)
All-kept P p [] h = tt
All-kept P p (x ∷ xs) (q, h) = kept_if P p x (p x) (keep p xs) refl q (All-kept P p xs h)

module _ (columns : Columns OrderEntity) (pagination : PaginationParams)
    (P : OrderEntity → Type 0) where
  pub All-page :
      (rows : List OrderEntity)
      → All P rows
      → All P (build_pagination_result columns rows pagination.limit pagination.sort_by_field).0
  unfolding build_pagination_result
  All-page rows h = either (All P) _ _ _ (All-take P pagination.limit rows h) h

  All-from :
      (cursor : Option String) (rows : List OrderEntity)
      → All P rows
      → All P (from_cursor columns pagination cursor rows)
  All-from none rows h = h
  All-from (some c) rows h = All-keep P (is_after columns pagination (decode_cursor c)) rows h

  pub page_of-All :
      (rows : List OrderEntity) → All P rows → All P (page_of columns pagination rows).page
  unfolding page_of apply_cursor_pagination
  page_of-All rows h = All-page (apply_cursor_pagination columns pagination rows) (
      either (All P) (pagination.sort_by_field == "") rows _ h (
        All-take P (pagination.limit + 1) _
          (All-sort _ P _ (All-from (given pagination.cursor) rows h))))
