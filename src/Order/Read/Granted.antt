-- ===== src/Order/Read/Granted.antt =====
-- Who gets an order to read.
use quick_bite_order_service.Common.{
  Bool, List, Option, String, [], ap, false, if◌then◌else◌, none, refl, some, sym, true, ℕ, ◌∷◌,
  ◌≡◌,
}
use quick_bite_order_service.Errors.{ok, order_not_found}
use quick_bite_order_service.Order.Access.{assert_read_access, can_read_archive}
use quick_bite_order_service.Order.Model.{ActorContext, OrderEntity}
use quick_bite_order_service.Order.Read.{
  Cluster, archived, from_archive, get_order, hot, or_from_archive, query_at, tables_of,
}
use quick_bite_order_service.Order.Repository.{find_items_by_order_ids, find_order_by_public_id}
use quick_bite_order_service.Order.Responses.{OrderDetailResponse, detail_response}
use quick_bite_order_service.World.Monad.{archive_query, lift, pure, throw, ◌>>=◌}
use quick_bite_order_service.World.Reads.{Reads, Reads-bind, answer-Reads, at_faults, lift-Reads}
use quick_bite_order_service.World.State.{Db, World}

pub query_at-Reads :
    {A : Type 0} (at : Cluster) (w : World) (f : ℕ → Db → A)
    → Reads (λ a. a ≡ f w.now (tables_of at w)) w (query_at at f w)
query_at-Reads hot w f = answer-Reads w (λ v. f v.now v.db) (λ fs. refl)
query_at-Reads archived w f = answer-Reads w (λ v. f v.now v.archive) (λ fs. refl)

-- The caller may look into the cluster where the order is found: into the archive only if the hot
-- cluster does not have it.
abbrev pub MayLook : ActorContext → Option OrderEntity → Cluster → Type 0
MayLook actor in_hot hot = Unit
MayLook actor in_hot archived = (in_hot ≡ none) × (can_read_archive actor ≡ true)

abbrev pub FoundAt : ActorContext → String → World → OrderEntity → Cluster → Type 0
FoundAt actor public_id w o at =
    (find_order_by_public_id public_id w.now (tables_of at w) ≡ some o)
    × MayLook actor (find_order_by_public_id public_id w.now w.db) at

-- The answer shows an order that the caller may read, with its items in that cluster.
pub record Granted (actor : ActorContext) (public_id : String) (w : World)
    (answer : OrderDetailResponse) : Type 0 where
  pub order : OrderEntity
  pub at : Cluster
  pub found : FoundAt actor public_id w order at
  pub allowed : assert_read_access actor order ≡ ok tt
  pub shown :
      answer
      ≡ detail_response order (find_items_by_order_ids (order.id ∷ []) w.now (tables_of at w))

from_archive-Reads :
    (actor : ActorContext) (public_id : String) (w : World) (found : Option OrderEntity)
    → find_order_by_public_id public_id w.now w.db ≡ none
    → can_read_archive actor ≡ true
    → found ≡ find_order_by_public_id public_id w.now w.archive
    → Reads (λ x. FoundAt actor public_id w x.0 x.1) w (lift (from_archive found) w)
from_archive-Reads actor public_id w none e c f = (w.faults, refl, tt)
from_archive-Reads actor public_id w (some o) e c f = (w.faults, refl, (sym f, (e, c)))

or_from_archive-Reads :
    (actor : ActorContext) (public_id : String) (w : World) (in_hot : Option OrderEntity)
    → in_hot ≡ find_order_by_public_id public_id w.now w.db
    → Reads (λ x. FoundAt actor public_id w x.0 x.1) w (or_from_archive actor public_id in_hot w)
or_from_archive-Reads actor public_id w (some o) e = (w.faults, refl, (sym e, tt))
or_from_archive-Reads actor public_id w none e = by_case (can_read_archive actor) refl
  where
    by_case :
        (b : Bool)
        → can_read_archive actor ≡ b
        → Reads
            (λ x. FoundAt actor public_id w x.0 x.1)
            w
            ((if b
                then archive_query (find_order_by_public_id public_id)
                  >>= (λ found. lift (from_archive found))
                else throw order_not_found)
              w)
    by_case false c = (w.faults, refl, tt)
    by_case true c =
        Reads-bind (λ found. found ≡ find_order_by_public_id public_id w.now w.archive)
          (λ x. FoundAt actor public_id w x.0 x.1) w (λ found. lift (from_archive found))
          (archive_query (find_order_by_public_id public_id) w)
          (query_at-Reads archived w (find_order_by_public_id public_id))
          (λ found fs f. from_archive-Reads actor public_id (at_faults w fs) found (sym e) c f)

-- Under any faults `getOrder` leaves the world as it was, and if it returns, it shows an order of that
-- public id that the caller may read, with the items of the same cluster; it is one of the archive only
-- if the hot cluster has no such order and the caller is an administrator or a restaurant's owner.
pub get_order-Granted :
    (actor : ActorContext) (public_id : String) (w : World)
    → Reads (Granted actor public_id w) w (get_order actor public_id w)
unfolding get_order
get_order-Granted actor public_id w =
    Reads-bind (λ a. a ≡ find_order_by_public_id public_id w.now w.db) G w _ _
      (query_at-Reads hot w (find_order_by_public_id public_id))
      (λ in_hot fs e.
        Reads-bind (λ x. FoundAt actor public_id w x.0 x.1) G (at_faults w fs) _ _
          (or_from_archive-Reads actor public_id (at_faults w fs) in_hot e)
          (λ x gs found.
            Reads-bind (λ u. assert_read_access actor x.0 ≡ ok u) G (at_faults w gs) _ _
              (lift-Reads (at_faults w gs) (assert_read_access actor x.0))
              (λ u hs allowed. shown x hs found allowed)))
  where
    G : OrderDetailResponse → Type 0
    G = Granted actor public_id w

    shown :
        (x : OrderEntity × Cluster) (hs : List Bool)
        → FoundAt actor public_id w x.0 x.1
        → assert_read_access actor x.0 ≡ ok tt
        → Reads G (at_faults w hs) (
            (query_at x.1 (find_items_by_order_ids (x.0.id ∷ []))
                >>= (λ items. pure (detail_response x.0 items)))
              (at_faults w hs))
    shown x hs found allowed =
        Reads-bind (λ items. items ≡ find_items_by_order_ids (x.0.id ∷ []) w.now (tables_of x.1 w))
          G (at_faults w hs) (λ items. pure (detail_response x.0 items)) _
          (query_at-Reads x.1 (at_faults w hs) (find_items_by_order_ids (x.0.id ∷ [])))
          (λ items ks same. (
            ks,
            refl,
            record {
              order = x.0;
              at = x.1;
              found = found;
              allowed = allowed;
              shown = ap (detail_response x.0) same;
            },
          ))
