-- ===== src/Core/Client/Frame.antt =====
-- Reading a branch changes no table.
use quick_bite_order_service.Common.{Option, [], nat_eq, none, refl, some, string_eq, ℕ, ◌≡◌}
use quick_bite_order_service.Core.Client.{
  CoreService, cached_or_fetched, fetch_branch, get_branch, store_branch,
}
use quick_bite_order_service.Core.Model.{CoreBranchMetadata}
use quick_bite_order_service.Order.Model.{actor_eq, status_eq}
use quick_bite_order_service.World.Cache.{live}
use quick_bite_order_service.World.Frame.{
  Keeps, bind-Keeps, call-Keeps, command-Keeps, ignore-Keeps,
}
use quick_bite_order_service.World.Monad.{command, ignore_errors, pure}
use quick_bite_order_service.World.Progress.{Calm, bind-Calm, call-Calm, ignore-Calm}
use quick_bite_order_service.World.State.{Redis, World}

cached_or_fetched-Keeps :
    (core : CoreService) (id : ℕ) (cached : Option CoreBranchMetadata) (w : World)
    → Keeps w (cached_or_fetched core id cached w)
cached_or_fetched-Keeps core id (some b) w = (refl, refl)
cached_or_fetched-Keeps core id none w =
    bind-Keeps w _ (fetch_branch core id w) (call-Keeps _ w (λ fs. (refl, refl))) λ b v.
      bind-Keeps v (λ _. pure b) (ignore_errors (store_branch id b) v)
        (ignore-Keeps v (store_branch id b v) (command-Keeps _ v)) (λ _ u. (refl, refl))

pub get_branch-Keeps : (core : CoreService) (id : ℕ) (w : World) → Keeps w (get_branch core id w)
unfolding get_branch
get_branch-Keeps core id w =
    let look_up : ℕ → Redis → Option CoreBranchMetadata × Redis =
      λ now r. (live now id r.branches, r) in
    bind-Keeps w (cached_or_fetched core id) (command look_up w) (command-Keeps look_up w)
      (cached_or_fetched-Keeps core id)

-- If no call is to fail before, none is after.
pub get_branch-Calm :
    (core : CoreService) (id : ℕ) (w : World) → w.faults ≡ [] → Calm (get_branch core id w)
unfolding get_branch
get_branch-Calm core id w calm =
    bind-Calm (cached_or_fetched core id) (command (λ now r. (live now id r.branches, r)) w)
      (call-Calm _ w calm refl) λ cached v c. fetched cached v c
  where
    fetched :
        (cached : Option CoreBranchMetadata) (v : World)
        → v.faults ≡ []
        → Calm (cached_or_fetched core id cached v)
    fetched (some b) v c = c
    fetched none v c = bind-Calm _ (fetch_branch core id v) (call-Calm _ v c refl) λ b u c'.
        bind-Calm (λ _. pure b) (ignore_errors (store_branch id b) u)
          (ignore-Calm (store_branch id b u) (call-Calm _ u c' refl)) (λ _ x c''. c'')
