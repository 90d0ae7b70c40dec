-- ===== src/Assignment/Claims.antt =====
-- Taking and refusing an offer: `claim`, `reject` and `adminAssign` of
-- `src/app/assignment/service/assignment.service.ts`.
pub mod Taken
pub mod Lawful
pub mod Once
pub mod Locked
pub mod Progress
pub mod Rejected
use quick_bite_order_service.Agent.Presence.{mark_busy}
use quick_bite_order_service.Agent.Service.{task_of}
use quick_bite_order_service.Agent.Settlement.{announce_status, drop_claim}
use quick_bite_order_service.Assignment.Config.{CacheServer, DeliveryConfig}
use quick_bite_order_service.Common.{
  Bool, List, Option, String, [], contains, erase, false, if◌then◌else◌, keep, ltb, nat_eq, none,
  not, some, string_eq, true, ℕ, ◌-◌, ◌==◌, ◌∷◌,
}
use quick_bite_order_service.Core.Client.{CoreService}
use quick_bite_order_service.Errors.{
  Result, err, not_in_candidate_list, offer_not_found_or_expired, ok, order_already_claimed,
  order_not_in_ready_state,
}
use quick_bite_order_service.Finance.Payout.{roll_back}
use quick_bite_order_service.Order.Model.{OrderEntity, actor_eq, status_eq}
use quick_bite_order_service.Order.Repository.{claim_ready_order_for_agent, find_order_by_public_id}
use quick_bite_order_service.World.Cache.{expires, live, set, try_set}
use quick_bite_order_service.World.Monad.{
  M, call, catch, command, emit, lift, pure, query, statement, throw, ◌>>=◌, ◌>>◌,
}
use quick_bite_order_service.World.State.{
  DeliveryTaskResponse, agent_room, offer_cancelled, task_assigned,
}

-- The agents of the offer. An offer without agents would be an empty text, which counts as missing.
abbrev pub listed : Option (List ℕ) → Result (List ℕ)
listed none = err offer_not_found_or_expired
listed (some []) = err offer_not_found_or_expired
listed (some (a ∷ rest)) = ok (a ∷ rest)

-- `if (!candidateIds.includes(agentId)) throw NotInCandidateListError;`
abbrev pub must_include : List ℕ → ℕ → Result (Unit {0})
must_include candidates agent_id =
    if contains candidates agent_id then ok tt else err not_in_candidate_list

-- `candidateIds.filter((id) => id !== agentId)`
abbrev pub without : ℕ → List ℕ → List ℕ
without agent_id candidates = keep (λ a. not (a == agent_id)) candidates

abbrev pub read_offer : String → ℕ → M (List ℕ)
read_offer public_id agent_id = do
  stored ← command (λ now r. (live now public_id r.offers, r))
  candidates ← lift (listed stored)
  lift (must_include candidates agent_id)
  pure candidates

-- `if (!ok) throw OrderAlreadyClaimedError;`
abbrev pub won_or_throw : Bool → Result (Unit {0})
won_or_throw true = ok tt
won_or_throw false = err order_already_claimed

-- The lock on the order: the first to set the key has it.
unfoldable pub lock_claim : DeliveryConfig → String → ℕ → M (Unit {0})
lock_claim config public_id agent_id = do
  won ← command (λ now r.
      let (won, claims) = try_set now public_id agent_id config.claim_ttl_sec r.claims in
      (won, record r { claims = claims }))
  lift (won_or_throw won)

-- `if (!claimed) { await this.cache.del(…); throw OrderNotInReadyStateError; }`
abbrev pub or_unlock : {A : Type 0} → String → Option A → M A
or_unlock public_id none = drop_claim public_id >> throw order_not_in_ready_state
or_unlock public_id (some a) = pure a

abbrev pub take_ready_order : String → ℕ → M OrderEntity
take_ready_order public_id agent_id = do
  claimed ← statement (claim_ready_order_for_agent public_id agent_id)
  or_unlock public_id claimed

-- The block of the `try` in `claim`, without the commit.
abbrev pub find_and_take : String → ℕ → M OrderEntity
find_and_take public_id agent_id = do
  found ← query (find_order_by_public_id public_id)
  or_unlock public_id found
  take_ready_order public_id agent_id

-- The transaction around it: once it has failed, the rows go back and the lock is dropped.
unfoldable pub claim_transaction : String → M OrderEntity → M OrderEntity
claim_transaction public_id body = do
  call (λ w. (ok tt, w))
  λ w.
      catch (body >>= λ o. call (λ v. (ok o, v)))
        (λ e. roll_back w.db >> (drop_claim public_id >> throw e)) w

-- `io.to(agent:<loser>).emit("offer.cancelled", …)` for each.
unfoldable pub cancel_offers : String → List ℕ → M (Unit {0})
cancel_offers public_id [] = pure tt
cancel_offers public_id (loser ∷ losers) =
    emit (agent_room loser) (offer_cancelled public_id) >> cancel_offers public_id losers

abbrev pub drop_offer : String → M (Unit {0})
drop_offer public_id = command (λ now r. (tt, record r { offers = erase public_id r.offers }))

-- The messages, and the end of the offer; the lock stays.
unfoldable pub fan_out : String → ℕ → List ℕ → OrderEntity → DeliveryTaskResponse → M (Unit {0})
fan_out public_id agent_id losers o task = do
  emit (agent_room agent_id) (task_assigned task)
  cancel_offers public_id losers
  announce_status o
  drop_offer public_id

-- What follows the commit, in `claim` with the other candidates and in `adminAssign` with none.
unfoldable pub announce_assignment :
    CoreService → String → ℕ → List ℕ → OrderEntity → M DeliveryTaskResponse
announce_assignment core public_id agent_id losers o = do
  mark_busy agent_id
  task ← task_of core o
  fan_out public_id agent_id losers o task
  pure task

-- What `claim` and `adminAssign` share: the lock, the transaction and what follows.
unfoldable pub assign_order :
    CoreService → DeliveryConfig → String → ℕ → List ℕ → M OrderEntity → M DeliveryTaskResponse
assign_order core config public_id agent_id losers body = do
  lock_claim config public_id agent_id
  o ← claim_transaction public_id body
  announce_assignment core public_id agent_id losers o

-- `claim`
unfoldable pub claim : CoreService → DeliveryConfig → String → ℕ → M DeliveryTaskResponse
claim core config public_id agent_id = do
  candidates ← read_offer public_id agent_id
  assign_order core config public_id agent_id (without agent_id candidates)
      (find_and_take public_id agent_id)

-- `adminAssign`
unfoldable pub admin_assign : CoreService → DeliveryConfig → String → ℕ → M DeliveryTaskResponse
admin_assign core config public_id agent_id =
    assign_order core config public_id agent_id [] (take_ready_order public_id agent_id)

-- `Math.max(remainingTtl, 1)`; a key without an end answers -1, one that is gone -2.
abbrev pub remaining_ttl : CacheServer → ℕ → Option ℕ → ℕ
remaining_ttl server now none = 1
remaining_ttl server now (some at) =
    let left = server.whole_seconds (at - now) in if ltb left 1 then 1 else left

-- The rest of `reject`, on the agents that are left.
unfoldable pub store_remaining : CacheServer → String → List ℕ → M (Unit {0})
store_remaining server public_id [] = drop_offer public_id
store_remaining server public_id (a ∷ rest) = do
  ttl ← command (λ now r. (remaining_ttl server now (expires now public_id r.offers), r))
  command (λ now r. (tt, record r { offers = set now public_id (a ∷ rest) ttl r.offers }))

-- `reject`
unfoldable pub reject : CacheServer → String → ℕ → M (Unit {0})
reject server public_id agent_id = do
  candidates ← read_offer public_id agent_id
  store_remaining server public_id (without agent_id candidates)
