-- ===== src/Agent/Repository.antt =====
-- Statements on the agents' earnings: `src/app/agent/repository/agent-earning.repo.ts`.
use quick_bite_order_service.Agent.Model.{AgentEarningEntity, InsertAgentEarningInput}
use quick_bite_order_service.Common.{
  Bool, List, Option, [], find, if◌then◌else◌, is_some, keep, leb, ltb, nat_eq, none, some, sort_by,
  string_eq, take, ℕ, ◌&&◌, ◌++◌, ◌+◌, ◌==◌, ◌∷◌,
}
use quick_bite_order_service.Order.Model.{actor_eq, status_eq}
use quick_bite_order_service.World.State.{Db}

abbrev pub earning_of : ℕ → AgentEarningEntity → Bool
earning_of order_id e = e.order_id == order_id

-- `insertEarning`: UNIQUE (order_id) makes a second insert for an order do nothing.
unfoldable pub insert_earning : InsertAgentEarningInput → ℕ → Db → Option AgentEarningEntity × Db
insert_earning input now d =
    let e : AgentEarningEntity = record {
      id = d.earnings.next_id;
      region = input.region;
      agent_id = input.agent_id;
      order_id = input.order_id;
      amount = input.amount;
      currency = input.currency;
      earned_at = now;
    } in
    let taken = is_some (find (earning_of input.order_id) d.earnings.rows) in
    (
      if taken then none else some e,
      record d {
        earnings =
            if taken
            then d.earnings
            else record { rows = d.earnings.rows ++ e ∷ []; next_id = d.earnings.next_id + 1 };
      },
    )

abbrev pub earned_in : ℕ → ℕ → ℕ → AgentEarningEntity → Bool
earned_in agent_id from to e = e.agent_id == agent_id && leb from e.earned_at && ltb e.earned_at to

abbrev later_earning : AgentEarningEntity → AgentEarningEntity → Bool
later_earning a b = ltb b.earned_at a.earned_at

unfoldable pub list_by_agent : ℕ → ℕ → ℕ → ℕ → ℕ → Db → List AgentEarningEntity
unfolding sort_by
list_by_agent agent_id from to limit now d =
    take limit (sort_by later_earning (keep (earned_in agent_id from to) d.earnings.rows))

abbrev pub sum_amounts : List AgentEarningEntity → ℕ
sum_amounts [] = 0
sum_amounts (e ∷ es) = e.amount + sum_amounts es

unfoldable pub sum_by_agent : ℕ → ℕ → ℕ → ℕ → Db → ℕ
sum_by_agent agent_id from to now d =
    sum_amounts (keep (earned_in agent_id from to) d.earnings.rows)
