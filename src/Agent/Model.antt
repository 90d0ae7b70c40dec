-- ===== src/Agent/Model.antt =====
-- The data of the agent module: `src/app/agent/entity/agent-earning.entity.ts` and `types.ts`.
use quick_bite_order_service.Common.{String, ℕ}

pub record AgentEarningEntity : Type 0 where
  pub id : ℕ
  pub region : String
  pub agent_id : ℕ
  pub order_id : ℕ
  pub amount : ℕ
  pub currency : String
  pub earned_at : ℕ

pub record InsertAgentEarningInput : Type 0 where
  pub region : String
  pub agent_id : ℕ
  pub order_id : ℕ
  pub amount : ℕ
  pub currency : String
