-- ===== src/McpServer/Dispatch.antt =====
-- The server as a whole: the calls of its tools, one after the other (mcp/index.ts).
use open_ttt.Prelude.{ℕ, Option, none, some, List, [], ◌∷◌}
use open_ttt.McpServer.{McpServer, McpEnv}
use open_ttt.McpServer.Generate.{PotGenerateArgs, GenerateInput, GenerateAnswer, pot_generate}
use open_ttt.McpServer.Answers.{
  PotVerifyArgs, VerifyAnswer, PotQueryArgs, QueryAnswer, Period, StatsAnswer, HealthAnswer,
  pot_verify, pot_query, pot_stats, pot_health,
}

pub data Call (F : Type 0) : Type 0 where
  generate_call : PotGenerateArgs → GenerateInput F → Call F
  verify_call : PotVerifyArgs → ℕ → Call F
  query_call : PotQueryArgs → ℕ → Call F
  stats_call : Period → ℕ → Call F
  health_call : Option ℕ → Call F

pub data Response (F : Type 0) : Type 0 where
  generated : GenerateAnswer F → Response F
  checked : VerifyAnswer → Response F
  queried : QueryAnswer → Response F
  counted : StatsAnswer F → Response F
  health : HealthAnswer → Response F
  -- `isError`.
  failure : Response F

abbrev pub respond {ℓ} :
    {X : Type ℓ} {F : Type 0} → (X → Response F) → McpServer × Option X → McpServer × Response F
respond f (s, none) = (s, failure)
respond f (s, some x) = (s, f x)

abbrev pub always {ℓ} :
    {X : Type ℓ} {F : Type 0} → (X → Response F) → McpServer × X → McpServer × Response F
always f (s, x) = (s, f x)

module _ {F : Type 0} (env : McpEnv F) where
  unfoldable pub handle_call : Call F → McpServer → McpServer × Response F
  handle_call (generate_call args input) s = respond generated (pot_generate env args input s)
  handle_call (verify_call args now_ms) s = respond checked (pot_verify env args now_ms s)
  handle_call (query_call args now_ms) s = always queried (pot_query env args now_ms s)
  handle_call (stats_call period now_ms) s = always counted (pot_stats env period now_ms s)
  handle_call (health_call synthesized) s = always health (pot_health env synthesized s)

  -- The server after some calls in their order, and what it responded.
  abbrev pub run : List (Call F) → McpServer → McpServer
  run [] s = s
  run (c ∷ cs) s = run cs (handle_call c s).0

  abbrev pub responses : List (Call F) → McpServer → List (Response F)
  responses [] s = []
  responses (c ∷ cs) s = (handle_call c s).1 ∷ responses cs (handle_call c s).0
