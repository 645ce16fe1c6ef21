-- ===== src/Api/ToolRoutes/Customers.antt =====
-- Which tool calls write the customers.
use tool_permission_enforcer.Base.{
  ℕ, Option, List, [], ◌∷◌, ◌++◌, ◌≡◌, ◌≢◌, ◌⊎◌, ◌∙◌, sym, ap, inl, inr, arith, string_eq, length,
}
use tool_permission_enforcer.Base.Lists.{length-append}
use tool_permission_enforcer.Base.Outcome.{Result-cases}
use tool_permission_enforcer.Domain.Models.{Agent}
use tool_permission_enforcer.Settings.{PermissionProxySettings}
use tool_permission_enforcer.Security.Claims.{TrustedSessionClaims}
use tool_permission_enforcer.Security.Jwt.{Jwt, KeyReply}
use tool_permission_enforcer.ToolCalls.{Env, Run, World, execute, tool_writes}
use tool_permission_enforcer.ToolCalls.Forwarding.{Forwarded, execute-Forwarded}
use tool_permission_enforcer.ToolCalls.Customers.{execute-ByTool}
use tool_permission_enforcer.Api.ToolRoutes.{ToolCallInput, admit, call_of, execute_tool_call}
use tool_permission_enforcer.Api.ToolRoutes.Gate.{
  IsAdmitted, admit-IsAdmitted, admitted-forwarded, refused-world,
}

grows : {A : Type 0} (xs : List A) (x : A) → xs ++ (x ∷ []) ≢ xs
grows xs x h = absurd (omega (arith, ap length h, length-append xs (x ∷ [])))

module _ (jwt : Jwt) (settings : PermissionProxySettings) (provider : Option (jwt.Token → KeyReply))
    (env : Env) (input : ToolCallInput jwt.Token) (now : ℕ) (run : Run) where
  -- From one world to another the customers are written by the tool, in a call that was admitted,
  -- permitted and authorized in the log.
  pub record ByPermittedCall (w w' : World) : Type 0 where
    pub agent : Agent
    pub session : TrustedSessionClaims
    pub admitted : IsAdmitted jwt settings provider env input now run w agent session
    pub forwarded : Forwarded env (call_of jwt settings provider env input (agent, session)) run w
    pub written :
        w'.db.customers
        ≡ tool_writes env (call_of jwt settings provider env input (agent, session)) w

  admitted-writes :
      (w : World) (agent : Agent) (session : TrustedSessionClaims)
      → IsAdmitted jwt settings provider env input now run w agent session
      → let w' = (execute env (call_of jwt settings provider env input (agent, session)) run w).1 in
        (w'.db.customers ≡ w.db.customers) ⊎ ByPermittedCall w w'
  admitted-writes w agent session admitted =
      let c = call_of jwt settings provider env input (agent, session) in
      elim (execute-ByTool env c run w) [
        | inl same ↦ inl same
        | inr (log, written) ↦ elim (execute-Forwarded env c run w) [
          | inl same ↦ absurd (grows w.forwarded c (sym log ∙ same))
          | inr forwarded ↦ inr (record {
            agent = agent;
            session = session;
            admitted = admitted;
            forwarded = forwarded;
            written = written;
          })
        ]
      ]

  -- A tool call leaves the customers as they are, or it was admitted, permitted and authorized, and
  -- they are what the called tool leaves.
  pub execute_tool_call-writes :
      (w : World)
      → let w' = (execute_tool_call jwt settings provider env input now run w).1 in
        (w'.db.customers ≡ w.db.customers) ⊎ ByPermittedCall w w'
  execute_tool_call-writes w = elim (Result-cases (admit jwt settings provider env input now w).0) [
    | inr (e, failed) ↦ inl (
        ap (λ (x : World). x.db.customers)
          (refused-world jwt settings provider env input now run w e failed))
    | inl ((agent, session), accepted) ↦
        rw (admitted-forwarded jwt settings provider env input now run w (agent, session) accepted)
          (admitted-writes w agent session
            (admit-IsAdmitted jwt settings provider env input now run w agent session accepted))
  ]
