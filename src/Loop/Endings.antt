-- ===== src/Loop/Endings.antt =====
-- Every run of the loop ends within its bound, and says why.
use praxis_ai_agent_platform.Common.{
  ℕ, ◌≤◌, ◌<◌, max, String, ◌≡◌, ◌≢◌, map, nat_eq, string_eq, pair_eq, length, count,
}
use praxis_ai_agent_platform.Contract.{TaskContract}
use praxis_ai_agent_platform.Loop.{StopReason, Turn, Conversions, AgentLoop}
use praxis_ai_agent_platform.Loop.Running.{LoopResult}
use praxis_ai_agent_platform.Loop.Routing.{Explains}
use praxis_ai_agent_platform.Loop.Bounds.{print}

module _ (py : Conversions) (loop : AgentLoop) (contract : TaskContract) (tracker : ℕ)
    (turns : ℕ → Turn) where
  -- What a result tells: the loop has taken no more iterations than it may, and its reason is true.
  pub record IsHonest (r : LoopResult) : Type 0 where
    pub few : length r.iterations ≤ max 1 loop.max_iterations
    pub full :
        r.stop_reason ≡ StopReason.max_iterations → length r.iterations ≡ max 1 loop.max_iterations
    pub stuck :
        r.stop_reason ≡ StopReason.stalled
        → (f : String × String) × (count f (map (print py) r.iterations) ≡ loop.stall_threshold)
    pub fresh :
        r.stop_reason ≢ StopReason.stalled
        → (f : String × String) → count f (map (print py) r.iterations) < loop.stall_threshold
    pub why :
        (k : ℕ) × Explains py loop contract tracker turns k r.iterations r.answer r.evidence
          r.errors r.stop_reason
