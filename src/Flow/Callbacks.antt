-- ===== src/Flow/Callbacks.antt =====
-- The calls of flow_control.py that reach the controller beside the rounds take no permit: a bound on
-- the count of an agent outlives them.
use simple_a2a_registry.Prelude.{
  ℕ, ◌+◌, ◌≤◌, String, List, [], ◌∷◌, ◌≡◌, refl, arith, leb, ◌==◌, Bool-cases, Option-cases, inl,
  inr, subst, eq_iff,
}
use simple_a2a_registry.Flow.{
  AgentFlowState, FlowControlConfig, Agents, get, put, change, change_default, close_circuit,
  fail_state, give_permit, forget_failures, on_task_failed, on_task_completed, on_task_departed,
  reset_circuit,
}
use simple_a2a_registry.Flow.Agents.{get-put, state_of}
use simple_a2a_registry.Flow.Rounds.{
  Callback, callback_step, callbacks, completes, departs, clears, fails, clears_all,
}

-- No agent holds more permits than its bound.
abbrev pub IsBounded : (String → ℕ) → Agents → Type 0
IsBounded m agents = (j : String) → (state_of j agents).concurrent_count ≤ m j

module _ (m : String → ℕ) where
  pub put-IsBounded :
      (a : String) (s : AgentFlowState) (agents : Agents)
      → s.concurrent_count ≤ m a
      → IsBounded m agents
      → IsBounded m (put a s agents)
  put-IsBounded a s agents h all j = elim (Bool-cases (a == j)) [
    | inl e ↦
        rw (get-put a s agents j, e) (subst (λ k. s.concurrent_count ≤ m k) ((eq_iff a j).0 e) h)
    | inr n ↦ rw (get-put a s agents j, n) (all j)
  ]

  pub change-IsBounded :
      (a : String) (f : AgentFlowState → AgentFlowState) (agents : Agents)
      → ((s : AgentFlowState) → (f s).concurrent_count ≤ s.concurrent_count)
      → IsBounded m agents
      → IsBounded m (change a f agents)
  unfolding change
  change-IsBounded a f agents less all = elim (Option-cases (get a agents)) [
    | inl e ↦ rw (e, change) all
    | inr (s, e) ↦
        rw (e, change) (put-IsBounded a (f s) agents (le_chain (less s) (rw e at (all a))) all)
  ]
    where
      le_chain : {x y z : ℕ} → x ≤ y → y ≤ z → x ≤ z
      le_chain p q = omega arith

pub count-fail_state :
    (cfg : FlowControlConfig) (now : ℕ) (s : AgentFlowState)
    → (fail_state cfg now s).concurrent_count ≡ s.concurrent_count
unfolding fail_state
count-fail_state cfg now s =
    elim (Bool-cases (leb cfg.circuit_breaker_threshold (s.consecutive_failures + 1))) [
      | inl e ↦ rw e refl
      | inr e ↦ rw e refl
    ]

-- A callback takes no permit from any agent, so that a bound on an agent's count stays.
module _ (cfg : FlowControlConfig) (m : String → ℕ) where
  pub callback_step-IsBounded :
      (call : Callback) (agents : Agents)
      → IsBounded m agents
      → IsBounded m (callback_step cfg call agents)
  unfolding callback_step on_task_completed on_task_departed on_task_failed change_default
      reset_circuit get
  callback_step-IsBounded (completes a) agents all =
      change-IsBounded m a forget_failures agents (λ s. omega arith) all
  callback_step-IsBounded (departs a) agents all =
      change-IsBounded m a give_permit agents (λ s. omega arith) all
  callback_step-IsBounded (fails now a) agents all =
      put-IsBounded m a (fail_state cfg now (state_of a agents)) agents
        (rw (count-fail_state cfg now (state_of a agents)) (all a)) all
  callback_step-IsBounded (clears a) agents all =
      change-IsBounded m a close_circuit agents (λ s. omega arith) all
  callback_step-IsBounded clears_all agents all = λ j. omega arith

  pub callbacks-IsBounded :
      (calls : List Callback) (agents : Agents)
      → IsBounded m agents
      → IsBounded m (callbacks cfg calls agents)
  unfolding callbacks
  callbacks-IsBounded [] agents all = all
  callbacks-IsBounded (call ∷ calls) agents all =
      callbacks-IsBounded calls (callback_step cfg call agents)
        (callback_step-IsBounded call agents all)

-- No callback raises the count of any agent.
pub count-callbacks :
    (cfg : FlowControlConfig) (calls : List Callback) (agents : Agents) (j : String)
    → (state_of j (callbacks cfg calls agents)).concurrent_count
      ≤ (state_of j agents).concurrent_count
count-callbacks cfg calls agents j =
    callbacks-IsBounded cfg (λ i. (state_of i agents).concurrent_count) calls agents
      (λ i. omega arith) j
