-- ===== src/Flow/Breaker.antt =====
-- When an agent may be sent a task, and how long a tripped circuit stays so.
use simple_a2a_registry.Prelude.{
  ℕ, ◌+◌, ◌≤◌, ◌<◌, String, true, false, some, List, [], ◌∷◌, ◌≡◌, ◌≢◌, ◌↔◌, ◌⊎◌, refl, ◌∙◌, arith,
  length, leb, nat_eq, Bool-cases, Option-cases, inl, inr, text_eq_self,
}
use simple_a2a_registry.Flow.{
  AgentFlowState, FlowControlConfig, Agents, fresh_state, get, close_circuit, is_tripped, is_full,
  can_dispatch_state, can_dispatch, fail_state, on_task_failed,
}
use simple_a2a_registry.Flow.Agents.{get-put, state_of, get-change_default}

-- The circuit is closed at a time: it was never tripped, or its cooldown is over.
abbrev pub IsClosed : ℕ → AgentFlowState → Type 0
IsClosed now s = (s.circuit_tripped_until ≡ 0) ⊎ (s.circuit_tripped_until ≤ now)

-- A permit is left: there is no limit, or the count is below it.
abbrev pub HasPermit : FlowControlConfig → AgentFlowState → Type 0
HasPermit cfg s = (cfg.max_concurrent_tasks ≡ 0) ⊎ (s.concurrent_count < cfg.max_concurrent_tasks)

module _ (cfg : FlowControlConfig) (now : ℕ) where
  can_dispatch_state_iff :
      (s : AgentFlowState)
      → ((can_dispatch_state cfg now s).0 ≡ true) ↔ (IsClosed now s × HasPermit cfg s)
  unfolding can_dispatch_state is_tripped
  can_dispatch_state_iff s = (λ h. ground arith, λ h. ground arith)

  -- An agent may be sent a task exactly when its circuit is closed and it has a permit left; an
  -- agent without a state counts as fresh.
  pub can_dispatch_iff :
      (a : String) (agents : Agents)
      → ((can_dispatch cfg now a agents).0 ≡ true)
        ↔ (IsClosed now (state_of a agents) × HasPermit cfg (state_of a agents))
  unfolding can_dispatch
  can_dispatch_iff a agents = elim (Option-cases (get a agents)) [
    | inl e ↦ rw (e, can_dispatch) (λ h. (inl refl, fresh_permit), λ h. refl)
    | inr (s, e) ↦ rw (e, can_dispatch) (can_dispatch_state_iff s)
  ]
    where
      fresh_permit : HasPermit cfg fresh_state
      fresh_permit = ground arith

  tripped_refuses :
      (s : AgentFlowState)
      → s.circuit_tripped_until ≢ 0
      → now < s.circuit_tripped_until
      → (can_dispatch_state cfg now s).0 ≡ false
  unfolding can_dispatch_state is_tripped
  tripped_refuses s h k = ground arith

  expired_resets :
      (s : AgentFlowState)
      → s.circuit_tripped_until ≢ 0
      → s.circuit_tripped_until ≤ now
      → (can_dispatch_state cfg now s).1 ≡ close_circuit s
  unfolding can_dispatch_state is_tripped
  expired_resets s h k = elim (Bool-cases (nat_eq s.circuit_tripped_until 0)) [
    | inl z ↦ absurd (h (ground arith))
    | inr z ↦ elim (Bool-cases (leb s.circuit_tripped_until now)) [
      | inr l ↦ absurd (never (ground arith) k)
      | inl l ↦
          rw (z, l)
            (elim (Bool-cases (is_full cfg (close_circuit s))) [
              | inl f ↦ rw f refl
              | inr f ↦ rw f refl
            ])
    ]
  ]
    where
      never : now < s.circuit_tripped_until → s.circuit_tripped_until ≤ now → ⊥
      never p q = omega arith

  -- The first question after the cooldown of a tripped circuit resets it: the agent's state then
  -- has no failures and no circuit, and the same permits.
  pub can_dispatch_resets :
      (a : String) (agents : Agents) (s : AgentFlowState)
      → get a agents ≡ some s
      → s.circuit_tripped_until ≢ 0
      → s.circuit_tripped_until ≤ now
      → get a (can_dispatch cfg now a agents).1 ≡ some (close_circuit s)
  unfolding can_dispatch
  can_dispatch_resets a agents s e h k =
      rw (e, can_dispatch)
        (get-put a (can_dispatch_state cfg now s).1 agents a
          ∙ rw (text_eq_self a, expired_resets s h k) refl)

-- Dispatch failures of one agent at a sequence of times.
unfoldable pub fail_times : FlowControlConfig → String → List ℕ → Agents → Agents
fail_times cfg a [] agents = agents
fail_times cfg a (now ∷ times) agents = fail_times cfg a times (on_task_failed cfg now a agents)

failures-fail_state :
    (cfg : FlowControlConfig) (now : ℕ) (s : AgentFlowState)
    → (fail_state cfg now s).consecutive_failures ≡ s.consecutive_failures + 1
unfolding fail_state
failures-fail_state cfg now s =
    elim (Bool-cases (leb cfg.circuit_breaker_threshold (s.consecutive_failures + 1))) [
      | inl e ↦ rw e refl
      | inr e ↦ rw e refl
    ]

module _ (cfg : FlowControlConfig) (a : String) where
  pub state-on_task_failed :
      (now : ℕ) (agents : Agents)
      → get a (on_task_failed cfg now a agents) ≡ some (fail_state cfg now (state_of a agents))
  unfolding on_task_failed
  state-on_task_failed now agents =
      get-change_default a (fail_state cfg now) agents a ∙ rw (text_eq_self a) refl

  failures-fail_times :
      (times : List ℕ) (agents : Agents)
      → (state_of a (fail_times cfg a times agents)).consecutive_failures
        ≡ (state_of a agents).consecutive_failures + length times
  unfolding fail_times
  failures-fail_times [] agents = omega arith
  failures-fail_times (now ∷ times) agents =
      let rest = failures-fail_times times (on_task_failed cfg now a agents) in
      let first : (state_of a (on_task_failed cfg now a agents)).consecutive_failures
          ≡ (state_of a agents).consecutive_failures + 1 =
        rw (state-on_task_failed now agents) (failures-fail_state cfg now (state_of a agents)) in
      omega (arith, rest, first)

  -- As many dispatch failures as the threshold, with no success between them, close the agent to
  -- dispatch from the last one until the cooldown has passed, whatever its state was before.
  pub breaker_refuses :
      (times : List ℕ) (last later : ℕ) (agents : Agents)
      → cfg.circuit_breaker_threshold ≤ length times + 1
      → later < last + cfg.circuit_breaker_cooldown
      → (can_dispatch cfg later a (on_task_failed cfg last a (fail_times cfg a times agents))).0
        ≡ false
  unfolding can_dispatch
  breaker_refuses times last later agents enough soon =
      let before = fail_times cfg a times agents in
      rw (state-on_task_failed last before, can_dispatch)
        (refuses (state_of a before) (omega (arith, failures-fail_times times agents, enough)))
    where
      refuses :
          (s : AgentFlowState)
          → cfg.circuit_breaker_threshold ≤ s.consecutive_failures + 1
          → (can_dispatch_state cfg later (fail_state cfg last s)).0 ≡ false
      refuses s many =
          tripped_refuses cfg later (fail_state cfg last s) (rw (until s many) (positive soon))
            (rw (until s many) soon)
        where
          positive : {m n : ℕ} → m < n → n ≢ 0
          positive l e = omega arith

          until :
              (s : AgentFlowState)
              → cfg.circuit_breaker_threshold ≤ s.consecutive_failures + 1
              → (fail_state cfg last s).circuit_tripped_until ≡ last + cfg.circuit_breaker_cooldown
          until s many = unfold fail_state in ground arith
