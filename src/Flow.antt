-- ===== src/Flow.antt =====
-- FlowController of orchestration/flow_control.py: the permits and the circuit breaker that the
-- dispatcher keeps for each agent, and the delay between retries. Times are counted in one unit; 0
-- as `circuit_tripped_until` means that the circuit is not tripped.
pub mod Agents
pub mod Breaker
pub mod Rounds
pub mod Callbacks
pub mod Permits
pub mod Backoff
use simple_a2a_registry.Prelude.{
  ℕ, zero, suc, ◌+◌, ◌-◌, ◌*◌, min, max, String, Bool, true, false, Option, none, some, List, [],
  ◌∷◌, leb, ltb, nat_eq, or_else, ◌==◌, if◌then◌else◌,
}

pub record AgentFlowState : Type 0 where
  pub concurrent_count : ℕ
  pub consecutive_failures : ℕ
  pub circuit_tripped_until : ℕ

abbrev pub fresh_state : AgentFlowState
fresh_state = record { concurrent_count = 0; consecutive_failures = 0; circuit_tripped_until = 0 }

pub record FlowControlConfig : Type 0 where
  pub max_concurrent_tasks : ℕ
  pub circuit_breaker_threshold : ℕ
  pub circuit_breaker_cooldown : ℕ
  pub retry_backoff_base : ℕ
  pub retry_backoff_max : ℕ

abbrev pub default_config : FlowControlConfig
default_config = record {
  max_concurrent_tasks = 5;
  circuit_breaker_threshold = 3;
  circuit_breaker_cooldown = 300;
  retry_backoff_base = 30;
  retry_backoff_max = 3600;
}

-- `self._agents`
abbrev pub Agents : Type 0
Agents = List (String × AgentFlowState)

-- `self._agents.get(agent_id)`
unfoldable pub get : String → Agents → Option AgentFlowState
get a [] = none
get a ((b, s) ∷ agents) = if b == a then some s else get a agents

-- The dict after the state of an agent has been written, whether it was there or not.
unfoldable pub put : String → AgentFlowState → Agents → Agents
put a s [] = (a, s) ∷ []
put a s ((b, t) ∷ agents) =
    let rest = put a s agents in if b == a then (b, s) ∷ agents else (b, t) ∷ rest

-- A method that returns where the agent has no state, and changes the state where it has one.
unfoldable pub change : String → (AgentFlowState → AgentFlowState) → Agents → Agents
change a f agents = elim (get a agents) [ none ↦ agents | some s ↦ put a (f s) agents ]

-- `state = self._agents.setdefault(agent_id, AgentFlowState())`, and a change of it.
unfoldable pub change_default : String → (AgentFlowState → AgentFlowState) → Agents → Agents
change_default a f agents = put a (f (or_else (get a agents) fresh_state)) agents

abbrev pub close_circuit : AgentFlowState → AgentFlowState
close_circuit s = record s { circuit_tripped_until = 0; consecutive_failures = 0 }

-- `_is_circuit_tripped`: its answer, and the state, which it resets when the cooldown is over.
unfoldable pub is_tripped : ℕ → AgentFlowState → Bool × AgentFlowState
is_tripped now s =
    if nat_eq s.circuit_tripped_until 0
    then (false, s)
    else if leb s.circuit_tripped_until now
    then (false, close_circuit s)
    else (true, s)

-- The limit on concurrent tasks, where 0 is no limit.
abbrev pub is_full : FlowControlConfig → AgentFlowState → Bool
is_full cfg s =
    if ltb 0 cfg.max_concurrent_tasks
    then leb cfg.max_concurrent_tasks s.concurrent_count
    else false

unfoldable pub can_dispatch_state : FlowControlConfig → ℕ → AgentFlowState → Bool × AgentFlowState
can_dispatch_state cfg now s =
    let (tripped, after) = is_tripped now s in
    if tripped then (false, after) else if is_full cfg after then (false, after) else (true, after)

-- The answer, and the agents afterwards.
unfoldable pub can_dispatch : FlowControlConfig → ℕ → String → Agents → Bool × Agents
can_dispatch cfg now a agents = elim (get a agents) [
  | none ↦ (true, agents)
  | some s ↦ ((can_dispatch_state cfg now s).0, put a (can_dispatch_state cfg now s).1 agents)
]

abbrev pub take_permit : AgentFlowState → AgentFlowState
take_permit s = record s { concurrent_count = s.concurrent_count + 1 }

unfoldable pub on_task_dispatched : String → Agents → Agents
on_task_dispatched a = change_default a take_permit

abbrev pub forget_failures : AgentFlowState → AgentFlowState
forget_failures s = record s { consecutive_failures = 0 }

unfoldable pub on_task_arrived : String → Agents → Agents
on_task_arrived a = change a forget_failures

-- One failure more, and a tripped circuit from the threshold on.
unfoldable pub fail_state : FlowControlConfig → ℕ → AgentFlowState → AgentFlowState
fail_state cfg now s =
    let failures = s.consecutive_failures + 1 in
    if leb cfg.circuit_breaker_threshold failures
    then record s {
      consecutive_failures = failures;
      circuit_tripped_until = now + cfg.circuit_breaker_cooldown;
    }
    else record s { consecutive_failures = failures }

unfoldable pub on_task_failed : FlowControlConfig → ℕ → String → Agents → Agents
on_task_failed cfg now a = change_default a (fail_state cfg now)

unfoldable pub on_task_completed : String → Agents → Agents
on_task_completed a = change a forget_failures

-- `max(0, count - 1)`; subtraction stops at 0.
abbrev pub give_permit : AgentFlowState → AgentFlowState
give_permit s = record s { concurrent_count = s.concurrent_count - 1 }

unfoldable pub on_task_departed : String → Agents → Agents
on_task_departed a = change a give_permit

unfoldable pub is_circuit_tripped : ℕ → String → Agents → Bool × Agents
is_circuit_tripped now a agents = elim (get a agents) [
  | none ↦ (false, agents)
  | some s ↦ ((is_tripped now s).0, put a (is_tripped now s).1 agents)
]

unfoldable pub reset_circuit : String → Agents → Agents
reset_circuit a = change a close_circuit

abbrev pub reset : Agents → Agents
reset agents = []

-- `for _ in range(failure_count - 1): delay *= 2.0`
unfoldable pub double_delay : ℕ → ℕ → ℕ
double_delay zero delay = delay
double_delay (suc n) delay = double_delay n (delay * 2)

unfoldable pub get_retry_backoff : FlowControlConfig → ℕ → ℕ
get_retry_backoff cfg failure_count =
    min (double_delay (failure_count - 1) cfg.retry_backoff_base) cfg.retry_backoff_max

unfoldable pub get_concurrent_count : String → Agents → ℕ
get_concurrent_count a agents = elim (get a agents) [ none ↦ 0 | some s ↦ s.concurrent_count ]

unfoldable pub get_consecutive_failures : String → Agents → ℕ
get_consecutive_failures a agents = elim (get a agents) [
  | none ↦ 0
  | some s ↦ s.consecutive_failures
]

unfoldable pub get_remaining_cooldown : ℕ → String → Agents → ℕ
get_remaining_cooldown now a agents = elim (get a agents) [
  | none ↦ 0
  | some s ↦ if nat_eq s.circuit_tripped_until 0 then 0 else s.circuit_tripped_until - now
]
