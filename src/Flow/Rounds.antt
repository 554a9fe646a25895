-- ===== src/Flow/Rounds.antt =====
-- The round of Dispatcher._dispatch_single_task (orchestration/dispatcher.py) around one task, and
-- the sequences of rounds and callbacks that a flow controller sees.
use simple_a2a_registry.Prelude.{ℕ, String, List, [], ◌∷◌, if◌then◌else◌}
use simple_a2a_registry.Flow.{
  FlowControlConfig, Agents, can_dispatch, on_task_dispatched, on_task_arrived, on_task_failed,
  on_task_completed, on_task_departed, reset_circuit, reset,
}

-- What a round comes to behind the gate: the task was sent, it was not, or the round returned
-- before the flow controller is told.
pub data Outcome : Type 0 where
  sent not_sent skipped : Outcome

-- The two notifications after the attempt.
unfoldable pub after_gate : FlowControlConfig → ℕ → String → Outcome → Agents → Agents
after_gate cfg now a sent agents = on_task_arrived a (on_task_dispatched a agents)
after_gate cfg now a not_sent agents = on_task_departed a (on_task_failed cfg now a agents)
after_gate cfg now a skipped agents = agents

-- The calls that reach the flow controller beside the rounds: those of the result handlers, and the
-- resets.
pub data Callback : Type 0 where
  completes departs clears : String → Callback
  fails : ℕ → String → Callback
  clears_all : Callback

unfoldable pub callback_step : FlowControlConfig → Callback → Agents → Agents
callback_step cfg (completes a) agents = on_task_completed a agents
callback_step cfg (departs a) agents = on_task_departed a agents
callback_step cfg (fails now a) agents = on_task_failed cfg now a agents
callback_step cfg (clears a) agents = reset_circuit a agents
callback_step cfg clears_all agents = reset agents

unfoldable pub callbacks : FlowControlConfig → List Callback → Agents → Agents
callbacks cfg [] agents = agents
callbacks cfg (call ∷ calls) agents = callbacks cfg calls (callback_step cfg call agents)

-- The round of one task: the gate at `now`, the calls that arrive while the attempt is awaited, and
-- the notifications at `later`. The poll loop awaits each round before it begins the next.
unfoldable pub dispatch_round :
    FlowControlConfig
    → (now later : ℕ) → String
    → (during : List Callback) → Outcome
    → Agents
    → Agents
unfolding after_gate
dispatch_round cfg now later a during outcome agents =
    let (free, gated) = can_dispatch cfg now a agents in
    if free then after_gate cfg later a outcome (callbacks cfg during gated) else gated

-- What may happen to a flow controller: a round of the dispatcher, or another call.
pub data FlowCall : Type 0 where
  round : (now later : ℕ) → String → List Callback → Outcome → FlowCall
  other : Callback → FlowCall

unfoldable pub flow_step : FlowControlConfig → FlowCall → Agents → Agents
flow_step cfg (round now later a during outcome) agents =
    dispatch_round cfg now later a during outcome agents
flow_step cfg (other call) agents = callback_step cfg call agents

unfoldable pub flow_history : FlowControlConfig → List FlowCall → Agents → Agents
flow_history cfg [] agents = agents
flow_history cfg (call ∷ calls) agents = flow_history cfg calls (flow_step cfg call agents)
