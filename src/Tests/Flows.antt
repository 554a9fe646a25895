-- ===== src/Tests/Flows.antt =====
-- The flow controller.
use simple_a2a_registry.Prelude.{
  ◌-◌, ◌≤◌, ◌<◌, ◌⊎◌, none, some, true, false, [], ◌∷◌, ◌≡◌, ◌↔◌, refl, arith,
}
use simple_a2a_registry.Flow.{
  AgentFlowState, Agents, default_config, get, put, can_dispatch, can_dispatch_state, is_tripped,
  on_task_failed, get_retry_backoff, get_concurrent_count,
}
use simple_a2a_registry.Flow.Agents.{state_of}
use simple_a2a_registry.Flow.Breaker.{
  IsClosed, HasPermit, can_dispatch_iff, fail_times, breaker_refuses,
}
use simple_a2a_registry.Flow.Rounds.{
  round, other, departs, sent, not_sent, flow_history, dispatch_round,
}
use simple_a2a_registry.Flow.Permits.{flow_history_within_limit, not_sent_takes_permit}
use simple_a2a_registry.Flow.Backoff.{get_retry_backoff-backoff_delay}
use simple_a2a_registry.Store.Status.Writes.{backoff_delay}

abbrev tripped : AgentFlowState
tripped = record { concurrent_count = 2; consecutive_failures = 3; circuit_tripped_until = 400 }

abbrev agents : Agents
agents = ("w", tripped) ∷ []

can_dispatch_iff_example :
    ((can_dispatch default_config 500 "w" agents).0 ≡ true)
    ↔ (IsClosed 500 (state_of "w" agents) × HasPermit default_config (state_of "w" agents))
can_dispatch_iff_example = can_dispatch_iff default_config 500 "w" agents

breaker_refuses_example :
    (can_dispatch default_config 350 "w"
      (on_task_failed default_config 100 "w" (fail_times default_config "w" (90 ∷ 95 ∷ []) []))).0
    ≡ false
breaker_refuses_example =
    breaker_refuses default_config "w" (90 ∷ 95 ∷ []) 100 350 [] (omega arith) (omega arith)

flow_history_within_limit_example :
    get_concurrent_count "w" (
      flow_history default_config
        (round 1 3 "w" (departs "w" ∷ []) sent ∷ round 4 4 "w" [] sent ∷ other (departs "w") ∷ [])
        [])
    ≤ 5
flow_history_within_limit_example =
    flow_history_within_limit default_config (omega arith)
      (round 1 3 "w" (departs "w" ∷ []) sent ∷ round 4 4 "w" [] sent ∷ other (departs "w") ∷ []) "w"

not_sent_takes_permit_example :
    get_concurrent_count "w" (dispatch_round default_config 500 510 "w" [] not_sent agents)
    ≡ get_concurrent_count "w" agents - 1
unfolding can_dispatch can_dispatch_state is_tripped get put
not_sent_takes_permit_example = not_sent_takes_permit default_config 500 510 "w" agents refl

get_retry_backoff-backoff_delay_example :
    ((8 < 1024) × (backoff_delay 8 ≡ some (get_retry_backoff default_config 9)))
    ⊎ ((1024 ≤ 8) × (backoff_delay 8 ≡ none))
get_retry_backoff-backoff_delay_example = get_retry_backoff-backoff_delay 8

-- The delays at the ends: half a minute, the maximum, and the raise.
backoff_delay_runs :
    (backoff_delay 0 ≡ some 30) × (backoff_delay 1023 ≡ some 3600) × (backoff_delay 1024 ≡ none)
unfolding backoff_delay
backoff_delay_runs = (refl, refl, refl)
