-- ===== src/Flow/Permits.antt =====
-- The bound on permits over any sequence of rounds and callbacks, and the permit that a failed
-- attempt takes.
use simple_a2a_registry.Prelude.{
  ℕ, ◌-◌, ◌≤◌, ◌<◌, String, true, List, [], ◌∷◌, ◌≡◌, refl, ap, ◌∙◌, arith, Bool-cases,
  Option-cases, inl, inr, text_eq_self,
}
use simple_a2a_registry.Flow.{
  AgentFlowState, FlowControlConfig, Agents, get, put, change_default, is_tripped,
  can_dispatch_state, can_dispatch, fail_state, take_permit, give_permit, forget_failures,
  on_task_dispatched, on_task_arrived, on_task_failed, on_task_departed, get_concurrent_count,
}
use simple_a2a_registry.Flow.Breaker.{state-on_task_failed}
use simple_a2a_registry.Flow.Agents.{get-put, state_of, get-change_found}
use simple_a2a_registry.Flow.Callbacks.{
  IsBounded, put-IsBounded, change-IsBounded, count-fail_state, callback_step-IsBounded,
  callbacks-IsBounded, count-callbacks,
}
use simple_a2a_registry.Flow.Rounds.{
  Outcome, sent, not_sent, skipped, after_gate, dispatch_round, FlowCall, round, other, callbacks,
  flow_step, flow_history,
}

count-is_tripped :
    (now : ℕ) (s : AgentFlowState) → (is_tripped now s).1.concurrent_count ≡ s.concurrent_count
unfolding is_tripped
count-is_tripped now s = ground arith

module _ (cfg : FlowControlConfig) (now : ℕ) where
  count-can_dispatch_state :
      (s : AgentFlowState) → (can_dispatch_state cfg now s).1.concurrent_count ≡ s.concurrent_count
  unfolding can_dispatch_state
  count-can_dispatch_state s = ground (arith, count-is_tripped now s)

  free-can_dispatch_state :
      (s : AgentFlowState)
      → 0 < cfg.max_concurrent_tasks
      → (can_dispatch_state cfg now s).0 ≡ true
      → s.concurrent_count < cfg.max_concurrent_tasks
  unfolding can_dispatch_state
  free-can_dispatch_state s limit h = ground (arith, count-is_tripped now s)

module _ (cfg : FlowControlConfig) (limit : 0 < cfg.max_concurrent_tasks) where
  abbrev Bounded : Agents → Type 0
  Bounded = IsBounded (λ j. cfg.max_concurrent_tasks)

  -- The gate: what is left of it, and that it leaves room where it opens.
  gate-Bounded :
      (now : ℕ) (a : String) (agents : Agents)
      → Bounded agents
      → Bounded (can_dispatch cfg now a agents).1
  unfolding can_dispatch
  gate-Bounded now a agents all = elim (Option-cases (get a agents)) [
    | inl e ↦ rw (e, can_dispatch) all
    | inr (s, e) ↦
        rw (e, can_dispatch)
          (put-IsBounded (λ j. cfg.max_concurrent_tasks) a (can_dispatch_state cfg now s).1 agents
            (rw (count-can_dispatch_state cfg now s) (rw e at (all a))) all)
  ]

  gate_room :
      (now : ℕ) (a : String) (agents : Agents)
      → (can_dispatch cfg now a agents).0 ≡ true
      → (state_of a (can_dispatch cfg now a agents).1).concurrent_count < cfg.max_concurrent_tasks
  unfolding can_dispatch
  gate_room now a agents h = elim (Option-cases (get a agents)) [
    | inl e ↦ rw (e, can_dispatch) (rw e limit)
    | inr (s, e) ↦
        let free : (can_dispatch_state cfg now s).0 ≡ true = rw (e, can_dispatch) at h in
        rw (e, can_dispatch, get-put a (can_dispatch_state cfg now s).1 agents a, text_eq_self a)
          (rw (count-can_dispatch_state cfg now s) (free-can_dispatch_state cfg now s limit free))
  ]

  after_gate-Bounded :
      (now : ℕ) (a : String) (outcome : Outcome) (agents : Agents)
      → (state_of a agents).concurrent_count < cfg.max_concurrent_tasks
      → Bounded agents
      → Bounded (after_gate cfg now a outcome agents)
  unfolding after_gate on_task_arrived on_task_dispatched on_task_departed on_task_failed
      change_default
  after_gate-Bounded now a sent agents room all =
      change-IsBounded (λ j. cfg.max_concurrent_tasks) a forget_failures
        (put a (take_permit (state_of a agents)) agents) (λ s. omega arith)
        (put-IsBounded (λ j. cfg.max_concurrent_tasks) a (take_permit (state_of a agents)) agents
          (omega (arith, room)) all)
  after_gate-Bounded now a not_sent agents room all =
      change-IsBounded (λ j. cfg.max_concurrent_tasks) a give_permit
        (put a (fail_state cfg now (state_of a agents)) agents) (λ s. omega arith)
        (put-IsBounded (λ j. cfg.max_concurrent_tasks) a (fail_state cfg now (state_of a agents))
          agents (rw (count-fail_state cfg now (state_of a agents)) (all a)) all)
  after_gate-Bounded now a skipped agents room all = all

  lt_chain : {x y z : ℕ} → x ≤ y → y < z → x < z
  lt_chain p q = omega arith

  flow_step-Bounded :
      (call : FlowCall) (agents : Agents) → Bounded agents → Bounded (flow_step cfg call agents)
  unfolding flow_step dispatch_round
  flow_step-Bounded (round now later a during outcome) agents all =
      elim (Bool-cases (can_dispatch cfg now a agents).0) [
        | inl e ↦
            let gated = (can_dispatch cfg now a agents).1 in
            rw e (
              after_gate-Bounded later a outcome (callbacks cfg during gated)
                (lt_chain (count-callbacks cfg during gated a) (gate_room now a agents e))
                (callbacks-IsBounded cfg (λ j. cfg.max_concurrent_tasks) during gated
                  (gate-Bounded now a agents all)))
        | inr n ↦ rw n (gate-Bounded now a agents all)
      ]
  flow_step-Bounded (other call) agents all =
      callback_step-IsBounded cfg (λ j. cfg.max_concurrent_tasks) call agents all

  flow_history-Bounded :
      (calls : List FlowCall) (agents : Agents)
      → Bounded agents
      → Bounded (flow_history cfg calls agents)
  unfolding flow_history
  flow_history-Bounded [] agents all = all
  flow_history-Bounded (call ∷ calls) agents all =
      flow_history-Bounded calls (flow_step cfg call agents) (flow_step-Bounded call agents all)

  -- From a controller without agents, after any rounds and callbacks at any times, callbacks that
  -- arrive in the middle of a round included, the count of every agent is within the limit, where
  -- the configuration sets one. The rounds come one after the other.
  pub flow_history_within_limit :
      (calls : List FlowCall) (a : String)
      → get_concurrent_count a (flow_history cfg calls []) ≤ cfg.max_concurrent_tasks
  unfolding get_concurrent_count get
  flow_history_within_limit calls a =
      let bound = flow_history-Bounded calls [] (λ j. omega arith) a in
      elim (Option-cases (get a (flow_history cfg calls []))) [
        | inl e ↦ rw (e, get_concurrent_count) (omega arith)
        | inr (s, e) ↦ rw (e, get_concurrent_count) (rw e at bound)
      ]

get_concurrent_count_lem :
    (a : String) (agents : Agents)
    → get_concurrent_count a agents ≡ (state_of a agents).concurrent_count
unfolding get_concurrent_count
get_concurrent_count_lem a agents = elim (Option-cases (get a agents)) [
  | inl e ↦ rw (e, get_concurrent_count) refl
  | inr (s, e) ↦ rw (e, get_concurrent_count) refl
]

module _ (cfg : FlowControlConfig) (now later : ℕ) (a : String) where
  count-can_dispatch :
      (agents : Agents)
      → (state_of a (can_dispatch cfg now a agents).1).concurrent_count
        ≡ (state_of a agents).concurrent_count
  unfolding can_dispatch
  count-can_dispatch agents = elim (Option-cases (get a agents)) [
    | inl e ↦ rw (e, can_dispatch) (rw e refl)
    | inr (s, e) ↦
        rw (e, can_dispatch, get-put a (can_dispatch_state cfg now s).1 agents a, text_eq_self a)
          (count-can_dispatch_state cfg now s)
  ]

  count-failed_departed :
      (agents : Agents)
      → (state_of a (on_task_departed a (on_task_failed cfg later a agents))).concurrent_count
        ≡ (state_of a agents).concurrent_count - 1
  unfolding on_task_departed
  count-failed_departed agents =
      let failed = on_task_failed cfg later a agents in
      let row = state-on_task_failed cfg a later agents in
      rw
        (
          get-change_found a give_permit failed (fail_state cfg later (state_of a agents)) a row,
          text_eq_self a,
        )
        (ap (λ n. n - 1) (count-fail_state cfg later (state_of a agents)))

  -- A round that passes the gate and does not send its task takes one from the agent's count, where no
  -- other call arrives during the attempt, though the round has taken no permit for the task.
  pub not_sent_takes_permit :
      (agents : Agents)
      → (can_dispatch cfg now a agents).0 ≡ true
      → get_concurrent_count a (dispatch_round cfg now later a [] not_sent agents)
        ≡ get_concurrent_count a agents - 1
  unfolding dispatch_round after_gate callbacks
  not_sent_takes_permit agents h =
      let gated = (can_dispatch cfg now a agents).1 in
      rw
        (
          get_concurrent_count_lem a (dispatch_round cfg now later a [] not_sent agents),
          get_concurrent_count_lem a agents,
          h,
        )
        (count-failed_departed gated ∙ ap (λ n. n - 1) (count-can_dispatch agents))
