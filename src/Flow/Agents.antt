-- ===== src/Flow/Agents.antt =====
-- The dict of agents: what is read after a write.
use simple_a2a_registry.Prelude.{
  String, true, false, none, some, [], ◌∷◌, ◌≡◌, refl, arith, ◌==◌, eq_iff, or_else, Bool-cases,
  inl, inr, if◌then◌else◌,
}
use simple_a2a_registry.Flow.{AgentFlowState, Agents, fresh_state, get, put, change, change_default}

pub get-put :
    (a : String) (s : AgentFlowState) (agents : Agents) (j : String)
    → get j (put a s agents) ≡ (if a == j then some s else get j agents)
unfolding get put
get-put a s [] j = refl
get-put a s ((b, t) ∷ agents) j = elim (Bool-cases (b == a)) [
  | inl e ↦
      rw (e, (eq_iff b a).0 e)
        (elim (Bool-cases (a == j)) [ inl p ↦ rw p refl | inr p ↦ rw p refl ])
  | inr n ↦
      rw (n, get-put a s agents j)
        (elim (Bool-cases (b == j)) [ inl p ↦ rw (p, different j n p) refl | inr p ↦ rw p refl ])
]
  where
    different : (j : String) → (b == a) ≡ false → (b == j) ≡ true → (a == j) ≡ false
    different j n p = ground (arith, eq_iff b a, eq_iff b j, eq_iff a j)

-- The state that a method reads: the one that is there, or a fresh one.
abbrev pub state_of : String → Agents → AgentFlowState
state_of a agents = or_else (get a agents) fresh_state

pub get-change_default :
    (a : String) (f : AgentFlowState → AgentFlowState) (agents : Agents) (j : String)
    → get j (change_default a f agents)
      ≡ (if a == j then some (f (state_of a agents)) else get j agents)
unfolding change_default
get-change_default a f agents j = get-put a (f (state_of a agents)) agents j

pub get-change_found :
    (a : String) (f : AgentFlowState → AgentFlowState) (agents : Agents) (s : AgentFlowState)
    (j : String)
    → get a agents ≡ some s
    → get j (change a f agents) ≡ (if a == j then some (f s) else get j agents)
unfolding change
get-change_found a f agents s j h = rw (h, change) (get-put a (f s) agents j)

pub change_missing :
    (a : String) (f : AgentFlowState → AgentFlowState) (agents : Agents)
    → get a agents ≡ none
    → change a f agents ≡ agents
unfolding change
change_missing a f agents h = rw (h, change) refl
