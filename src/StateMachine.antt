-- ===== src/StateMachine.antt =====
-- simple_a2a_registry/orchestration/state_machine.py: the transition table and its validator.
pub mod Laws
use simple_a2a_registry.Prelude.{
  String, Bool, true, false, ◌&&◌, ◌||◌, List, [], ◌∷◌, ◌++◌, map, ◌==◌, if◌then◌else◌,
}
use simple_a2a_registry.Models.{
  TaskStatus, todo, ready, running, dangling, blocked, completed, failed, cancelled, archived,
  value,
}

-- `_TRANSITIONS` as a function. `dangling` has no key in the table: it has no edge out.
unfoldable pub transitions : TaskStatus → List TaskStatus
transitions todo = ready ∷ cancelled ∷ []
transitions ready = running ∷ todo ∷ blocked ∷ cancelled ∷ []
transitions running = completed ∷ failed ∷ blocked ∷ cancelled ∷ []
transitions blocked = running ∷ ready ∷ failed ∷ cancelled ∷ []
transitions completed = archived ∷ []
transitions failed = ready ∷ archived ∷ cancelled ∷ []
transitions cancelled = archived ∷ []
transitions archived = []
transitions dangling = []

-- The keys of `_TRANSITIONS`, in its order.
abbrev table_keys : List TaskStatus
table_keys = todo ∷ ready ∷ running ∷ blocked ∷ completed ∷ failed ∷ cancelled ∷ archived ∷ []

pairs_from : TaskStatus → List TaskStatus → List (String × String)
pairs_from from_st [] = []
pairs_from from_st (to_st ∷ to_set) = (value from_st, value to_st) ∷ pairs_from from_st to_set

pairs_of : List TaskStatus → List (String × String)
unfolding pairs_from transitions
pairs_of [] = []
pairs_of (from_st ∷ keys) = pairs_from from_st (transitions from_st) ++ pairs_of keys

unfoldable pub valid_transitions : List (String × String)
unfolding pairs_of value
valid_transitions = pairs_of table_keys

-- `(a, b) in VALID_TRANSITIONS`.
unfoldable pub is_listed : String → String → List (String × String) → Bool
is_listed a b [] = false
is_listed a b ((c, d) ∷ rest) = (c == a && d == b) || is_listed a b rest

-- True where `validate_transition` returns, false where it raises InvalidTransitionError.
unfoldable pub validate_transition : String → String → Bool
unfolding is_listed valid_transitions
validate_transition from_status to_status = is_listed from_status to_status valid_transitions
