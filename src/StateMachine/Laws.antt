-- ===== src/StateMachine/Laws.antt =====
-- The state machine as a step relation, and what the validator accepts.
use simple_a2a_registry.Prelude.{
  ◌≡◌, refl, sym, ◌↔◌, ◌⊎◌, inl, inr, String, true, false, List, [], ◌∷◌, ◌++◌, arith, In, subst,
  ◌&&◌, ◌==◌, eq_iff, Bool-cases, ◌≢◌,
}
use simple_a2a_registry.Models.{
  TaskStatus, todo, ready, running, dangling, blocked, completed, failed, cancelled, archived,
  value, value-injective,
}
use simple_a2a_registry.StateMachine.{
  transitions, table_keys, pairs_from, pairs_of, validate_transition, is_listed,
}

-- One edge of the life cycle.
pub data Step : TaskStatus → TaskStatus → Type 0 where
  promote : Step todo ready
  demote : Step ready todo
  claim : Step ready running
  hold : Step ready blocked
  complete : Step running completed
  fail : Step running failed
  block : Step running blocked
  resume : Step blocked running
  review : Step blocked ready
  expire : Step blocked failed
  retry : Step failed ready
  cancel_todo : Step todo cancelled
  cancel_ready : Step ready cancelled
  cancel_running : Step running cancelled
  cancel_blocked : Step blocked cancelled
  cancel_failed : Step failed cancelled
  archive_completed : Step completed archived
  archive_failed : Step failed archived
  archive_cancelled : Step cancelled archived

-- Any number of edges.
pub data Moves (a : TaskStatus) : TaskStatus → Type 0 where
  stay : Moves a a
  then_step : {b c : TaskStatus} → Moves a b → Step b c → Moves a c

pub Moves-trans : {a b c : TaskStatus} → Moves a b → Moves b c → Moves a c
Moves-trans m stay = m
Moves-trans m (then_step n s) = then_step (Moves-trans m n) s

pub one-Step : {a b : TaskStatus} → Step a b → Moves a b
one-Step s = then_step stay s

pub Step-valid : {a b : TaskStatus} → Step a b → validate_transition (value a) (value b) ≡ true
unfolding validate_transition value
Step-valid promote = refl
Step-valid demote = refl
Step-valid claim = refl
Step-valid hold = refl
Step-valid complete = refl
Step-valid fail = refl
Step-valid block = refl
Step-valid resume = refl
Step-valid review = refl
Step-valid expire = refl
Step-valid retry = refl
Step-valid cancel_todo = refl
Step-valid cancel_ready = refl
Step-valid cancel_running = refl
Step-valid cancel_blocked = refl
Step-valid cancel_failed = refl
Step-valid archive_completed = refl
Step-valid archive_failed = refl
Step-valid archive_cancelled = refl

edge-Step : (a b : TaskStatus) → In b (transitions a) → Step a b
unfolding transitions
edge-Step todo b (inl e) = subst (Step todo) e promote
edge-Step todo b (inr (inl e)) = subst (Step todo) e cancel_todo
edge-Step todo b (inr (inr h)) = absurd h
edge-Step ready b (inl e) = subst (Step ready) e claim
edge-Step ready b (inr (inl e)) = subst (Step ready) e demote
edge-Step ready b (inr (inr (inl e))) = subst (Step ready) e hold
edge-Step ready b (inr (inr (inr (inl e)))) = subst (Step ready) e cancel_ready
edge-Step ready b (inr (inr (inr (inr h)))) = absurd h
edge-Step running b (inl e) = subst (Step running) e complete
edge-Step running b (inr (inl e)) = subst (Step running) e fail
edge-Step running b (inr (inr (inl e))) = subst (Step running) e block
edge-Step running b (inr (inr (inr (inl e)))) = subst (Step running) e cancel_running
edge-Step running b (inr (inr (inr (inr h)))) = absurd h
edge-Step blocked b (inl e) = subst (Step blocked) e resume
edge-Step blocked b (inr (inl e)) = subst (Step blocked) e review
edge-Step blocked b (inr (inr (inl e))) = subst (Step blocked) e expire
edge-Step blocked b (inr (inr (inr (inl e)))) = subst (Step blocked) e cancel_blocked
edge-Step blocked b (inr (inr (inr (inr h)))) = absurd h
edge-Step completed b (inl e) = subst (Step completed) e archive_completed
edge-Step completed b (inr h) = absurd h
edge-Step failed b (inl e) = subst (Step failed) e retry
edge-Step failed b (inr (inl e)) = subst (Step failed) e archive_failed
edge-Step failed b (inr (inr (inl e))) = subst (Step failed) e cancel_failed
edge-Step failed b (inr (inr (inr h))) = absurd h
edge-Step cancelled b (inl e) = subst (Step cancelled) e archive_cancelled
edge-Step cancelled b (inr h) = absurd h
edge-Step archived b h = absurd h
edge-Step dangling b h = absurd h

-- Two texts that name the ends of an edge.
abbrev pub NamesStep : String → String → Type 0
NamesStep s t = (a : TaskStatus) × (b : TaskStatus) × (s ≡ value a) × (t ≡ value b) × Step a b

-- A listed pair comes from the first block of pairs, or from the rest.
listed-pairs_from :
    (s t : String) (a : TaskStatus) (to_set : List TaskStatus) (rest : List (String × String))
    → ((b : TaskStatus) → In b to_set → Step a b)
    → is_listed s t (pairs_from a to_set ++ rest) ≡ true
    → NamesStep s t ⊎ (is_listed s t rest ≡ true)
unfolding pairs_from
listed-pairs_from s t a [] rest steps h = inr h
listed-pairs_from s t a (b ∷ to_set) rest steps h =
    elim (Bool-cases (value a == s && value b == t)) [
      | inl both ↦ inl (
        a,
        b,
        ground (arith, eq_iff (value a) s),
        ground (arith, eq_iff (value a) s, eq_iff (value b) t),
        steps b (inl refl),
      )
      | inr other ↦
          listed-pairs_from s t a to_set rest (λ c m. steps c (inr m))
            (unfold is_listed in ground arith)
    ]

listed-pairs_of :
    (s t : String) (keys : List TaskStatus) → is_listed s t (pairs_of keys) ≡ true → NamesStep s t
unfolding pairs_of
listed-pairs_of s t [] h = unfold is_listed in cc
listed-pairs_of s t (a ∷ keys) h =
    elim (listed-pairs_from s t a (transitions a) (pairs_of keys) (edge-Step a) h) [
      | inl found ↦ found
      | inr later ↦ listed-pairs_of s t keys later
    ]

-- `validate_transition` accepts two texts exactly when they are the values of two statuses
-- that an edge of the life cycle joins; every other pair raises.
pub validate_transition_iff : (s t : String) → (validate_transition s t ≡ true) ↔ NamesStep s t
validate_transition_iff s t = (
  λ h. listed-pairs_of s t table_keys (unfold validate_transition in h),
  λ (a, b, p, q, step). rw (p, q) (Step-valid step),
)

pub valid-Step : (a b : TaskStatus) → validate_transition (value a) (value b) ≡ true → Step a b
valid-Step a b h =
    let (c, d, p, q, step) = (validate_transition_iff (value a) (value b)).0 h in
    subst (λ x. Step x b) (value-injective c a (sym p))
      (subst (Step c) (value-injective d b (sym q)) step)

not-Step-archived : {a b : TaskStatus} → Step a b → a ≢ archived
not-Step-archived promote = λ e. cc
not-Step-archived _ = λ e. cc

not-Step-dangling : {a b : TaskStatus} → Step a b → (a ≢ dangling) × (b ≢ dangling)
not-Step-dangling promote = (λ e. cc, λ e. cc)
not-Step-dangling _ = (λ e. cc, λ e. cc)

-- A task that reaches `archived` stays there.
pub Moves-archived : {a b : TaskStatus} → Moves a b → a ≡ archived → b ≡ archived
Moves-archived stay e = e
Moves-archived (then_step n s) e = absurd (not-Step-archived s (Moves-archived n e))

-- No edge of the table enters or leaves `dangling`.
pub validate_dangling :
    (s : String)
    → (validate_transition s (value dangling) ≡ false)
      × (validate_transition (value dangling) s ≡ false)
validate_dangling s = (
  elim (Bool-cases (validate_transition s (value dangling))) [
    | inl h ↦
        let (a, b, p, q, step) = (validate_transition_iff s (value dangling)).0 h in
        absurd ((not-Step-dangling step).1 (value-injective b dangling (sym q)))
    | inr h ↦ h
  ],
  elim (Bool-cases (validate_transition (value dangling) s)) [
    | inl h ↦
        let (a, b, p, q, step) = (validate_transition_iff (value dangling) s).0 h in
        absurd ((not-Step-dangling step).0 (value-injective a dangling (sym p)))
    | inr h ↦ h
  ],
)
