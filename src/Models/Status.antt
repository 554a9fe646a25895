-- ===== src/Models/Status.antt =====
-- The enums of orchestration/models.py, each with the text of its members.
use simple_a2a_registry.Prelude.{
  ◌≡◌, refl, sym, ap, ◌∙◌, Bool, true, false, String, Option, none, some, arith, ◌==◌,
  if◌then◌else◌,
}

pub data TaskStatus : Type 0 where
  todo ready running dangling blocked completed failed cancelled archived : TaskStatus

unfoldable pub value : TaskStatus → String
value todo = "todo"
value ready = "ready"
value running = "running"
value dangling = "dangling"
value blocked = "blocked"
value completed = "completed"
value failed = "failed"
value cancelled = "cancelled"
value archived = "archived"

-- `TaskStatus(s)`: the member with a text, where there is one.
unfoldable pub of_value : String → Option TaskStatus
of_value s =
    if s == "todo"
    then some todo
    else if s == "ready"
    then some ready
    else if s == "running"
    then some running
    else if s == "dangling"
    then some dangling
    else if s == "blocked"
    then some blocked
    else if s == "completed"
    then some completed
    else if s == "failed"
    then some failed
    else if s == "cancelled"
    then some cancelled
    else if s == "archived"
    then some archived
    else none

pub of_value-value : (a : TaskStatus) → of_value (value a) ≡ some a
unfolding of_value value
of_value-value todo = refl
of_value-value ready = refl
of_value-value running = refl
of_value-value dangling = refl
of_value-value blocked = refl
of_value-value completed = refl
of_value-value failed = refl
of_value-value cancelled = refl
of_value-value archived = refl

pub value-injective : (a b : TaskStatus) → value a ≡ value b → a ≡ b
value-injective a b e = some_inj (sym (of_value-value a) ∙ ap of_value e ∙ of_value-value b)
  where
    some_inj : some a ≡ some b → a ≡ b
    some_inj h = cc

-- `a == b` on statuses.
abbrev pub status_eq : TaskStatus → TaskStatus → Bool
status_eq todo todo = true
status_eq ready ready = true
status_eq running running = true
status_eq dangling dangling = true
status_eq blocked blocked = true
status_eq completed completed = true
status_eq failed failed = true
status_eq cancelled cancelled = true
status_eq archived archived = true
status_eq _ _ = false

pub data TaskRunStatus : Type 0 where
  running done blocked crashed timed_out failed released : TaskRunStatus

pub data TaskEventKind : Type 0 where
  created claimed started heartbeat completed failed blocked unblocked : TaskEventKind
  commented updated archived dependency_promoted cancelled : TaskEventKind

unfoldable pub kind_value : TaskEventKind → String
kind_value TaskEventKind.created = "created"
kind_value TaskEventKind.claimed = "claimed"
kind_value TaskEventKind.started = "started"
kind_value TaskEventKind.heartbeat = "heartbeat"
kind_value TaskEventKind.completed = "completed"
kind_value TaskEventKind.failed = "failed"
kind_value TaskEventKind.blocked = "blocked"
kind_value TaskEventKind.unblocked = "unblocked"
kind_value TaskEventKind.commented = "commented"
kind_value TaskEventKind.updated = "updated"
kind_value TaskEventKind.archived = "archived"
kind_value TaskEventKind.dependency_promoted = "dependency_promoted"
kind_value TaskEventKind.cancelled = "cancelled"

pub status_eq→≡ : (a b : TaskStatus) → status_eq a b ≡ true → a ≡ b
status_eq→≡ a b h = ground arith

pub status_eq_self : (a : TaskStatus) → status_eq a a ≡ true
status_eq_self a = ground arith
