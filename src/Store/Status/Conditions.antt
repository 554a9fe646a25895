-- ===== src/Store/Status/Conditions.antt =====
-- The conditions of update_task_status in orchestration/store.py, apart from the state machine: what
-- they ask of the row and of the arguments.
use simple_a2a_registry.Prelude.{
  ℕ, ◌+◌, ◌≤◌, ◌<◌, String, true, false, Option, none, some, ◌≡◌, ◌≢◌, ◌↔◌, ◌⊎◌, refl, sym, ◌∙◌,
  some_inj, arith, leb, is_some, truthy-cases, text_opt_eq, text_opt_eq→≡, text_opt_eq_self,
  Bool-cases, Option-cases, inl, inr,
}
use simple_a2a_registry.Models.{
  Task, TaskStatus, running, ready, failed, status_eq, status_eq→≡, status_eq_self,
}
use simple_a2a_registry.Store.Status.{lock_mismatch}
use simple_a2a_registry.Store.Status.Writes.{event_kind, overflows, backoff_delay, is_within_limit}

-- The lock that is given fits: the task is not running, or none is given, or it is the task's own.
abbrev pub FitsLock : Task → Option String → Type 0
FitsLock t lock =
    (t.status ≢ running) ⊎ ((lock ≡ none) ⊎ ((lock ≡ some "") ⊎ (t.claim_lock ≡ lock)))

-- The task has a limit of retries, and it has not reached it.
abbrev IsWithinLimit : Task → Type 0
IsWithinLimit t = (m : ℕ) × (t.max_retries ≡ some m) × (t.consecutive_failures + 1 ≤ m)

-- The delay before a retry is a float, or is not needed: the task does not fail, or it has no limit
-- of retries or has reached it, or it has failed fewer than 1024 times before.
abbrev pub HasDelay : Task → TaskStatus → Type 0
HasDelay t s = (s ≢ failed) ⊎ ((¬ IsWithinLimit t) ⊎ (t.consecutive_failures < 1024))

status-cases :
    (a b : TaskStatus) → ((a ≡ b) × (status_eq a b ≡ true)) ⊎ ((a ≢ b) × (status_eq a b ≡ false))
status-cases a b = elim (Bool-cases (status_eq a b)) [
  | inl e ↦ inl (status_eq→≡ a b e, e)
  | inr n ↦ inr (λ e. cc (rw e at n, status_eq_self b), n)
]

lock-cases :
    (a b : Option String)
    → ((a ≡ b) × (text_opt_eq a b ≡ true)) ⊎ ((a ≢ b) × (text_opt_eq a b ≡ false))
lock-cases a b = elim (Bool-cases (text_opt_eq a b)) [
  | inl e ↦ inl (text_opt_eq→≡ a b e, e)
  | inr n ↦ inr (λ e. cc (rw e at n, text_opt_eq_self b), n)
]

pub lock_mismatch_iff :
    (t : Task) (lock : Option String) → (lock_mismatch t lock ≡ false) ↔ FitsLock t lock
lock_mismatch_iff t lock = elim (status-cases t.status running) [
  | inr (n, e) ↦ (λ h. inl n, λ h. rw e refl)
  | inl (same, e) ↦ elim (truthy-cases lock) [
    | inr (x, o) ↦
        (λ h. elim o [ inl p ↦ inr (inl p) | inr p ↦ inr (inr (inl p)) ], λ h. rw (e, x) refl)
    | inl (x, not_none, not_empty) ↦ elim (lock-cases t.claim_lock lock) [
      | inl (p, y) ↦ (λ h. inr (inr (inr p)), λ h. rw (e, x, y) refl)
      | inr (p, y) ↦ (
        λ h. cc (rw (e, x, y) at h),
        λ h. elim h [
          | inl q ↦ absurd (q same)
          | inr (inl q) ↦ absurd (not_none q)
          | inr (inr (inl q)) ↦ absurd (not_empty q)
          | inr (inr (inr q)) ↦ absurd (p q)
        ],
      )
    ]
  ]
]

is_within_limit_iff : (t : Task) → (is_within_limit t ≡ true) ↔ IsWithinLimit t
is_within_limit_iff t = elim (Option-cases t.max_retries) [
  | inl e ↦ (λ h. cc (rw e at h), λ (m, f, _). cc)
  | inr (m, e) ↦ (
    λ h. (m, e, ground (arith, rw e at h)),
    λ (k, f, le). let same : m ≡ k = some_inj (sym e ∙ f) in rw e (ground arith),
  )
]

backoff_delay_iff : (n : ℕ) → (is_some (backoff_delay n) ≡ true) ↔ (n < 1024)
unfolding backoff_delay
backoff_delay_iff n = elim (Bool-cases (leb 1024 n)) [
  | inl e ↦ (λ h. cc (rw e at h), λ h. ground arith)
  | inr e ↦ (λ h. ground arith, λ h. rw e refl)
]

pub overflows_iff : (t : Task) (s : TaskStatus) → (overflows t s ≡ false) ↔ HasDelay t s
unfolding overflows
overflows_iff t s = elim (status-cases s failed) [
  | inr (n, e) ↦ (λ h. inl n, λ h. rw e refl)
  | inl (same, e) ↦ elim (Bool-cases (is_within_limit t)) [
    | inr w ↦ (λ h. inr (inl λ x. cc (w, (is_within_limit_iff t).1 x)), λ h. rw (e, w) refl)
    | inl w ↦ elim (Bool-cases (is_some (backoff_delay t.consecutive_failures))) [
      | inl d ↦
          (λ h. inr (inr ((backoff_delay_iff t.consecutive_failures).0 d)), λ h. rw (e, w, d) refl)
      | inr d ↦ (
        λ h. cc (rw (e, w, d) at h),
        λ h. elim h [
          | inl q ↦ absurd (q same)
          | inr (inl q) ↦ absurd (q ((is_within_limit_iff t).0 w))
          | inr (inr q) ↦ cc (d, (backoff_delay_iff t.consecutive_failures).1 q)
        ],
      )
    ]
  ]
]

pub event_kind_iff : (a b : TaskStatus) → (event_kind a b ≢ none) ↔ ((a ≢ failed) ⊎ (b ≢ ready))
unfolding event_kind
event_kind_iff a b = elim (status-cases a failed) [
  | inr (n, e) ↦ (λ h. inl n, λ h. ground (arith, e))
  | inl (same, e) ↦ elim (status-cases b ready) [
    | inr (n, f) ↦ (λ h. inr n, λ h. ground (arith, e, f))
    | inl (to_ready, f) ↦ (
      λ h. absurd (h (rw (same, to_ready) refl)),
      λ h. elim h [ inl q ↦ absurd (q same) | inr q ↦ absurd (q to_ready) ],
    )
  ]
]
