-- ===== src/Store/Release/Outcome.antt =====
-- What the two sweeps of orchestration/store.py, release_expired_claims and
-- promote_retryable_tasks, leave of a task, by conditions on the row that was there.
use simple_a2a_registry.Prelude.{
  ℕ, ◌+◌, ◌≤◌, ◌<◌, String, true, Option, none, some, select, length, ◌≡◌, ◌↔◌, ◌⊎◌, refl, sym,
  arith, or_else, eq_iff, ◌∙◌, some_inj, Bool, ◌&&◌, ◌||◌, not, leb, ltb, Bool-cases, Option-cases,
  inl, inr,
}
use simple_a2a_registry.Models.{
  Task, TaskStatus, dangling, ready, running, blocked, failed, status_eq, status_eq→≡,
}
use simple_a2a_registry.Db.{Db, find}
use simple_a2a_registry.Db.Frame.{ids}
use simple_a2a_registry.Store.Release.{
  in_tenant, has_expired, is_releasable, release_columns, release_expired_claims, is_retryable,
  promote_columns, promote_retryable_tasks,
}
use simple_a2a_registry.Store.Release.Sweep.{Distinct}
use simple_a2a_registry.Store.Release.Laws.{release_expired_claims_row, promote_retryable_tasks_row}

-- A sweep for no tenant is about every task.
abbrev pub InTenant : Option String → Task → Type 0
InTenant tenant t = (tenant ≡ none) ⊎ (t.tenant ≡ tenant)

-- The task is running or blocked, and its claim has expired by now.
abbrev pub HasTimedOut : ℕ → Option String → Task → Type 0
HasTimedOut now tenant t =
    ((t.status ≡ running) ⊎ (t.status ≡ blocked))
    × ((e : ℕ) × (t.claim_expires ≡ some e) × (e ≤ now))
    × InTenant tenant t

-- The task has failed, at least once and no more often than its limit, which is 3 if it has none.
abbrev pub CanRetry : Option String → Task → Type 0
CanRetry tenant t =
    (t.status ≡ failed)
    × (0 < t.consecutive_failures)
    × (t.consecutive_failures ≤ or_else t.max_retries 3)
    × InTenant tenant t

in_tenant_iff :
    (tenant : Option String) (t : Task) → (in_tenant tenant t ≡ true) ↔ InTenant tenant t
in_tenant_iff none t = (λ h. inl refl, λ h. refl)
in_tenant_iff (some tenant) t = elim (Option-cases t.tenant) [
  | inl e ↦ (λ h. cc (rw e at h), λ h. elim h [ inl x ↦ cc | inr x ↦ cc ])
  | inr (own, e) ↦ (
    λ h. inr (rw (e, (eq_iff own tenant).0 (rw e at h)) refl),
    λ h. elim h [
      | inl x ↦ cc
      | inr x ↦ let same : own ≡ tenant = some_inj (sym e ∙ x) in rw e ((eq_iff own tenant).1 same)
    ],
  )
]

has_expired_iff :
    (now : ℕ) (t : Task)
    → (has_expired now t ≡ true) ↔ ((e : ℕ) × (t.claim_expires ≡ some e) × (e ≤ now))
has_expired_iff now t = elim (Option-cases t.claim_expires) [
  | inl x ↦ (λ h. cc (rw x at h), λ (e, y, _). cc)
  | inr (e, x) ↦ (
    λ h. (e, x, ground (arith, rw x at h)),
    λ (d, y, le). let same : e ≡ d = some_inj (sym x ∙ y) in rw x (ground arith),
  )
]

and_parts : (a b : Bool) → ((a && b) ≡ true) ↔ ((a ≡ true) × (b ≡ true))
and_parts a b = ground arith

ends_iff :
    (s : TaskStatus)
    → ((status_eq s running || status_eq s blocked) ≡ true) ↔ ((s ≡ running) ⊎ (s ≡ blocked))
ends_iff s = (λ h. ground arith, λ h. ground arith)

is_releasable_iff :
    (now : ℕ) (tenant : Option String) (t : Task)
    → (is_releasable now tenant t ≡ true) ↔ HasTimedOut now tenant t
unfolding is_releasable
is_releasable_iff now tenant t = (
  λ h. (
    (ends_iff t.status).0 (ground arith),
    (has_expired_iff now t).0 (ground arith),
    (in_tenant_iff tenant t).0 (ground arith),
  ),
  λ (s, x, own).
      let alive : not (status_eq t.status dangling) ≡ true = elim s [
        | inl e ↦ rw e
        | inr e ↦ rw e
      ] in
      rw (
        (ends_iff t.status).1 s,
        alive,
        (has_expired_iff now t).1 x,
        (in_tenant_iff tenant t).1 own,
      ),
)

is_retryable_iff :
    (tenant : Option String) (t : Task) → (is_retryable tenant t ≡ true) ↔ CanRetry tenant t
unfolding is_retryable
is_retryable_iff tenant t = (
  λ h. (
    status_eq→≡ t.status failed (ground arith),
    ground arith,
    ground arith,
    (in_tenant_iff tenant t).0 (ground arith),
  ),
  λ (s, some_failure, limit, own).
      let below : leb t.consecutive_failures (or_else t.max_retries 3) ≡ true = ground arith in
      let above : ltb 0 t.consecutive_failures ≡ true = ground arith in
      rw ((in_tenant_iff tenant t).1 own, below, above, s),
)

module _ (now : ℕ) (tenant : Option String) (db : Db) (i : String) (t : Task) where
  -- Where the ids are distinct, the sweep for expired claims fails every task that is running or
  -- blocked under a claim that has expired, in the tenant asked for: with one failure more, the
  -- failure's text, an end of now, and without a lock, an expiry, a worker or a run. Its other
  -- columns and the row of every other task are unchanged, and the sweep returns how many it
  -- failed.
  pub release_expired_claims_lem :
      Distinct (ids db.tasks)
      → find i db.tasks ≡ some t
      → ((HasTimedOut now tenant t
            × (find i (release_expired_claims now tenant db).1.tasks
                ≡ some (record t {
                  status = failed;
                  completed_at = some now;
                  consecutive_failures = t.consecutive_failures + 1;
                  last_failure_error = some "Claim TTL expired";
                  claim_lock = none;
                  claim_expires = none;
                  worker_pid = none;
                  current_run_id = none;
                })))
          ⊎ ((¬ HasTimedOut now tenant t)
              × (find i (release_expired_claims now tenant db).1.tasks ≡ some t)))
        × ((release_expired_claims now tenant db).0
            ≡ length (select (is_releasable now tenant) db.tasks))
  unfolding release_columns
  release_expired_claims_lem d h =
      let (row, count) = release_expired_claims_row now tenant db i t d h in
      (
        elim (Bool-cases (is_releasable now tenant t)) [
          | inl e ↦ inl ((is_releasable_iff now tenant t).0 e, rw e at row)
          | inr n ↦ inr (λ x. cc ((is_releasable_iff now tenant t).1 x, n), rw n at row)
        ],
        count,
      )

  -- Where the ids are distinct, the retry sweep sends every failed task of the tenant with at
  -- least one failure and no more than its limit back to ready, without a lock, an expiry or a
  -- worker and with a run, whatever its `next_retry_at` says. Its other columns and the row of
  -- every other task are unchanged, and the sweep returns how many it sent.
  pub promote_retryable_tasks_lem :
      Distinct (ids db.tasks)
      → find i db.tasks ≡ some t
      → ((CanRetry tenant t
            × (r : ℕ) × (find i (promote_retryable_tasks now tenant db).1.tasks
                ≡ some (record t {
                  status = ready;
                  claim_lock = none;
                  claim_expires = none;
                  current_run_id = some r;
                  worker_pid = none;
                })))
          ⊎ ((¬ CanRetry tenant t)
              × (find i (promote_retryable_tasks now tenant db).1.tasks ≡ some t)))
        × ((promote_retryable_tasks now tenant db).0
            ≡ length (select (is_retryable tenant) db.tasks))
  unfolding promote_columns
  promote_retryable_tasks_lem d h =
      let (row, count) = promote_retryable_tasks_row now tenant db i t d h in
      (
        elim (Bool-cases (is_retryable tenant t)) [
          | inl e ↦ inl ((is_retryable_iff tenant t).0 e, row.0, rw e at row.1)
          | inr n ↦ inr (λ x. cc ((is_retryable_iff tenant t).1 x, n), rw n at row.1)
        ],
        count,
      )
