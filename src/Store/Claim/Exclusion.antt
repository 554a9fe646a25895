-- ===== src/Store/Claim/Exclusion.antt =====
-- Who gets a claim and what the row is then; a second claim of the task gets nothing.
use simple_a2a_registry.Prelude.{
  ℕ, ◌+◌, ◌<◌, String, true, false, none, some, ◌≡◌, ◌≢◌, ◌↔◌, ◌⊎◌, refl, sym, ◌∙◌, arith,
  Bool-cases, Option-cases, inl, inr, text_eq_self, text_opt_eq, text_opt_eq→≡, or_else,
}
use simple_a2a_registry.Models.{Task, ready, running, status_eq, status_eq→≡}
use simple_a2a_registry.Db.{Db, ok, find, set_task, emit_event}
use simple_a2a_registry.Db.Frame.{find-update_task_by_id, tasks-set_run, KeepsId}
use simple_a2a_registry.Store.Claim.{
  is_claimable, is_free, take_claim, write_run_id, claim_writes, claim_found, claim_task, lock_of,
  heartbeat, heartbeat_found, write_heartbeat, write_run_heartbeat, ClaimInfo,
}
use simple_a2a_registry.Store.Claim.Laws.{
  claim_task_found, claim_task_missing, heartbeat_found_lem, heartbeat_missing,
}

find-set_task :
    (i : String) (f : Task → Task) (db : Db) (t : Task)
    → KeepsId f
    → find i db.tasks ≡ some t
    → find i (set_task i f db).tasks ≡ some (f t)
unfolding set_task
find-set_task i f db t keeps h = rw (find-update_task_by_id i i f db.tasks keeps, text_eq_self i, h)

-- The lock is free: none is there, or the one that is there has expired.
abbrev pub IsFree : ℕ → Task → Type 0
IsFree now t = (t.claim_lock ≡ none) ⊎ ((e : ℕ) × (t.claim_expires ≡ some e) × (e < now))

is_free_iff : (now : ℕ) (t : Task) → (is_free now t ≡ true) ↔ IsFree now t
is_free_iff now t = (λ h. ground arith, λ h. ground arith)

module _ (now : ℕ) (i : String) (worker : String) (pid ttl : ℕ) (db : Db) where
  -- The row that a claim leaves.
  abbrev claimed_row : Task → Task
  claimed_row t =
      write_run_id db.next_run_id (take_claim now (lock_of worker pid) (now + ttl) pid t)

  find-claim_writes :
      (t : Task)
      → find i db.tasks ≡ some t
      → find i (claim_writes now i worker pid (lock_of worker pid) (now + ttl) db).tasks
        ≡ some (claimed_row t)
  unfolding claim_writes emit_event
  find-claim_writes t h =
      let lock = lock_of worker pid in
      let first =
        find-set_task i (take_claim now lock (now + ttl) pid) db t (λ u. unfold take_claim in refl)
          h in
      unfold set_task in
      rw (
        find-update_task_by_id i i (write_run_id db.next_run_id)
            (set_task i (take_claim now lock (now + ttl) pid) db).tasks (λ u. refl),
        text_eq_self i,
        first,
      )

  -- A claim of a task that is ready and free succeeds: the worker gets its lock and expiry, and the
  -- row is running under that lock and expiry, started now unless it was started before, with the
  -- worker's process, a heartbeat of now and the new run, and its other columns are unchanged.
  pub claim_task_succeeds :
      (t : Task)
      → find i db.tasks ≡ some t
      → t.status ≡ ready
      → IsFree now t
      → ((claim_task now i worker pid ttl db).0
          ≡ ok (
              some (record {
                task_id = i;
                claim_lock = lock_of worker pid;
                claim_expires = now + ttl;
                workspace_path = t.workspace_path;
              })))
        × (find i (claim_task now i worker pid ttl db).1.tasks
            ≡ some (record t {
              status = running;
              claim_lock = some (lock_of worker pid);
              claim_expires = some (now + ttl);
              started_at = some (or_else t.started_at now);
              worker_pid = some pid;
              last_heartbeat_at = some now;
              current_run_id = some db.next_run_id;
            }))
  unfolding claim_found take_claim
  claim_task_succeeds t h is_ready free =
      let claimable : is_claimable now t ≡ true = rw (is_ready, (is_free_iff now t).1 free) in
      rw (claim_task_found now i worker pid ttl t db h, claimable) (refl, find-claim_writes t h)

  -- A claim of a task that is not there, not ready, or not free returns None and changes nothing.
  pub claim_task_refuses :
      ((t : Task) → find i db.tasks ≡ some t → (t.status ≢ ready) ⊎ (¬ IsFree now t))
      → claim_task now i worker pid ttl db ≡ (ok none, db)
  claim_task_refuses h = elim (Option-cases (find i db.tasks)) [
    | inl e ↦ claim_task_missing now i worker pid ttl db e
    | inr (t, e) ↦
        rw (claim_task_found now i worker pid ttl t db e)
          (unfold claim_found in rw (not_claimable t (h t e)))
  ]
    where
      not_claimable :
          (t : Task) → (t.status ≢ ready) ⊎ (¬ IsFree now t) → is_claimable now t ≡ false
      not_claimable t (inl other) = elim (Bool-cases (status_eq t.status ready)) [
        | inl e ↦ absurd (other (status_eq→≡ t.status ready e))
        | inr e ↦ rw e
      ]
      not_claimable t (inr held) = elim (Bool-cases (is_free now t)) [
        | inl e ↦ absurd (held ((is_free_iff now t).0 e))
        | inr e ↦
            rw e (elim (Bool-cases (status_eq t.status ready)) [ inl s ↦ rw s | inr s ↦ rw s ])
      ]

-- After one worker's claim has succeeded, any claim of the same task by any worker at any later or
-- earlier clock value gets None and changes nothing.
pub claim_excludes :
    (now later : ℕ) (i worker other : String) (pid pid' ttl ttl' : ℕ) (db : Db) (info : ClaimInfo)
    → (claim_task now i worker pid ttl db).0 ≡ ok (some info)
    → claim_task later i other pid' ttl' (claim_task now i worker pid ttl db).1
      ≡ (ok none, (claim_task now i worker pid ttl db).1)
unfolding claim_found take_claim
claim_excludes now later i worker other pid pid' ttl ttl' db info h =
    claim_task_refuses later i other pid' ttl' (claim_task now i worker pid ttl db).1 λ u hu.
      inl λ is_ready. elim (Option-cases (find i db.tasks)) [
        | inl e ↦ cc (claim_task_missing now i worker pid ttl db e)
        | inr (t, e) ↦ elim (Bool-cases (is_claimable now t)) [
          | inl free ↦
              let row = find-claim_writes now i worker pid ttl db t e in
              let after = rw (claim_task_found now i worker pid ttl t db e, free) at hu in
              let same = sym row ∙ after in let running_row : u.status ≡ running = cc in cc
          | inr taken ↦ cc (rw (claim_task_found now i worker pid ttl t db e, taken) at h)
        ]
      ]

module _ (now : ℕ) (i lock : String) (db : Db) where
  -- A heartbeat from the holder of the lock on the row is accepted, in any status, and moves the
  -- expiry of the claim to 900 seconds from now.
  pub heartbeat_accepts :
      (t : Task)
      → find i db.tasks ≡ some t
      → t.claim_lock ≡ some lock
      → ((heartbeat now i lock db).0 ≡ ok true)
        × (find i (heartbeat now i lock db).1.tasks
            ≡ some (record t { last_heartbeat_at = some now; claim_expires = some (now + 900) }))
  unfolding heartbeat_found emit_event
  heartbeat_accepts t e mine =
      let held : text_opt_eq t.claim_lock (some lock) ≡ true = rw mine (text_eq_self lock) in
      rw
        (
          heartbeat_found_lem now i lock db t e,
          held,
          tasks-set_run t.current_run_id (write_run_heartbeat now)
              (set_task i (write_heartbeat now) db),
        )
        (refl, find-set_task i (write_heartbeat now) db t (λ u. refl) e)

  -- Any other heartbeat is refused and changes nothing.
  pub heartbeat_refuses :
      ((t : Task) → find i db.tasks ≡ some t → t.claim_lock ≢ some lock)
      → heartbeat now i lock db ≡ (ok false, db)
  unfolding heartbeat_found
  heartbeat_refuses others = elim (Option-cases (find i db.tasks)) [
    | inl e ↦ heartbeat_missing now i lock db e
    | inr (t, e) ↦ elim (Bool-cases (text_opt_eq t.claim_lock (some lock))) [
      | inl mine ↦ absurd (others t e (text_opt_eq→≡ t.claim_lock (some lock) mine))
      | inr other ↦ rw (heartbeat_found_lem now i lock db t e, other)
    ]
  ]
