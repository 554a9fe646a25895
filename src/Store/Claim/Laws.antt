-- ===== src/Store/Claim/Laws.antt =====
-- Claims and heartbeats keep the ids, the links and the state machine.
use simple_a2a_registry.Prelude.{
  ℕ, ◌+◌, String, true, false, none, some, ◌≡◌, refl, sym, subst, ◌∙◌, arith, Bool-cases,
  Option-cases, inl, inr, text_opt_eq,
}
use simple_a2a_registry.Models.{Task, ready, running, status_eq→≡}
use simple_a2a_registry.StateMachine.Laws.{Moves, stay, one-Step, claim}
use simple_a2a_registry.Db.{Db, ok, find, set_task, emit_event}
use simple_a2a_registry.Db.Frame.{
  SameFrame, SameFrame-refl, SameFrame-trans, set_task-SameFrame, tasks-set_run, links-set_run,
}
use simple_a2a_registry.Store.Evolves.{
  Evolves, Evolves-refl, Evolves-trans, Evolves-same_tasks, set_task-Evolves,
}
use simple_a2a_registry.Store.Claim.{
  is_claimable, take_claim, write_run_id, claim_writes, claim_found, claim_task, lock_of, heartbeat,
  heartbeat_found, write_heartbeat, write_run_heartbeat,
}

module _ (now : ℕ) (i : String) where
  take_claim-Evolves :
      (lock : String) (expires pid : ℕ) (t : Task) (db : Db)
      → find i db.tasks ≡ some t
      → is_claimable now t ≡ true
      → Evolves db (set_task i (take_claim now lock expires pid) db)
  take_claim-Evolves lock expires pid t db h free =
      set_task-Evolves i (take_claim now lock expires pid) db (λ u. unfold take_claim in refl)
        λ u hu.
          let same : some t ≡ some u = sym h ∙ hu in
          let e : t ≡ u = cc in
          let was_ready : t.status ≡ ready = status_eq→≡ t.status ready (ground arith) in
          unfold take_claim in
          subst (λ (x : Task). Moves x.status running) e (rw was_ready (one-Step claim))

  claim_writes-SameFrame :
      (worker lock : String) (pid expires : ℕ) (db : Db)
      → SameFrame db (claim_writes now i worker pid lock expires db)
  unfolding claim_writes set_task emit_event
  claim_writes-SameFrame worker lock pid expires db =
      let first =
        set_task-SameFrame i (take_claim now lock expires pid) db
          (λ u. unfold take_claim in refl) in
      let taken = set_task i (take_claim now lock expires pid) db in
      let second = set_task-SameFrame i (write_run_id db.next_run_id) taken (λ u. refl) in
      record { same_ids = second.same_ids ∙ first.same_ids; same_links = refl }

  claim_writes-Evolves :
      (worker lock : String) (pid expires : ℕ) (t : Task) (db : Db)
      → find i db.tasks ≡ some t
      → is_claimable now t ≡ true
      → Evolves db (claim_writes now i worker pid lock expires db)
  unfolding claim_writes set_task emit_event
  claim_writes-Evolves worker lock pid expires t db h free =
      let taken = set_task i (take_claim now lock expires pid) db in
      let second =
        set_task-Evolves i (write_run_id db.next_run_id) taken (λ u. refl) (λ u _. stay) in
      Evolves-trans (take_claim-Evolves lock expires pid t db h free) (record { at = second.at })

  pub claim_task_found :
      (worker : String) (pid ttl : ℕ) (t : Task) (db : Db)
      → find i db.tasks ≡ some t
      → claim_task now i worker pid ttl db
        ≡ claim_found now i worker pid (lock_of worker pid) ttl t db
  unfolding claim_task
  claim_task_found worker pid ttl t db h = rw (h, claim_task)

  pub claim_task_missing :
      (worker : String) (pid ttl : ℕ) (db : Db)
      → find i db.tasks ≡ none
      → claim_task now i worker pid ttl db ≡ (ok none, db)
  unfolding claim_task
  claim_task_missing worker pid ttl db h = rw (h, claim_task)

  module _ (worker : String) (pid ttl : ℕ) (db : Db) where
    pub claim_task-Evolves : Evolves db (claim_task now i worker pid ttl db).1
    claim_task-Evolves = elim (Option-cases (find i db.tasks)) [
      | inl e ↦ rw (claim_task_missing worker pid ttl db e) (Evolves-refl db)
      | inr (t, e) ↦
          rw (claim_task_found worker pid ttl t db e) (elim (Bool-cases (is_claimable now t)) [
            | inl free ↦
                unfold claim_found in
                rw free
                  (claim_writes-Evolves worker (lock_of worker pid) pid (now + ttl) t db e free)
            | inr taken ↦ unfold claim_found in rw taken (Evolves-refl db)
          ])
    ]

    pub claim_task-SameFrame : SameFrame db (claim_task now i worker pid ttl db).1
    claim_task-SameFrame = elim (Option-cases (find i db.tasks)) [
      | inl e ↦ rw (claim_task_missing worker pid ttl db e) (SameFrame-refl db)
      | inr (t, e) ↦
          rw (claim_task_found worker pid ttl t db e) (elim (Bool-cases (is_claimable now t)) [
            | inl free ↦
                unfold claim_found in
                rw free (claim_writes-SameFrame worker (lock_of worker pid) pid (now + ttl) db)
            | inr taken ↦ unfold claim_found in rw taken (SameFrame-refl db)
          ])
    ]

  module _ (lock : String) (db : Db) where
    pub heartbeat_found_lem :
        (t : Task)
        → find i db.tasks ≡ some t
        → heartbeat now i lock db ≡ heartbeat_found now i lock t db
    unfolding heartbeat
    heartbeat_found_lem t h = rw (h, heartbeat)

    pub heartbeat_missing : find i db.tasks ≡ none → heartbeat now i lock db ≡ (ok false, db)
    unfolding heartbeat
    heartbeat_missing h = rw (h, heartbeat)

    heartbeat_writes-Evolves : (t : Task) → Evolves db (heartbeat_found now i lock t db).1
    unfolding heartbeat_found emit_event
    heartbeat_writes-Evolves t = elim (Bool-cases (text_opt_eq t.claim_lock (some lock))) [
      | inl mine ↦ rw mine (
          Evolves-trans (set_task-Evolves i (write_heartbeat now) db (λ u. refl) (λ u _. stay)) (
            Evolves-same_tasks (
              tasks-set_run t.current_run_id (write_run_heartbeat now)
                (set_task i (write_heartbeat now) db))))
      | inr other ↦ rw other (Evolves-refl db)
    ]

    heartbeat_writes-SameFrame : (t : Task) → SameFrame db (heartbeat_found now i lock t db).1
    unfolding heartbeat_found emit_event
    heartbeat_writes-SameFrame t = elim (Bool-cases (text_opt_eq t.claim_lock (some lock))) [
      | inl mine ↦ rw mine (
          SameFrame-trans (set_task-SameFrame i (write_heartbeat now) db (λ u. refl)) (record {
            same_ids = rw (
                tasks-set_run t.current_run_id (write_run_heartbeat now)
                  (set_task i (write_heartbeat now) db));
            same_links =
                links-set_run t.current_run_id (write_run_heartbeat now)
                  (set_task i (write_heartbeat now) db);
          }))
      | inr other ↦ rw other (SameFrame-refl db)
    ]

    pub heartbeat-Evolves : Evolves db (heartbeat now i lock db).1
    heartbeat-Evolves = elim (Option-cases (find i db.tasks)) [
      | inl e ↦ rw (heartbeat_missing e) (Evolves-refl db)
      | inr (t, e) ↦ rw (heartbeat_found_lem t e) (heartbeat_writes-Evolves t)
    ]

    pub heartbeat-SameFrame : SameFrame db (heartbeat now i lock db).1
    heartbeat-SameFrame = elim (Option-cases (find i db.tasks)) [
      | inl e ↦ rw (heartbeat_missing e) (SameFrame-refl db)
      | inr (t, e) ↦ rw (heartbeat_found_lem t e) (heartbeat_writes-SameFrame t)
    ]
