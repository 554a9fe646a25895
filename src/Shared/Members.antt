-- ===== src/Shared/Members.antt =====
-- join and leave of SharedWorkspaceManager in orchestration/shared_workspace.py.
use simple_a2a_registry.Shared.{
  drop_lock, Workspace, FileRow, SharedDb, workspace_not_found, Reply, done, refused,
  find_workspace, is_file, find_file, is_held_by_other,
}
use simple_a2a_registry.Prelude.{
  ℕ, arith, ◌≤◌, String, Bool, true, false, ◌&&◌, not, Option, none, some, List, [], ◌∷◌, ◌≡◌, refl,
  ap, inl, inr, select, contains, distinct, sorted, ltb, text_opt_eq, ◌==◌, if◌then◌else◌,
  Bool-cases, Option-cases, some_inj, text_eq_self, In-select, In-sorted_iff, contains→In,
}

-- `UPDATE shared_workspaces SET member_agent_ids=? WHERE id=?`
unfoldable pub set_members : String → List String → List Workspace → List Workspace
set_members i members [] = []
set_members i members (w ∷ ws) =
    (if w.id == i then record w { member_agent_ids = members } else w) ∷ set_members i members ws

-- `WHERE workspace_id=? AND locked_by=? AND (lock_expires IS NULL OR lock_expires > ?)`
unfoldable pub has_lock : ℕ → String → String → FileRow → Bool
has_lock now i agent r =
    r.workspace_id == i
    && (text_opt_eq r.locked_by (some agent)
        && elim r.lock_expires [ none ↦ true | some e ↦ ltb now e ])

abbrev pub release_lock : ℕ → String → String → FileRow → FileRow
release_lock now i agent r = if has_lock now i agent r then drop_lock r else r

-- `UPDATE workspace_files SET locked_by=NULL, lock_expires=NULL`
unfoldable pub release_locks : ℕ → String → String → List FileRow → List FileRow
release_locks now i agent [] = []
release_locks now i agent (r ∷ rows) = release_lock now i agent r ∷ release_locks now i agent rows

unfoldable pub join_workspace : String → String → SharedDb → Reply (Option Workspace) × SharedDb
join_workspace i agent db = elim (find_workspace i db.workspaces) [
  | none ↦ (refused workspace_not_found, db)
  | some w ↦
      if contains w.member_agent_ids agent
      then (done (some w), db)
      else (let after = record db {
        workspaces = set_members i (sorted (distinct (agent ∷ w.member_agent_ids))) db.workspaces;
      } in
          (done (find_workspace i after.workspaces), after))
]

unfoldable pub leave_workspace :
    ℕ → String → String → SharedDb → Reply (Option Workspace) × SharedDb
leave_workspace now i agent db = elim (find_workspace i db.workspaces) [
  | none ↦ (refused workspace_not_found, db)
  | some w ↦
      if contains w.member_agent_ids agent
      then (let after = record db {
        workspaces =
            set_members i (sorted (select (λ m. not (m == agent)) (distinct w.member_agent_ids)))
              db.workspaces;
        files = release_locks now i agent db.files;
      } in
          (done (find_workspace i after.workspaces), after))
      else (done (some w), db)
]

find_workspace-set_members :
    (i : String) (members : List String) (ws : List Workspace) (w : Workspace)
    → find_workspace i ws ≡ some w
    → find_workspace i (set_members i members ws) ≡ some (record w { member_agent_ids = members })
unfolding find_workspace set_members
find_workspace-set_members i members [] w h = cc
find_workspace-set_members i members (v ∷ ws) w h = elim (Bool-cases (v.id == i)) [
  | inl e ↦
      rw (e, e)
        (ap (λ (x : Workspace). some (record x { member_agent_ids = members }))
          (some_inj (rw e at h)))
  | inr o ↦ rw (o, o) (find_workspace-set_members i members ws w (rw o at h))
]

is_file-release_lock :
    (now : ℕ) (i p agent : String) (r : FileRow)
    → is_file i p (release_lock now i agent r) ≡ is_file i p r
is_file-release_lock now i p agent r = elim (Bool-cases (has_lock now i agent r)) [
  | inl h ↦ rw h refl
  | inr n ↦ rw n refl
]

no_lock_left :
    (now later : ℕ) (other : String) (r : FileRow)
    → elim r.lock_expires [ none ↦ true | some e ↦ ltb now e ] ≡ false
    → now ≤ later
    → is_held_by_other later other r ≡ false
unfolding is_held_by_other
no_lock_left now later other r h le = elim (Option-cases r.lock_expires) [
  | inl n ↦ cc (rw n at h)
  | inr (e, s) ↦ let past = rw s at h in rw s (ground (arith, past, le))
]

is_file_workspace :
    (i p : String) (r : FileRow) → is_file i p r ≡ true → (r.workspace_id == i) ≡ true
is_file_workspace i p r f = elim (Bool-cases (r.workspace_id == i)) [
  | inl e ↦ e
  | inr o ↦ cc (rw o at f)
]

-- A lock of the agent that leaves is gone, or it has expired and keeps nobody out.
release_lock_frees :
    (now later : ℕ) (i p agent other : String) (r : FileRow)
    → is_file i p r ≡ true
    → r.locked_by ≡ some agent
    → now ≤ later
    → is_held_by_other later other (release_lock now i agent r) ≡ false
unfolding has_lock is_held_by_other
release_lock_frees now later i p agent other r f by le =
    elim (Bool-cases (has_lock now i agent r)) [
      | inl h ↦ rw h refl
      | inr n ↦ rw n (
          no_lock_left now later other r
            (rw (is_file_workspace i p r f, by, text_eq_self agent) at n) le)
    ]

find_file-release_locks :
    (now : ℕ) (i p agent : String) (rows : List FileRow) (r : FileRow)
    → find_file i p rows ≡ some r
    → find_file i p (release_locks now i agent rows) ≡ some (release_lock now i agent r)
unfolding find_file release_locks
find_file-release_locks now i p agent [] r h = cc
find_file-release_locks now i p agent (q ∷ rows) r h = elim (Bool-cases (is_file i p q)) [
  | inl f ↦
      rw (is_file-release_lock now i p agent q, f)
        (ap (λ x. some (release_lock now i agent x)) (some_inj (rw f at h)))
  | inr o ↦
      rw (is_file-release_lock now i p agent q, o)
        (find_file-release_locks now i p agent rows r (rw o at h))
]

find_file_is :
    (i p : String) (rows : List FileRow) (r : FileRow)
    → find_file i p rows ≡ some r
    → is_file i p r ≡ true
unfolding find_file
find_file_is i p [] r h = cc
find_file_is i p (q ∷ rows) r h = elim (Bool-cases (is_file i p q)) [
  | inl f ↦ rw (← some_inj (rw f at h)) f
  | inr o ↦ find_file_is i p rows r (rw o at h)
]

not_member :
    (agent : String) (members : List String)
    → contains (sorted (select (λ m. not (m == agent)) (distinct members))) agent ≡ false
not_member agent members =
    elim (Bool-cases
      (contains (sorted (select (λ m. not (m == agent)) (distinct members))) agent)) [
        | inr n ↦ n
        | inl h ↦
            let m = (In-sorted_iff agent _).0 (contains→In _ agent h) in
            cc (
              rw (text_eq_self agent) at
                (In-select (λ k. not (k == agent)) agent (distinct members) m).1)
      ]

leave_workspace_member :
    (now : ℕ) (i agent : String) (db : SharedDb) (w : Workspace)
    → find_workspace i db.workspaces ≡ some w
    → contains w.member_agent_ids agent ≡ true
    → ((leave_workspace now i agent db).0
        ≡ done (
            some (record w {
              member_agent_ids =
                  sorted (select (λ m. not (m == agent)) (distinct w.member_agent_ids));
            })))
      × ((leave_workspace now i agent db).1.files ≡ release_locks now i agent db.files)
unfolding leave_workspace
leave_workspace_member now i agent db w found member =
    rw (leave_workspace, found, member)
      (ap (λ o. done o) (find_workspace-set_members i _ db.workspaces w found), refl)

-- When a member leaves a workspace, it is no member in the row that the call returns, and each lock that it
-- had on a file of the workspace keeps no other agent out, from then on.
pub leave_workspace_lem :
    (now later : ℕ) (i p agent other : String) (db : SharedDb) (w : Workspace) (r : FileRow)
    → find_workspace i db.workspaces ≡ some w
    → contains w.member_agent_ids agent ≡ true
    → find_file i p db.files ≡ some r
    → r.locked_by ≡ some agent
    → now ≤ later
    → (u : Workspace) × ((leave_workspace now i agent db).0 ≡ done (some u))
      × (contains u.member_agent_ids agent ≡ false)
      × (v : FileRow) × (find_file i p (leave_workspace now i agent db).1.files ≡ some v)
      × (is_held_by_other later other v ≡ false)
leave_workspace_lem now later i p agent other db w r found member file by le =
    let (answer, files) = leave_workspace_member now i agent db w found member in
    (
      _,
      answer,
      not_member agent w.member_agent_ids,
      release_lock now i agent r,
      rw files (find_file-release_locks now i p agent db.files r file),
      release_lock_frees now later i p agent other r (find_file_is i p db.files r file) by le,
    )
