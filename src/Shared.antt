-- ===== src/Shared.antt =====
-- The file locks of SharedWorkspaceManager in orchestration/shared_workspace.py. Paths are resolved
-- and files are read by the file system, so both are parameters: `relative` gives the path of a
-- file within a workspace's directory, or none where it leads out of it and `relative_to` raises,
-- and `checksum` is `_compute_checksum` of a file of that directory.
pub mod Rows
pub mod Locks
pub mod Reaper
pub mod Members
use simple_a2a_registry.Prelude.{
  ℕ, suc, ◌+◌, ◌-◌, String, Bool, true, false, ◌&&◌, not, Option, none, some, List, [], ◌∷◌, ◌++◌,
  length, select, contains, ltb, nat_eq, is_some, or_else, truthy, text_opt_eq, ◌==◌, if◌then◌else◌,
}

pub record Workspace : Type 0 where
  pub id : String
  pub name : String
  pub path : String
  pub tenant : String
  pub member_agent_ids : List String
  pub created_by : String
  pub created_at : ℕ

pub record FileRow : Type 0 where
  pub id : ℕ
  pub workspace_id : String
  pub path : String
  pub locked_by : Option String
  pub lock_expires : Option ℕ
  pub checksum : Option String
  pub version : ℕ
  pub updated_at : ℕ

pub record SharedDb : Type 0 where
  pub workspaces : List Workspace
  pub files : List FileRow
  pub next_file_id : ℕ

pub data LockFault : Type 0 where
  workspace_not_found not_a_member locked_by_other : LockFault
  outside_workspace : LockFault

pub data Reply (A : Type 0) : Type 0 where
  done : A → Reply A
  refused : LockFault → Reply A

-- `get`
unfoldable pub find_workspace : String → List Workspace → Option Workspace
find_workspace i [] = none
find_workspace i (w ∷ ws) = if w.id == i then some w else find_workspace i ws

-- `WHERE workspace_id=? AND path=?`
abbrev pub is_file : String → String → FileRow → Bool
is_file w p r = r.workspace_id == w && r.path == p

unfoldable pub find_file : String → String → List FileRow → Option FileRow
find_file w p [] = none
find_file w p (r ∷ rows) = if is_file w p r then some r else find_file w p rows

-- `SELECT * FROM workspace_files WHERE id=?`
unfoldable pub find_row : ℕ → List FileRow → Option FileRow
find_row i [] = none
find_row i (r ∷ rows) = if nat_eq r.id i then some r else find_row i rows

-- `UPDATE workspace_files SET ... WHERE id=?`
unfoldable pub update_file : ℕ → (FileRow → FileRow) → List FileRow → List FileRow
update_file i f [] = []
update_file i f (r ∷ rows) = (if nat_eq r.id i then f r else r) ∷ update_file i f rows

-- Another agent holds the lock and it has not expired.
unfoldable pub is_held_by_other : ℕ → String → FileRow → Bool
is_held_by_other now agent r =
    truthy r.locked_by
    && (not (text_opt_eq r.locked_by (some agent)) && ltb now (or_else r.lock_expires 0))

abbrev pub take_lock : String → ℕ → FileRow → FileRow
take_lock agent expires r = record r {
  locked_by = some agent;
  lock_expires = some expires;
  version = r.version + 1;
}

abbrev pub new_file : ℕ → String → String → String → ℕ → Option String → ℕ → FileRow
new_file i w p agent expires sum now = record {
  id = i;
  workspace_id = w;
  path = p;
  locked_by = some agent;
  lock_expires = some expires;
  checksum = sum;
  version = 1;
  updated_at = now;
}

abbrev pub free_lock : Option String → ℕ → FileRow → FileRow
free_lock sum now r = record r {
  locked_by = none;
  lock_expires = none;
  checksum = sum;
  version = r.version + 1;
  updated_at = now;
}

-- `WHERE lock_expires IS NOT NULL AND lock_expires < ?`
abbrev pub is_stale : ℕ → FileRow → Bool
is_stale cutoff r = elim r.lock_expires [ none ↦ false | some e ↦ ltb e cutoff ]

abbrev pub drop_lock : FileRow → FileRow
drop_lock r = record r { locked_by = none; lock_expires = none }

unfoldable pub reap_rows : ℕ → List FileRow → List FileRow
reap_rows cutoff [] = []
reap_rows cutoff (r ∷ rows) = (if is_stale cutoff r then drop_lock r else r) ∷ reap_rows cutoff rows

-- The cutoff is not below 0 where the clock is past `max_age`; an expiry below it is not below 0
-- either, so that stopping at 0 selects the same rows.
unfoldable pub reap_stale_locks : ℕ → ℕ → SharedDb → ℕ × SharedDb
reap_stale_locks now max_age db = (
  length (select (is_stale (now - max_age)) db.files),
  record db { files = reap_rows (now - max_age) db.files },
)

module _ (relative : String → String → Option String)
    (checksum : String → String → Option String) where
  -- The UPDATE or the INSERT, and the row that is read back.
  unfoldable pub lock_path :
      ℕ → ℕ → Workspace → String → String → String → SharedDb → Reply (Option FileRow) × SharedDb
  lock_path now ttl w file rel agent db = elim (find_file w.id rel db.files) [
    | none ↦
        let row = new_file db.next_file_id w.id rel agent (now + ttl) (checksum w.path file) now in
        let files = db.files ++ row ∷ [] in
        (
          done (find_file w.id rel files),
          record db { files = files; next_file_id = suc db.next_file_id },
        )
    | some r ↦
        let files = update_file r.id (take_lock agent (now + ttl)) db.files in
        if is_held_by_other now agent r
        then (refused locked_by_other, db)
        else (done (find_file w.id rel files), record db { files = files })
  ]

  unfoldable pub lock_in :
      ℕ → ℕ → Workspace → String → String → SharedDb → Reply (Option FileRow) × SharedDb
  lock_in now ttl w file agent db =
      if contains w.member_agent_ids agent
      then elim (relative w.path file) [
        | none ↦ (refused outside_workspace, db)
        | some rel ↦ lock_path now ttl w file rel agent db
      ]
      else (refused not_a_member, db)

  unfoldable pub lock :
      ℕ → ℕ → String → String → String → SharedDb → Reply (Option FileRow) × SharedDb
  lock now ttl i file agent db = elim (find_workspace i db.workspaces) [
    | none ↦ (refused workspace_not_found, db)
    | some w ↦ lock_in now ttl w file agent db
  ]

  unfoldable pub unlock_row :
      ℕ → Workspace → String → String → FileRow → SharedDb → Reply (Option FileRow) × SharedDb
  unlock_row now w file agent r db =
      let files = update_file r.id (free_lock (checksum w.path file) now) db.files in
      if truthy r.locked_by && not (text_opt_eq r.locked_by (some agent))
      then (refused locked_by_other, db)
      else (done (find_row r.id files), record db { files = files })

  unfoldable pub unlock_path :
      ℕ → Workspace → String → String → String → SharedDb → Reply (Option FileRow) × SharedDb
  unlock_path now w file rel agent db = elim (find_file w.id rel db.files) [
    | none ↦ (done none, db)
    | some r ↦ unlock_row now w file agent r db
  ]

  unfoldable pub unlock :
      ℕ → String → String → String → SharedDb → Reply (Option FileRow) × SharedDb
  unlock now i file agent db = elim (find_workspace i db.workspaces) [
    | none ↦ (refused workspace_not_found, db)
    | some w ↦ elim (relative w.path file) [
      | none ↦ (refused outside_workspace, db)
      | some rel ↦ unlock_path now w file rel agent db
    ]
  ]
