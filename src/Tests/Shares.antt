-- ===== src/Tests/Shares.antt =====
-- The file locks of shared workspaces.
use simple_a2a_registry.Prelude.{
  String, true, false, Option, none, some, List, [], ◌∷◌, ◌≡◌, ◌≢◌, ◌⊎◌, refl, arith, contains,
  ◌==◌, eq_iff,
}
use simple_a2a_registry.Shared.{
  done, is_held_by_other, Workspace, FileRow, SharedDb, LockFault, refused, locked_by_other,
  find_workspace, find_file, new_file, lock, lock_in, lock_path, unlock, reap_stale_locks,
}
use simple_a2a_registry.Shared.Members.{leave_workspace, leave_workspace_lem}
use simple_a2a_registry.Shared.Locks.{lock_excludes, unlock_refuses}
use simple_a2a_registry.Shared.Reaper.{HasLapsed, reap_stale_locks_lem}

-- Paths are taken as they are, and no file has a checksum.
abbrev relative : String → String → Option String
relative root file = some file

abbrev checksum : String → String → Option String
checksum root file = none

abbrev team : Workspace
team = record {
  id = "ws";
  name = "team";
  path = "/ws";
  tenant = "";
  member_agent_ids = "a" ∷ "b" ∷ [];
  created_by = "a";
  created_at = 1;
}

abbrev locked : FileRow
locked = new_file 1 "ws" "notes" "a" 400 none 100

abbrev shared : List FileRow → SharedDb
shared files = record { workspaces = team ∷ []; files = files; next_file_id = 2 }

different : (s t : String) → (s == t) ≡ false → s ≢ t
different s t h e = differ ((eq_iff s t).1 e)
  where
    differ : (s == t) ≡ true → ⊥
    differ k = cc

lock_excludes_example :
    (fault : LockFault) × (lock relative checksum 200 300 "ws" "notes" "b"
        (lock relative checksum 100 300 "ws" "notes" "a" (shared [])).1
      ≡ (refused fault, (lock relative checksum 100 300 "ws" "notes" "a" (shared [])).1))
unfolding lock lock_in lock_path find_workspace find_file contains
lock_excludes_example =
    lock_excludes relative checksum 100 300 200 300 "ws" "notes" "a" "b" (shared [])
      (some (new_file 2 "ws" "notes" "a" 400 none 100)) refl (λ e. cc) (different "a" "b" refl)
      (omega arith)

unlock_refuses_example :
    unlock relative checksum 500 "ws" "notes" "b" (shared (locked ∷ []))
    ≡ (refused locked_by_other, shared (locked ∷ []))
unfolding find_workspace find_file
unlock_refuses_example =
    unlock_refuses relative checksum 500 "ws" "notes" "notes" "a" "b" team (shared (locked ∷ []))
      locked refl refl refl refl (λ e. cc) (different "a" "b" refl)

reap_stale_locks_lem_example :
    (HasLapsed 800 300 locked
      × (find_file "ws" "notes" (reap_stale_locks 800 300 (shared (locked ∷ []))).1.files
          ≡ some (record locked { locked_by = none; lock_expires = none })))
    ⊎ ((¬ HasLapsed 800 300 locked)
        × (find_file "ws" "notes" (reap_stale_locks 800 300 (shared (locked ∷ []))).1.files
            ≡ some locked))
unfolding find_file
reap_stale_locks_lem_example =
    reap_stale_locks_lem 800 300 "ws" "notes" (shared (locked ∷ [])) locked refl

leave_workspace_lem_example :
    (u : Workspace) × ((leave_workspace 150 "ws" "a" (shared (locked ∷ []))).0 ≡ done (some u))
    × (contains u.member_agent_ids "a" ≡ false)
    × (v : FileRow) × (find_file "ws" "notes"
          (leave_workspace 150 "ws" "a" (shared (locked ∷ []))).1.files
        ≡ some v)
    × (is_held_by_other 160 "b" v ≡ false)
unfolding find_workspace find_file contains
leave_workspace_lem_example =
    leave_workspace_lem 150 160 "ws" "notes" "a" "b" (shared (locked ∷ [])) team locked refl refl
      refl refl (omega arith)
