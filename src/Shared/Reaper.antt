-- ===== src/Shared/Reaper.antt =====
-- SharedWorkspaceManager.reap_stale_locks of orchestration/shared_workspace.py: which locks it takes.
use simple_a2a_registry.Prelude.{
  ℕ, ◌+◌, ◌-◌, ◌<◌, ◌≤◌, String, false, none, some, ◌≡◌, ◌⊎◌, refl, sym, ◌∙◌, arith, ltb,
  Bool-cases, Option-cases, inl, inr, if◌then◌else◌,
}
use simple_a2a_registry.Db.Frame.{map_option}
use simple_a2a_registry.Shared.{FileRow, SharedDb, find_file, is_stale, drop_lock, reap_stale_locks}
use simple_a2a_registry.Shared.Rows.{find-reap_rows}
use simple_a2a_registry.Shared.Locks.{HoldsUntil}

reap_stale_locks_row :
    (now max_age : ℕ) (w p : String) (db : SharedDb)
    → find_file w p (reap_stale_locks now max_age db).1.files
      ≡ map_option
          (λ r. if is_stale (now - max_age) r then drop_lock r else r)
          (find_file w p db.files)
unfolding reap_stale_locks
reap_stale_locks_row now max_age w p db = find-reap_rows w p (now - max_age) db.files

-- The lock expired more than `max_age` before now.
abbrev pub HasLapsed : ℕ → ℕ → FileRow → Type 0
HasLapsed now max_age r = (e : ℕ) × (r.lock_expires ≡ some e) × (e + max_age < now)

-- The reaper takes the lock from a file whose lock expired more than `max_age` before now: it has
-- no holder and no expiry then, and its other columns are unchanged. A row without an expiry, or
-- with a later one, is left as it is.
pub reap_stale_locks_lem :
    (now max_age : ℕ) (w p : String) (db : SharedDb) (r : FileRow)
    → find_file w p db.files ≡ some r
    → (HasLapsed now max_age r
        × (find_file w p (reap_stale_locks now max_age db).1.files
            ≡ some (record r { locked_by = none; lock_expires = none })))
      ⊎ ((¬ HasLapsed now max_age r)
          × (find_file w p (reap_stale_locks now max_age db).1.files ≡ some r))
reap_stale_locks_lem now max_age w p db r h = elim (Option-cases r.lock_expires) [
  | inl x ↦ inr (λ (e, y, _). cc, reap_stale_locks_row now max_age w p db ∙ rw (h, x) refl)
  | inr (e, x) ↦ elim (Bool-cases (ltb e (now - max_age))) [
    | inl old ↦
        inl ((e, x, ground arith), reap_stale_locks_row now max_age w p db ∙ rw (h, x, old) refl)
    | inr young ↦ inr (
      λ (d, y, lapsed). let same : some e ≡ some d = sym x ∙ y in ground arith,
      reap_stale_locks_row now max_age w p db ∙ rw (h, x, young) refl,
    )
  ]
]

-- A lock that has not expired survives the reaper, whatever age is given.
pub reap_keeps_lock :
    (now max_age e : ℕ) (w p a : String) (db : SharedDb)
    → HoldsUntil a e (find_file w p db.files)
    → now ≤ e
    → HoldsUntil a e (find_file w p (reap_stale_locks now max_age db).1.files)
reap_keeps_lock now max_age e w p a db (r, found, l, x) late =
    (r, reap_stale_locks_row now max_age w p db ∙ rw (found, x, not_before) refl, l, x)
  where
    not_before : ltb e (now - max_age) ≡ false
    not_before = ground arith
