-- ===== src/Shared/Locks.antt =====
-- Who holds the lock on a file: mutual exclusion until the expiry, release, and the reaper.
use simple_a2a_registry.Prelude.{
  ℕ, ◌+◌, ◌<◌, String, true, false, ◌&&◌, not, Option, none, some, ◌≡◌, ◌≢◌, refl, sym, ap, ◌∙◌,
  arith, contains, nat_eq, truthy, text_opt_eq, Bool-cases, Option-cases, Text-cases, inl, inr,
  text_eq_self, subst,
}
use simple_a2a_registry.Shared.{
  Workspace, FileRow, SharedDb, LockFault, not_a_member, done, refused, locked_by_other,
  find_workspace, find_file, is_held_by_other, take_lock, new_file, lock_path, lock_in, lock,
  free_lock, unlock, unlock_path, unlock_row,
}
use simple_a2a_registry.Shared.Rows.{find-update_file, find-snoc_file}

-- The agent holds the file until a time.
abbrev pub HoldsUntil : String → ℕ → Option FileRow → Type 0
HoldsUntil agent e o =
    (r : FileRow) × (o ≡ some r) × (r.locked_by ≡ some agent) × (r.lock_expires ≡ some e)

nat_eq_self : (n : ℕ) → nat_eq n n ≡ true
nat_eq_self n = ground arith

held_by_other :
    (now e : ℕ) (a b : String) (r : FileRow)
    → a ≢ ""
    → a ≢ b
    → r.locked_by ≡ some a
    → r.lock_expires ≡ some e
    → now < e
    → is_held_by_other now b r ≡ true
unfolding is_held_by_other
held_by_other now e a b r real other l x soon = elim (Text-cases a "") [
  | inl (p, _) ↦ absurd (real p)
  | inr (_, p) ↦ elim (Text-cases a b) [
    | inl (q, _) ↦ absurd (other q)
    | inr (_, q) ↦ rw (l, x, p, q) (ground arith)
  ]
]

module _ (relative : String → String → Option String)
    (checksum : String → String → Option String) where
  lock_path_holds :
      (now ttl : ℕ) (w : Workspace) (file rel agent : String) (db : SharedDb) (r : Option FileRow)
      → (lock_path relative checksum now ttl w file rel agent db).0 ≡ done r
      → HoldsUntil agent
          (now + ttl)
          (find_file w.id rel (lock_path relative checksum now ttl w file rel agent db).1.files)
  unfolding lock_path
  lock_path_holds now ttl w file rel agent db r h =
      elim (Option-cases (find_file w.id rel db.files)) [
        | inl e ↦
            let row =
              new_file db.next_file_id w.id rel agent (now + ttl) (checksum w.path file) now in
            rw (e, lock_path)
              (
                row,
                find-snoc_file w.id rel row db.files (rw (text_eq_self w.id, text_eq_self rel) refl)
                    e,
                refl,
                refl,
              )
        | inr (old, e) ↦ elim (Bool-cases (is_held_by_other now agent old)) [
          | inl held ↦ cc (rw (e, lock_path, held) at h)
          | inr free ↦
              rw (e, lock_path, free)
                (
                  take_lock agent (now + ttl) old,
                  find-update_file w.id rel old.id (take_lock agent (now + ttl)) db.files
                        (λ x y z. refl)
                      ∙ rw (e, nat_eq_self old.id) refl,
                  refl,
                  refl,
                )
        ]
      ]

  -- A member asks for the file while another agent holds it: refused, and nothing is written.
  lock_path_refuses :
      (now ttl e : ℕ) (w : Workspace) (file rel a b : String) (db : SharedDb)
      → a ≢ ""
      → a ≢ b
      → HoldsUntil a e (find_file w.id rel db.files)
      → now < e
      → lock_path relative checksum now ttl w file rel b db ≡ (refused locked_by_other, db)
  unfolding lock_path
  lock_path_refuses now ttl e w file rel a b db real other (r, found, l, x) soon =
      rw (found, lock_path, held_by_other now e a b r real other l x soon) refl

  workspaces-lock_path :
      (now ttl : ℕ) (w : Workspace) (file rel agent : String) (db : SharedDb)
      → (lock_path relative checksum now ttl w file rel agent db).1.workspaces ≡ db.workspaces
  unfolding lock_path
  workspaces-lock_path now ttl w file rel agent db =
      elim (Option-cases (find_file w.id rel db.files)) [
        | inl e ↦ rw (e, lock_path) refl
        | inr (r, e) ↦ elim (Bool-cases (is_held_by_other now agent r)) [
          | inl held ↦ rw (e, lock_path, held) refl
          | inr free ↦ rw (e, lock_path, free) refl
        ]
      ]

  -- A lock that was granted.
  record Granted (now ttl : ℕ) (i file agent : String) (db : SharedDb) (r : Option FileRow)
      : Type 0 where
    w : Workspace
    rel : String
    found : find_workspace i db.workspaces ≡ some w
    member : contains w.member_agent_ids agent ≡ true
    inside : relative w.path file ≡ some rel
    reply : (lock_path relative checksum now ttl w file rel agent db).0 ≡ done r
    after :
        (lock relative checksum now ttl i file agent db).1
        ≡ (lock_path relative checksum now ttl w file rel agent db).1

  lock-Granted :
      (now ttl : ℕ) (i file agent : String) (db : SharedDb) (r : Option FileRow)
      → (lock relative checksum now ttl i file agent db).0 ≡ done r
      → Granted now ttl i file agent db r
  unfolding lock lock_in
  lock-Granted now ttl i file agent db r h = elim (Option-cases (find_workspace i db.workspaces)) [
    | inl e ↦ cc (rw (e, lock) at h)
    | inr (w, e) ↦ elim (Bool-cases (contains w.member_agent_ids agent)) [
      | inr n ↦ cc (rw (e, lock, n) at h)
      | inl m ↦ elim (Option-cases (relative w.path file)) [
        | inl o ↦ cc (rw (e, lock, m, o, lock_in) at h)
        | inr (rel, o) ↦ record {
          w = w;
          rel = rel;
          found = e;
          member = m;
          inside = o;
          reply = rw (e, lock, m, o, lock_in) at h;
          after = rw (e, lock, m, o, lock_in) refl;
        }
      ]
    ]
  ]

  -- A call for a file that another agent holds is refused, for one reason or another.
  lock_refuses :
      (now ttl e : ℕ) (i file rel a b : String) (w : Workspace) (db : SharedDb)
      → find_workspace i db.workspaces ≡ some w
      → relative w.path file ≡ some rel
      → HoldsUntil a e (find_file w.id rel db.files)
      → a ≢ ""
      → a ≢ b
      → now < e
      → (fault : LockFault) × (lock relative checksum now ttl i file b db ≡ (refused fault, db))
  unfolding lock lock_in
  lock_refuses now ttl e i file rel a b w db here inside held real other soon =
      elim (Bool-cases (contains w.member_agent_ids b)) [
        | inr n ↦ (not_a_member, rw (here, lock, n) refl)
        | inl m ↦ (
          locked_by_other,
          rw (here, lock, m, inside, lock_in)
              (lock_path_refuses now ttl e w file rel a b db real other held soon),
        )
      ]

  -- Where an agent with a name has been granted the lock on a file of a workspace, no other agent
  -- is granted it before the lock expires: the call is refused and changes nothing.
  pub lock_excludes :
      (now ttl later ttl' : ℕ) (i file a b : String) (db : SharedDb) (r : Option FileRow)
      → (lock relative checksum now ttl i file a db).0 ≡ done r
      → a ≢ ""
      → a ≢ b
      → later < now + ttl
      → (fault : LockFault) × (lock relative checksum later ttl' i file b
            (lock relative checksum now ttl i file a db).1
          ≡ (refused fault, (lock relative checksum now ttl i file a db).1))
  lock_excludes now ttl later ttl' i file a b db r h real other soon =
      let g = lock-Granted now ttl i file a db r h in
      let after = (lock relative checksum now ttl i file a db).1 in
      let here : find_workspace i after.workspaces ≡ some g.w =
        ap (λ (d : SharedDb). find_workspace i d.workspaces) g.after
        ∙ ap (find_workspace i) (workspaces-lock_path now ttl g.w file g.rel a db)
        ∙ g.found in
      let held : HoldsUntil a (now + ttl) (find_file g.w.id g.rel after.files) =
        subst (λ (d : SharedDb). HoldsUntil a (now + ttl) (find_file g.w.id g.rel d.files))
          (sym g.after) (lock_path_holds now ttl g.w file g.rel a db r g.reply) in
      lock_refuses later ttl' (now + ttl) i file g.rel a b g.w after here g.inside held real other
        soon

  -- The holder of a lock releases it: the file is free, and its version has gone up by one.
  pub unlock_frees :
      (now : ℕ) (i file rel a : String) (w : Workspace) (db : SharedDb) (r : FileRow)
      → find_workspace i db.workspaces ≡ some w
      → relative w.path file ≡ some rel
      → find_file w.id rel db.files ≡ some r
      → r.locked_by ≡ some a
      → find_file w.id rel (unlock relative checksum now i file a db).1.files
        ≡ some (free_lock (checksum w.path file) now r)
  unfolding unlock unlock_path unlock_row
  unlock_frees now i file rel a w db r here inside found mine =
      let own : text_opt_eq r.locked_by (some a) ≡ true = rw mine (text_eq_self a) in
      rw (here, unlock, inside, found, unlock_path, own, truthy_and_not r.locked_by)
        (find-update_file w.id rel r.id (free_lock (checksum w.path file) now) db.files
            (λ x y z. refl)
          ∙ rw (found, nat_eq_self r.id) refl)
    where
      truthy_and_not : (o : Option String) → (truthy o && not true) ≡ false
      truthy_and_not none = refl
      truthy_and_not (some s) = ground arith

  -- An agent that does not hold the lock on a locked file is refused, also after the lock has
  -- expired, and nothing changes.
  pub unlock_refuses :
      (now : ℕ) (i file rel a b : String) (w : Workspace) (db : SharedDb) (r : FileRow)
      → find_workspace i db.workspaces ≡ some w
      → relative w.path file ≡ some rel
      → find_file w.id rel db.files ≡ some r
      → r.locked_by ≡ some a
      → a ≢ ""
      → a ≢ b
      → unlock relative checksum now i file b db ≡ (refused locked_by_other, db)
  unfolding unlock unlock_path unlock_row
  unlock_refuses now i file rel a b w db r here inside found held real other =
      elim (Text-cases a "") [
        | inl (p, _) ↦ absurd (real p)
        | inr (_, p) ↦ elim (Text-cases a b) [
          | inl (q, _) ↦ absurd (other q)
          | inr (_, q) ↦ rw (here, unlock, inside, found, unlock_path, held, p, q) refl
        ]
      ]
