-- ===== src/Shared/Rows.antt =====
-- The rows of tracked files: what a look-up gives after a write.
use simple_a2a_registry.Prelude.{
  ℕ, String, true, none, some, List, [], ◌∷◌, ◌++◌, ◌≡◌, refl, ◌∙◌, nat_eq, Bool-cases, inl, inr,
  if◌then◌else◌,
}
use simple_a2a_registry.Db.Frame.{map_option}
use simple_a2a_registry.Shared.{
  FileRow, is_file, find_file, update_file, is_stale, drop_lock, reap_rows,
}

abbrev pub KeepsPlace : (FileRow → FileRow) → Type 0
KeepsPlace f = (w p : String) (r : FileRow) → is_file w p (f r) ≡ is_file w p r

module _ (w p : String) where
  pub find-update_file :
      (i : ℕ) (f : FileRow → FileRow) (rows : List FileRow)
      → KeepsPlace f
      → find_file w p (update_file i f rows)
        ≡ map_option (λ r. if nat_eq r.id i then f r else r) (find_file w p rows)
  unfolding find_file update_file
  find-update_file i f [] keeps = refl
  find-update_file i f (r ∷ rows) keeps =
      let rest = find-update_file i f rows keeps in
      elim (Bool-cases (nat_eq r.id i)) [
        | inl e ↦ elim (Bool-cases (is_file w p r)) [
          | inl h ↦ rw (e, keeps w p r ∙ h, h, e) refl
          | inr h ↦ rw (e, keeps w p r ∙ h, h) rest
        ]
        | inr e ↦ elim (Bool-cases (is_file w p r)) [
          | inl h ↦ rw (e, h, e) refl
          | inr h ↦ rw (e, h) rest
        ]
      ]

  pub find-reap_rows :
      (cutoff : ℕ) (rows : List FileRow)
      → find_file w p (reap_rows cutoff rows)
        ≡ map_option (λ r. if is_stale cutoff r then drop_lock r else r) (find_file w p rows)
  unfolding find_file reap_rows
  find-reap_rows cutoff [] = refl
  find-reap_rows cutoff (r ∷ rows) =
      let rest = find-reap_rows cutoff rows in
      elim (Bool-cases (is_stale cutoff r)) [
        | inl e ↦ elim (Bool-cases (is_file w p r)) [
          | inl h ↦ rw (e, h, e) refl
          | inr h ↦ rw (e, h) rest
        ]
        | inr e ↦ elim (Bool-cases (is_file w p r)) [
          | inl h ↦ rw (e, h, e) refl
          | inr h ↦ rw (e, h) rest
        ]
      ]

  pub find-snoc_file :
      (row : FileRow) (rows : List FileRow)
      → is_file w p row ≡ true
      → find_file w p rows ≡ none
      → find_file w p (rows ++ row ∷ []) ≡ some row
  unfolding find_file
  find-snoc_file row [] h absent = rw h refl
  find-snoc_file row (r ∷ rows) h absent = elim (Bool-cases (is_file w p r)) [
    | inl e ↦ cc (rw e at absent)
    | inr e ↦ rw e (find-snoc_file row rows h (rw e at absent))
  ]

  pub place-find_file :
      (rows : List FileRow) (r : FileRow) → find_file w p rows ≡ some r → is_file w p r ≡ true
  unfolding find_file
  place-find_file [] r h = cc
  place-find_file (x ∷ rows) r h = elim (Bool-cases (is_file w p x)) [
    | inl e ↦ rw (← some_path (rw e at h)) e
    | inr e ↦ place-find_file rows r (rw e at h)
  ]
    where
      some_path : {a b : FileRow} → some a ≡ some b → a ≡ b
      some_path q = cc
