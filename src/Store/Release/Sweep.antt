-- ===== src/Store/Release/Sweep.antt =====
-- A loop over selected rows, where each round writes the row that it is about: with distinct ids
-- every selected row is written once, as it was selected, and no other row is.
use simple_a2a_registry.Prelude.{
  suc, String, Bool, true, false, some, List, [], ◌∷◌, select, contains, length, In, In-select,
  select_complete, In→contains, contains→In, ◌≡◌, refl, sym, subst, ap, ◌∙◌, arith, ◌==◌, eq_iff,
  Bool-cases, inl, inr, text_eq_self,
}
use simple_a2a_registry.Models.{Task}
use simple_a2a_registry.Db.{Db, find}
use simple_a2a_registry.Db.Frame.{ids, find-id, SameFrame, SameFrame-refl, SameFrame-trans}
use simple_a2a_registry.Store.Release.{sweep}

-- The ids of a table, each once: the primary key.
abbrev pub Distinct : List String → Type 0
Distinct [] = Unit
Distinct (x ∷ xs) = (contains xs x ≡ false) × Distinct xs

pub In-ids : (t : Task) (ts : List Task) → In t ts → In t.id (ids ts)
In-ids t [] h = h
In-ids t (u ∷ ts) (inl e) = inl (ap (λ (x : Task). x.id) e)
In-ids t (u ∷ ts) (inr m) = inr (In-ids t ts m)

pub find_of_In : (t : Task) (ts : List Task) → Distinct (ids ts) → In t ts → find t.id ts ≡ some t
unfolding find
find_of_In t [] d m = absurd m
find_of_In t (u ∷ ts) d (inl e) = rw (e, text_eq_self t.id)
find_of_In t (u ∷ ts) d (inr m) = elim (Bool-cases (u.id == t.id)) [
  | inl same ↦
      let old = In→contains (ids ts) t.id (In-ids t ts m) in
      let new = d.0 in let e = (eq_iff u.id t.id).0 same in cc
  | inr other ↦ rw other (find_of_In t ts d.1 m)
]

contains-select :
    (p : Task → Bool) (ts : List Task) (i : String)
    → contains (ids ts) i ≡ false
    → contains (ids (select p ts)) i ≡ false
unfolding select contains
contains-select p [] i h = refl
contains-select p (t ∷ ts) i h = ground (arith, contains-select p ts i)

pub Distinct-select :
    (p : Task → Bool) (ts : List Task) → Distinct (ids ts) → Distinct (ids (select p ts))
unfolding select
Distinct-select p [] d = tt
Distinct-select p (t ∷ ts) d = elim (Bool-cases (p t)) [
  | inl e ↦ rw e (contains-select p ts t.id d.0, Distinct-select p ts d.1)
  | inr e ↦ rw e (Distinct-select p ts d.1)
]

-- A selected row is the one that its id finds.
pub find-select :
    (p : Task → Bool) (ts : List Task) (row : Task)
    → Distinct (ids ts)
    → In row (select p ts)
    → find row.id ts ≡ some row
find-select p ts row d m = find_of_In row ts d (In-select p row ts m).0

In-of_find : (i : String) (ts : List Task) (t : Task) → find i ts ≡ some t → In t ts
unfolding find
In-of_find i [] t h = cc
In-of_find i (u ∷ ts) t h = elim (Bool-cases (u.id == i)) [
  | inl e ↦ inl (some_inj (rw e at h))
  | inr n ↦ inr (In-of_find i ts t (rw n at h))
]
  where
    some_inj : some u ≡ some t → u ≡ t
    some_inj e = cc

row_of_id : (i : String) (ts : List Task) → In i (ids ts) → (t : Task) × In t ts × (t.id ≡ i)
row_of_id i [] m = absurd m
row_of_id i (t ∷ ts) (inl e) = (t, inl refl, e)
row_of_id i (t ∷ ts) (inr m) = let (u, k, e) = row_of_id i ts m in (u, inr k, e)

not_selected :
    (p : Task → Bool) (ts : List Task) (i : String) (t : Task)
    → Distinct (ids ts)
    → find i ts ≡ some t
    → p t ≡ false
    → contains (ids (select p ts)) i ≡ false
not_selected p ts i t d h no_p = elim (Bool-cases (contains (ids (select p ts)) i)) [
  | inr n ↦ n
  | inl c ↦
      let (row, m, e) = row_of_id i (select p ts) (contains→In (ids (select p ts)) i c) in
      let passes = (In-select p row ts m).1 in
      let found : find i ts ≡ some row = rw (← e) (find-select p ts row d m) in
      let same : row ≡ t = some_inj (sym found ∙ h) in cc
]
  where
    some_inj : {a b : Task} → some a ≡ some b → a ≡ b
    some_inj e = cc

-- What one round does to the tasks: it turns the row into one that `Becomes` allows.
pub record RowRound (round : Task → Db → Db) (Becomes : Task → Task → Type 0) : Type 0 where
  pub writes :
      (row : Task) (db : Db)
      → find row.id db.tasks ≡ some row
      → (u : Task) × (find row.id (round row db).tasks ≡ some u) × Becomes row u
  pub others :
      (row : Task) (db : Db) (j : String)
      → (row.id == j) ≡ false
      → find j (round row db).tasks ≡ find j db.tasks

module _ (round : Task → Db → Db) where
  pub count-sweep : (rows : List Task) (db : Db) → (sweep round rows db).0 ≡ length rows
  unfolding sweep
  count-sweep [] db = refl
  count-sweep (row ∷ rows) db = ap suc (count-sweep rows (round row db))

  pub sweep-SameFrame :
      ((row : Task) (db : Db) → SameFrame db (round row db))
      → (rows : List Task) (db : Db) → SameFrame db (sweep round rows db).1
  unfolding sweep
  sweep-SameFrame keeps [] db = SameFrame-refl db
  sweep-SameFrame keeps (row ∷ rows) db =
      SameFrame-trans (keeps row db) (sweep-SameFrame keeps rows (round row db))

  module _ {Becomes : Task → Task → Type 0} (spec : RowRound round Becomes) where
    others_sweep :
        (rows : List Task) (db : Db) (j : String)
        → contains (ids rows) j ≡ false
        → find j (sweep round rows db).1.tasks ≡ find j db.tasks
    unfolding sweep contains
    others_sweep [] db j h = refl
    others_sweep (row ∷ rows) db j h = elim (Bool-cases (row.id == j)) [
      | inl e ↦ cc (rw e at h)
      | inr n ↦ others_sweep rows (round row db) j (rw n at h) ∙ spec.others row db j n
    ]

    -- The rows that are still to come are in the table as they were selected.
    abbrev Waiting : List Task → Db → Type 0
    Waiting rows db = (row : Task) → In row rows → find row.id db.tasks ≡ some row

    other_ids :
        (rows : List Task) (a b : Task)
        → contains (ids rows) a.id ≡ false
        → In b rows
        → (a.id == b.id) ≡ false
    other_ids rows a b h m = elim (Bool-cases (a.id == b.id)) [
      | inl e ↦
          let old = In→contains (ids rows) b.id (In-ids b rows m) in
          let same = (eq_iff a.id b.id).0 e in cc
      | inr n ↦ n
    ]

    Waiting-tail :
        (row : Task) (rows : List Task) (db : Db)
        → Distinct (ids (row ∷ rows))
        → Waiting (row ∷ rows) db
        → Waiting rows (round row db)
    Waiting-tail row rows db d w r m =
        spec.others row db r.id (other_ids rows row r d.0 m) ∙ w r (inr m)

    sweep_writes :
        (rows : List Task) (db : Db)
        → Distinct (ids rows)
        → Waiting rows db
        → (row : Task) → In row rows
        → (u : Task) × (find row.id (sweep round rows db).1.tasks ≡ some u) × Becomes row u
    unfolding sweep
    sweep_writes [] db d w row m = absurd m
    sweep_writes (first ∷ rows) db d w row (inl e) =
        let (u, hu, b) = spec.writes first db (w first (inl refl)) in
        (
          u,
          subst (λ (x : Task). find x.id (sweep round rows (round first db)).1.tasks ≡ some u) e
              (others_sweep rows (round first db) first.id d.0 ∙ hu),
          subst (λ x. Becomes x u) e b,
        )
    sweep_writes (first ∷ rows) db d w row (inr m) =
        sweep_writes rows (round first db) d.1 (Waiting-tail first rows db d w) row m

    -- The sweep over the rows that a test selects: a row that passes it is written, any other
    -- stays as it was.
    pub sweep-select :
        (p : Task → Bool) (db : Db) (i : String) (t : Task)
        → Distinct (ids db.tasks)
        → find i db.tasks ≡ some t
        → (p t ≡ true
            → (u : Task) × (find i (sweep round (select p db.tasks) db).1.tasks ≡ some u)
              × Becomes t u)
          × (p t ≡ false → find i (sweep round (select p db.tasks) db).1.tasks ≡ some t)
    sweep-select p db i t d h = (
      λ yes_p.
          let (u, hu, b) =
            sweep_writes (select p db.tasks) db (Distinct-select p db.tasks d)
              (λ row m. find-select p db.tasks row d m) t
              (select_complete p t db.tasks (In-of_find i db.tasks t h) yes_p) in
          (
            u,
            subst (λ j. find j (sweep round (select p db.tasks) db).1.tasks ≡ some u)
                (find-id i db.tasks t h) hu,
            b,
          ),
      λ no_p. others_sweep (select p db.tasks) db i (not_selected p db.tasks i t d h no_p) ∙ h,
    )
