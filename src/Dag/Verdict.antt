-- ===== src/Dag/Verdict.antt =====
-- What the two cycle checks decide, and that they agree.
use simple_a2a_registry.Prelude.{
  String, Bool, true, false, some, List, [], ◌∷◌, ◌≡◌, refl, sym, subst, ◌↔◌, inl, inr, Text-cases,
}
use simple_a2a_registry.Models.{TaskLink}
use simple_a2a_registry.Dag.{dfs, search_fuel, detect_cycle, detect_cycle_upwards}
use simple_a2a_registry.Dag.Reach.{
  Reach, here, along, Reach-trans, dfs_sound, dfs_closed, Explored-Reach,
}
use simple_a2a_registry.Dag.Fuel.{search_fuel_enough}

-- `Down links a b`: b is a or a descendant of a. `Up links a b`: b is a or an ancestor of a.
abbrev pub Down : List TaskLink → String → String → Type 0
Down = Reach (λ l. l.parent_id) (λ l. l.child_id)

abbrev pub Up : List TaskLink → String → String → Type 0
Up = Reach (λ l. l.child_id) (λ l. l.parent_id)

pub Down-Up : {links : List TaskLink} {a b : String} → Down links a b → Up links b a
Down-Up here = here
Down-Up {links} (along l m e r) =
    Reach-trans (Down-Up r) (along l m refl (subst (λ x. Up links l.parent_id x) e here))

pub Up-Down : {links : List TaskLink} {a b : String} → Up links a b → Down links b a
Up-Down here = here
Up-Down {links} (along l m e r) =
    Reach-trans (Up-Down r) (along l m refl (subst (λ x. Down links l.child_id x) e here))

module _ (src dst : TaskLink → String) (links : List TaskLink) (target start : String) where
  -- The search from a node returns, and its answer is whether the target is reached.
  search_decides :
      (b : Bool) × (dfs src dst links target (search_fuel links) (start ∷ []) [] ≡ some b)
      × ((b ≡ true) ↔ Reach src dst links start target)
  search_decides = decide (search_fuel_enough src dst links target start)
    where
      decide :
          ((b : Bool) × (dfs src dst links target (search_fuel links) (start ∷ []) [] ≡ some b))
          → (b : Bool) × (dfs src dst links target (search_fuel links) (start ∷ []) [] ≡ some b)
            × ((b ≡ true) ↔ Reach src dst links start target)
      decide (true, e) = (
        true,
        e,
        (
          λ _.
              dfs_sound src dst links target (search_fuel links) start (start ∷ []) []
                (λ n m. elim m [
                  | inl p ↦ subst (λ x. Reach src dst links start x) p here
                  | inr x ↦ absurd x
                ])
                e,
          λ _. refl,
        ),
      )
      decide (false, e) =
          let (all, sub, closed) =
            dfs_closed src dst links target (search_fuel links) (start ∷ []) [] (λ v m. absurd m)
              e in
          (
            false,
            e,
            (
              λ h. cc,
              λ r. absurd (
                  Explored-Reach src dst links target all closed (sub start (inr (inl refl))) r
                    refl),
            ),
          )

-- `_detect_cycle` always returns, and says true exactly when the child is the proposed parent
-- or already has it as a descendant.
pub detect_cycle_decides :
    (links : List TaskLink) (child parent : String)
    → (b : Bool) × (detect_cycle links child parent ≡ some b)
      × ((b ≡ true) ↔ Down links child parent)
unfolding detect_cycle
detect_cycle_decides links child parent = elim (Text-cases child parent) [
  | inl (e, t) ↦ (true, rw t, (λ _. subst (λ x. Down links child x) e here, λ _. refl))
  | inr (ne, f) ↦
      let (b, e, iff) = search_decides (λ l. l.parent_id) (λ l. l.child_id) links parent child in
      (b, rw f e, iff)
]

pub detect_cycle_upwards_decides :
    (links : List TaskLink) (child parent : String)
    → (b : Bool) × (detect_cycle_upwards links child parent ≡ some b)
      × ((b ≡ true) ↔ Up links parent child)
unfolding detect_cycle_upwards
detect_cycle_upwards_decides links child parent = elim (Text-cases child parent) [
  | inl (e, t) ↦ (true, rw t, (λ _. subst (λ x. Up links x child) e here, λ _. refl))
  | inr (ne, f) ↦
      let (b, e, iff) = search_decides (λ l. l.child_id) (λ l. l.parent_id) links child parent in
      (b, rw f e, iff)
]

Bool-eq_of_iff : (a b : Bool) → (a ≡ true → b ≡ true) → (b ≡ true → a ≡ true) → a ≡ b
Bool-eq_of_iff true b f g = sym (f refl)
Bool-eq_of_iff false true f g = g refl
Bool-eq_of_iff false false f g = refl

-- The check that walks down from the child (store.py) and the check that walks up from the
-- parent (dependency.py) give the same answer on every graph.
pub detect_cycle_agree :
    (links : List TaskLink) (child parent : String)
    → detect_cycle links child parent ≡ detect_cycle_upwards links child parent
detect_cycle_agree links child parent =
    let (a, p, f) = detect_cycle_decides links child parent in
    let (b, q, g) = detect_cycle_upwards_decides links child parent in
    let same : a ≡ b =
      Bool-eq_of_iff a b (λ h. g.1 (Down-Up (f.0 h))) (λ h. f.1 (Up-Down (g.0 h))) in
    cc
