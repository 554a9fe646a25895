-- ===== src/Dag/Acyclic.antt =====
-- Graphs without cycles, and the changes of `task_links` that keep them so.
use simple_a2a_registry.Prelude.{
  String, List, [], ◌∷◌, ◌++◌, In, In-append_cases, ◌≡◌, refl, sym, subst, ◌∙◌, ◌≢◌, ◌⊎◌, inl, inr,
}
use simple_a2a_registry.Models.{TaskLink}
use simple_a2a_registry.Dag.Reach.{here, along, Reach-trans}
use simple_a2a_registry.Dag.Verdict.{Down}

-- No link leads back to its parent: the task of a link never is its own ancestor.
abbrev pub IsAcyclic : List TaskLink → Type 0
IsAcyclic links = (l : TaskLink) → In l links → ¬ Down links l.child_id l.parent_id

pub IsAcyclic-nil : IsAcyclic []
IsAcyclic-nil l m = absurd m

module _ (links : List TaskLink) (new : TaskLink) where
  -- A path with one more link is an old path, or goes through the new link.
  Down-append :
      {a b : String}
      → Down (links ++ new ∷ []) a b
      → Down links a b ⊎ (Down links a new.parent_id × Down links new.child_id b)
  Down-append here = inl here
  Down-append {a} {b} (along l m e r) = elim (Down-append r) [
    | inl old ↦ elim (In-append_cases l links (new ∷ []) m) [
      | inl i ↦ inl (along l i e old)
      | inr (inl n) ↦ inr (
        subst (λ x. Down links a x) (sym (e' n)) here,
        subst (λ x. Down links x b) (sym (child n)) old,
      )
      | inr (inr x) ↦ absurd x
    ]
    | inr (x, y) ↦ elim (In-append_cases l links (new ∷ []) m) [
      | inl i ↦ inr (along l i e x, y)
      | inr (inl n) ↦ inr (subst (λ z. Down links a z) (sym (e' n)) here, y)
      | inr (inr z) ↦ absurd z
    ]
  ]
    where
      e' : new ≡ l → new.parent_id ≡ a
      e' n = cc

      child : new ≡ l → new.child_id ≡ l.child_id
      child n = cc

  -- A link whose child does not lead to its parent can be added.
  pub IsAcyclic-append :
      IsAcyclic links → ¬ Down links new.child_id new.parent_id → IsAcyclic (links ++ new ∷ [])
  IsAcyclic-append old free l m cycle = elim (In-append_cases l links (new ∷ []) m) [
    | inl i ↦ elim (Down-append cycle) [
      | inl p ↦ old l i p
      | inr (x, y) ↦ free (Reach-trans y (along l i refl x))
    ]
    | inr (inl e) ↦
        elim (Down-append
          (subst (λ k. Down (links ++ new ∷ []) k.child_id k.parent_id) (sym e) cycle)) [
            | inl p ↦ free p
            | inr (x, y) ↦ free x
          ]
    | inr (inr z) ↦ absurd z
  ]

-- Every link of the first list has the ends of a link of the second.
abbrev pub EndsWithin : List TaskLink → List TaskLink → Type 0
EndsWithin less more =
    (l : TaskLink)
    → In l less
    → (k : TaskLink) × In k more × (k.parent_id ≡ l.parent_id) × (k.child_id ≡ l.child_id)

Down-within :
    {less more : List TaskLink} {a b : String}
    → EndsWithin less more
    → Down less a b
    → Down more a b
Down-within w here = here
Down-within {more = more} {b = b} w (along l m e r) =
    let (k, i, p, c) = w l m in
    along k i (p ∙ e) (subst (λ x. Down more x b) (sym c) (Down-within w r))

-- Links may be taken away, and their conditions changed.
pub IsAcyclic-within :
    {less more : List TaskLink} → EndsWithin less more → IsAcyclic more → IsAcyclic less
IsAcyclic-within {less} {more} w old l m cycle =
    let (k, i, p, c) = w l m in
    old k i (
      subst (λ x. Down more x k.parent_id) (sym c)
        (subst (λ x. Down more l.child_id x) (sym p) (Down-within w cycle)))

-- From a task that is no link's parent, a path leads only to itself.
pub Down-leaf :
    {links : List TaskLink} {a b : String}
    → ((l : TaskLink) → In l links → l.parent_id ≢ a)
    → Down links a b
    → a ≡ b
Down-leaf leaf here = refl
Down-leaf leaf (along l m e r) = absurd (leaf l m e)
