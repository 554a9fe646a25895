-- ===== src/Workflow/Cycles/Visit.antt =====
-- The search of _detect_workflow_cycles in orchestration/workflow.py: where it finds no cycle, a task is
-- coloured BLACK after all its dependencies.
use simple_a2a_registry.Workflow.{WorkflowDependency, WorkflowTaskSpec, find_spec}
use simple_a2a_registry.Workflow.Edges.{ids_of}
use simple_a2a_registry.Workflow.Order.{undone, undone_taken, undone_none}
use simple_a2a_registry.Workflow.Sorted.{AreBefore}
use simple_a2a_registry.Workflow.Cycles.{Search, visit_dep, visit_deps, enter, leave, visit_node}
use simple_a2a_registry.Prelude.{
  ℕ, zero, suc, arith, ◌≤◌, ◌≡◌, ◌⊎◌, inl, inr, refl, sym, ◌∙◌, subst, String, false, none, some,
  List, [], ◌∷◌, ◌++◌, contains, contains→In, In→contains, In, Bool-cases, Option-cases, some_inj,
}

-- The newest first, each id stands before its dependencies.
abbrev pub IsTopological : List WorkflowTaskSpec → List String → Type 0
IsTopological tasks [] = Unit
IsTopological tasks (n ∷ ns) =
    ((t : WorkflowTaskSpec) → find_spec n tasks ≡ some t → AreBefore (ids_of tasks) ns t.depends_on)
    × IsTopological tasks ns

-- What a part of the search does to what it starts from.
pub record Grows (tasks : List WorkflowTaskSpec) (s t : Search) : Type 0 where
  pub clean : t.cycles ≡ [] → s.cycles ≡ []
  pub entered_in : (k : String) → In k s.entered → In k t.entered
  pub black_in : (k : String) → In k s.blackened → In k t.blackened
  pub settled : (k : String) → In k t.entered → In k s.entered ⊎ In k t.blackened
  pub topological :
      (s.cycles ≡ [] → IsTopological tasks s.blackened)
      → t.cycles ≡ []
      → IsTopological tasks t.blackened

pub Grows-refl : (tasks : List WorkflowTaskSpec) (s : Search) → Grows tasks s s
Grows-refl tasks s = record {
  clean = λ e. e;
  entered_in = λ k m. m;
  black_in = λ k m. m;
  settled = λ k m. inl m;
  topological = λ h. h;
}

Grows-noted :
    (tasks : List WorkflowTaskSpec) (s : Search) (parents : List (String × String))
    → Grows tasks s (record s { parent = parents })
Grows-noted tasks s parents = record {
  clean = λ e. e;
  entered_in = λ k m. m;
  black_in = λ k m. m;
  settled = λ k m. inl m;
  topological = λ h. h;
}

pub Grows-trans :
    (tasks : List WorkflowTaskSpec) (s t u : Search)
    → Grows tasks s t
    → Grows tasks t u
    → Grows tasks s u
Grows-trans tasks s t u g h = record {
  clean = λ e. g.clean (h.clean e);
  entered_in = λ k m. h.entered_in k (g.entered_in k m);
  black_in = λ k m. h.black_in k (g.black_in k m);
  settled = λ k m. elim (h.settled k m) [
    | inl i ↦ elim (g.settled k i) [ inl j ↦ inl j | inr b ↦ inr (h.black_in k b) ]
    | inr b ↦ inr b
  ];
  topological = λ top. h.topological (g.topological top);
}

pub undone_fewer :
    (before after : List String) (ids : List String)
    → ((k : String) → In k before → In k after)
    → undone after ids ≤ undone before ids
unfolding undone
undone_fewer before after [] h = omega arith
undone_fewer before after (i ∷ ids) h =
    let ih = undone_fewer before after ids h in
    elim (Bool-cases (contains before i)) [
      | inl b ↦ rw (b, In→contains after i (h i (contains→In before i b))) (omega arith)
      | inr o ↦ elim (Bool-cases (contains after i)) [
        | inl a ↦ rw (o, a) (omega arith)
        | inr a ↦ rw (o, a) (omega arith)
      ]
    ]

-- What the recursive call is good for: from a state with few enough ids left, it colours its node BLACK
-- unless a cycle is found.
abbrev pub Visits : List WorkflowTaskSpec → ℕ → (String → Search → Search) → Type 0
Visits tasks fuel visit =
    (node : String) (s : Search)
    → In node (ids_of tasks)
    → contains s.entered node ≡ false
    → undone s.entered (ids_of tasks) ≤ fuel
    → Grows tasks s (visit node s) × ((visit node s).cycles ≡ [] → In node (visit node s).blackened)

not_nil : {A C : Type 0} (xs : List A) (a : A) → xs ++ a ∷ [] ≡ [] → C
not_nil [] a e = cc
not_nil (x ∷ xs) a e = cc

module _ (tasks : List WorkflowTaskSpec) (fuel : ℕ) (visit : String → Search → Search)
    (good : Visits tasks fuel visit) (node : String) where
  visit_dep_lem :
      (dep : String) (s : Search)
      → undone s.entered (ids_of tasks) ≤ fuel
      → Grows tasks s (visit_dep visit (ids_of tasks) node dep s)
        × ((visit_dep visit (ids_of tasks) node dep s).cycles ≡ []
            → (contains (ids_of tasks) dep ≡ false)
              ⊎ In dep (visit_dep visit (ids_of tasks) node dep s).blackened)
  unfolding visit_dep
  visit_dep_lem dep s few = elim (Bool-cases (contains (ids_of tasks) dep)) [
    | inr gone ↦ rw gone (Grows-refl tasks s, λ e. inl refl)
    | inl here ↦ elim (Bool-cases (contains s.blackened dep)) [
      | inl b ↦ rw (here, b) (Grows-refl tasks s, λ e. inr (contains→In s.blackened dep b))
      | inr o ↦ elim (Bool-cases (contains s.entered dep)) [
        | inl g ↦
            rw (here, o, g)
              (
                record {
                  clean = λ e. not_nil s.cycles _ e;
                  entered_in = λ k m. m;
                  black_in = λ k m. m;
                  settled = λ k m. inl m;
                  topological = λ h e. not_nil s.cycles _ e;
                },
                λ e. not_nil s.cycles _ e,
              )
        | inr w ↦
            let noted : Search = record s { parent = (dep, node) ∷ s.parent } in
            let (grows, seen) = good dep noted (contains→In (ids_of tasks) dep here) w few in
            rw (here, o, w)
              (
                Grows-trans tasks s noted (visit dep noted) (Grows-noted tasks s _) grows,
                λ e. inr (seen e),
              )
      ]
    ]
  ]

  visit_deps_lem :
      (deps : List WorkflowDependency) (s : Search)
      → undone s.entered (ids_of tasks) ≤ fuel
      → Grows tasks s (visit_deps visit (ids_of tasks) node deps s)
        × ((visit_deps visit (ids_of tasks) node deps s).cycles ≡ []
            → AreBefore (ids_of tasks) (visit_deps visit (ids_of tasks) node deps s).blackened deps)
  unfolding visit_deps
  visit_deps_lem [] s few = (Grows-refl tasks s, λ e. tt)
  visit_deps_lem (dep ∷ deps) s few =
      let (first, seen) = visit_dep_lem dep.task s few in
      let (later, before) =
        visit_deps_lem deps (visit_dep visit (ids_of tasks) node dep.task s)
          (omega (arith, undone_fewer s.entered _ (ids_of tasks) first.entered_in, few)) in
      (
        Grows-trans tasks s _ _ first later,
        λ e. (
          elim (seen (later.clean e)) [
            | inl gone ↦ inl gone
            | inr m ↦ inr (later.black_in dep.task m)
          ],
          before e,
        ),
      )

-- A node is coloured GRAY before a part of the search and BLACK after it.
Grows-around :
    (tasks : List WorkflowTaskSpec) (node : String) (s u : Search)
    → Grows tasks (enter node s) u
    → (u.cycles ≡ []
        → (t : WorkflowTaskSpec) → find_spec node tasks ≡ some t
        → AreBefore (ids_of tasks) u.blackened t.depends_on)
    → Grows tasks s (leave node u)
Grows-around tasks node s u g ready = record {
  clean = g.clean;
  entered_in = λ k m. g.entered_in k (inr m);
  black_in = λ k m. inr (g.black_in k m);
  settled = λ k m. elim (g.settled k m) [
    | inl (inl e) ↦ inr (inl e)
    | inl (inr i) ↦ inl i
    | inr b ↦ inr (inr b)
  ];
  topological = λ h e. (ready e, g.topological h e);
}

visit_node_found :
    (fuel : ℕ) (tasks : List WorkflowTaskSpec) (node : String) (s : Search) (t : WorkflowTaskSpec)
    → find_spec node tasks ≡ some t
    → visit_node (suc fuel) tasks node s
      ≡ leave node
          (visit_deps (visit_node fuel tasks) (ids_of tasks) node t.depends_on (enter node s))
unfolding visit_node
visit_node_found fuel tasks node s t found = rw (visit_node, found) refl

visit_node_absent :
    (fuel : ℕ) (tasks : List WorkflowTaskSpec) (node : String) (s : Search)
    → find_spec node tasks ≡ none
    → visit_node (suc fuel) tasks node s ≡ leave node (enter node s)
unfolding visit_node
visit_node_absent fuel tasks node s absent = rw (visit_node, absent) refl

-- The search from a node that is WHITE.
pub visit_node-Visits :
    (tasks : List WorkflowTaskSpec) (fuel : ℕ) → Visits tasks fuel (visit_node fuel tasks)
unfolding visit_node
visit_node-Visits tasks zero node s m w few =
    cc (w, In→contains s.entered node (undone_none s.entered node (ids_of tasks) few m))
visit_node-Visits tasks (suc fuel) node s m w few = elim (Option-cases (find_spec node tasks)) [
  | inl absent ↦ rw (visit_node_absent fuel tasks node s absent) (
    Grows-around tasks node s (enter node s) (Grows-refl tasks (enter node s))
        (λ e t found. cc (absent, found)),
    λ e. inl refl,
  )
  | inr (t, found) ↦
      let fewer = undone_taken s.entered node (ids_of tasks) m w in
      let (grows, before) =
        visit_deps_lem tasks fuel (visit_node fuel tasks) (visit_node-Visits tasks fuel) node
          t.depends_on (enter node s) (omega arith) in
      rw (visit_node_found fuel tasks node s t found) (
        Grows-around tasks node s _ grows (λ e u same.
            subst
              (λ (x : WorkflowTaskSpec).
                AreBefore (ids_of tasks)
                  (visit_deps (visit_node fuel tasks) (ids_of tasks) node t.depends_on
                    (enter node s)).blackened
                  x.depends_on)
              (some_inj (sym found ∙ same)) (before e)),
        λ e. inl refl,
      )
]
