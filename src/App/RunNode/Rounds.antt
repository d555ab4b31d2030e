-- ===== src/App/RunNode/Rounds.antt =====
-- app/graph.go: one pass of RunNode over the needed nodes.
use skyhookml.Prelude.{
  Dict, lookup, insert, remove, keys, contains, Distinct, lookup-remove, contains-keys-insert, ◌==◌,
  Text, nat_eq, text_eq, pair_eq, ℕ, ◌≡◌, refl, sym, ap, subst, ◌∙◌, ◌⊎◌, inl, inr, true, false,
  ◌||◌, none, some, List, [], ◌∷◌, ◌++◌, append_assoc, arith, Bool-cases, Option-cases,
}
use skyhookml.Graph.Node.{GraphId, graph_id_eq, Node, exec, VirtualNode}
use skyhookml.Graph.Hash.Rounds.{AllIn}
use skyhookml.App.RunNode.{
  Outputs, Inputs, Run, State, Outside, parent_ids, available, ok, failed, after_run,
  created_datasets, parent_datasets, visit, round,
}
use skyhookml.App.RunNode.Visit.{run_of, visit_cases}
use skyhookml.App.RunNode.Plan.{run_ids, IsPlan, IsAt, IsAt-run}

-- A needed node with all parents ready has failed with the error, on the datasets of its parents.
abbrev pub Failure : Outside → State → Text → Type 0
Failure o t err =
    (id : GraphId) × (vnode : VirtualNode) × (inputs : Inputs) × (lookup id t.needed
      ≡ some (exec vnode))
    × (available t.ready (parent_ids vnode.parents) ≡ true)
    × (parent_datasets t.ready vnode.parents ≡ some inputs)
    × (o.run t.history (run_of o id vnode inputs t).runnable ≡ some err)

pub run_ids-append :
    (xs ys : List Run) (id : GraphId)
    → contains (run_ids (xs ++ ys)) id ≡ (contains (run_ids xs) id || contains (run_ids ys) id)
run_ids-append [] ys id = refl
run_ids-append (x ∷ xs) ys id = ground (arith, run_ids-append xs ys id)

AllIn-remove :
    (needed order : Dict GraphId Node) (id : GraphId)
    → AllIn needed order
    → contains (keys order) id ≡ false
    → AllIn (remove id needed) order
AllIn-remove needed [] id all c = tt
AllIn-remove needed ((j, n) ∷ order) id all c = (
  ground (
    arith,
    all.0,
    c,
    lookup-remove id j needed,
    graph_id_eq.test_iff id j,
    graph_id_eq.test_iff j id,
  ),
  AllIn-remove needed order id all.1 (ground (arith, c)),
)

available-insert :
    (ready : Dict GraphId Outputs) (id : GraphId) (outputs : Outputs) (ids : List GraphId)
    → available ready ids ≡ true
    → available (insert id outputs ready) ids ≡ true
unfolding available
available-insert ready id outputs [] a = refl
available-insert ready id outputs (p ∷ ids) a =
    ground
      (arith, a, contains-keys-insert id p outputs ready, available-insert ready id outputs ids)

module _ (o : Outside) (rank : GraphId → ℕ) (s : State) (plan : IsPlan o rank s)
    (simple : (history : List Run) (v : VirtualNode) (inputs : Inputs)
      → o.resolve history v inputs ≡ none)
    (fuel : ℕ) (target : GraphId) where
  -- Every node of the order whose parents are ready is run.
  abbrev pub HasRun : List (GraphId × Node) → State → List Run → Type 0
  HasRun order t more =
      (id : GraphId) (vnode : VirtualNode)
      → lookup id order ≡ some (exec vnode)
      → available t.ready (parent_ids vnode.parents) ≡ true
      → contains (run_ids more) id ≡ true

  -- A pass ends in a state after more runs; either a node fails, or all that were ready have been run.
  abbrev pub Pass : List (GraphId × Node) → List Run → State → Type 0
  Pass order runs t =
      (more : List Run) × (t' : State) × IsAt s (more ++ runs) t'
      × (((err : Text) × (round o fuel target order t ≡ some (failed err t')) × Failure o t' err)
          ⊎ ((round o fuel target order t ≡ some (ok t')) × HasRun order t more))

  -- An iteration that ends without an error.
  Pass-cons :
      (id : GraphId) (vnode : VirtualNode) (order : List (GraphId × Node)) (first : List Run)
      (runs : List Run) (t next : State)
      → visit o fuel target id (exec vnode) t ≡ some (ok next)
      → (available t.ready (parent_ids vnode.parents) ≡ true → contains (run_ids first) id ≡ true)
      → ((ids : List GraphId) → available t.ready ids ≡ true → available next.ready ids ≡ true)
      → Pass order (first ++ runs) next
      → Pass ((id, exec vnode) ∷ order) runs t
  unfolding round
  Pass-cons id vnode order first runs t next e now mono (more, t', at, inl (err, run, why)) = (
    more ++ first,
    t',
    subst (λ rs. IsAt s rs t') (sym (append_assoc more first runs)) at,
    inl (err, rw e run, why),
  )
  Pass-cons id vnode order first runs t next e now mono (more, t', at, inr (run, all)) = (
    more ++ first,
    t',
    subst (λ rs. IsAt s rs t') (sym (append_assoc more first runs)) at,
    inr (
      rw e run,
      λ j v f a. elim (Bool-cases (id == j)) [
        | inr other ↦ ground (
          arith,
          run_ids-append more first j,
          all j v (ground (arith, f, other)) (mono (parent_ids v.parents) a),
        )
        | inl same ↦
            let v≡ : some (exec vnode) ≡ some (exec v) = ground (arith, f, same) in
            let v≡' : vnode ≡ v = cc in
            let ran =
              now (subst (λ w. available t.ready (parent_ids w.parents) ≡ true) (sym v≡') a) in
            let ran' =
              subst (λ i. contains (run_ids first) i ≡ true) ((graph_id_eq.test_iff id j).0 same)
                ran in
            ground (arith, run_ids-append more first j, ran')
      ],
    ),
  )

  -- An iteration for a node, and what follows.
  visit-Pass :
      (id : GraphId) (vnode : VirtualNode) (order : List (GraphId × Node)) (runs : List Run)
      (t : State)
      → IsAt s runs t
      → AllIn t.needed ((id, exec vnode) ∷ order)
      → contains (keys order) id ≡ false
      → ((rs : List Run) (t' : State) → IsAt s rs t' → AllIn t'.needed order → Pass order rs t')
      → Pass ((id, exec vnode) ∷ order) runs t
  unfolding round after_run
  visit-Pass id vnode order runs t at all outside rest =
      let start : lookup id s.needed ≡ some (exec vnode) = ground (arith, at.remaining id, all.0) in
      let loaded =
        subst (λ ns. contains ns vnode.orig_node.id ≡ true) (sym at.loaded)
          (plan.loaded id vnode start) in
      elim (visit_cases o fuel target id vnode t simple loaded (at.offered id vnode start)) [
        | inl (waits, e) ↦
            Pass-cons id vnode order [] runs t t e (λ a. absurd (ground (arith, a, waits)))
              (λ ids a. a) (rest runs t at all.1)
        | inr (inputs, read, avail, e) ↦
            let run = run_of o id vnode inputs t in
            elim (Option-cases (o.run t.history run.runnable)) [
              | inr (err, f) ↦ (
                [],
                t,
                at,
                inl (
                  err,
                  rw e (rw (f, after_run) refl),
                  (id, vnode, inputs, all.0, avail, read, f),
                ),
              )
              | inl f ↦
                  let next = record t {
                    ready = insert id (created_datasets o t.history vnode) t.ready;
                    needed = remove id t.needed;
                    history = run ∷ t.history;
                  } in
                  Pass-cons id vnode order (run ∷ []) runs t next
                    (e ∙ ap (λ r. some (after_run r run (created_datasets o t.history vnode) t)) f)
                    (λ a. ground (arith, graph_id_eq.test_iff id id))
                    (available-insert t.ready id (created_datasets o t.history vnode))
                    (rest (run ∷ runs) next
                      (IsAt-run o rank s plan id vnode runs inputs t at all.0 avail)
                      (AllIn-remove t.needed order id all.1 outside))
            ]
      ]

  pub round-Pass :
      (order : List (GraphId × Node)) (runs : List Run) (t : State)
      → IsAt s runs t
      → AllIn t.needed order
      → Distinct (keys order)
      → Pass order runs t
  unfolding round
  round-Pass [] runs t at all d = ([], t, at, inr (refl, λ id v f a. cc))
  round-Pass ((id, cur) ∷ order) runs t at all d =
      let start : lookup id s.needed ≡ some cur = ground (arith, at.remaining id, all.0) in
      let (vnode, cur≡) = plan.execs id cur start in
      subst (λ c. Pass ((id, c) ∷ order) runs t) (sym cur≡)
        (visit-Pass id vnode order runs t at (all.0 ∙ ap some cur≡, all.1) d.0
          (λ rs t' at' all'. round-Pass order rs t' at' all' d.1))
