-- ===== src/App/RunNode/Result.antt =====
-- app/graph.go: RunNode's loop runs every needed node once, after its parents, and ends.
use skyhookml.Prelude.{
  Dict, lookup, keys, contains, Distinct, keys-lookup, lookup-keys, ◌==◌, Text, nat_eq, text_eq,
  pair_eq, ℕ, zero, suc, ◌+◌, ◌≤◌, ◌<◌, ◌≡◌, refl, sym, ap, subst, ◌∙◌, ◌⊎◌, inl, inr, true, false,
  none, some, List, [], ◌∷◌, ◌++◌, append-nil, append_assoc, arith, ltb, ltb→lt, lt→ltb, ltb→le,
  Bool-cases, length, length-append,
}
use skyhookml.Graph.Node.{GraphId, graph_id_eq, Node, exec, VirtualNode}
use skyhookml.Graph.Hash.Order.{IsOrder}
use skyhookml.Graph.Hash.Rounds.{AllIn}
use skyhookml.App.RunNode.{
  Inputs, Run, State, Outside, parent_ids, available, ok, failed, round, rounds,
}
use skyhookml.App.RunNode.Plan.{run_ids, AllNeeded, InOrder, IsPlan, IsAt, IsAt-refl, all_available}
use skyhookml.App.RunNode.Rounds.{Failure, round-Pass}

-- Go ranges over each entry once.
abbrev pub IsRange : Dict GraphId Node → List (GraphId × Node) → Type 0
IsRange needed order = IsOrder needed order × Distinct (keys order)

least :
    (rank : GraphId → ℕ) (id : GraphId) (node : Node) (m : Dict GraphId Node)
    → (j : GraphId) × (contains (keys ((id, node) ∷ m)) j ≡ true)
      × ((k : GraphId) → contains (keys ((id, node) ∷ m)) k ≡ true → rank j ≤ rank k)
least rank id node [] = (
  id,
  ground (arith, graph_id_eq.test_iff id id),
  λ k c.
      let same = (graph_id_eq.test_iff id k).0 (ground (arith, c)) in
      subst (λ i. rank id ≤ rank i) same (omega arith),
)
least rank id node ((i, n) ∷ m) =
    let (j, c, below) = least rank i n m in
    elim (Bool-cases (ltb (rank id) (rank j))) [
      | inl lt ↦ (
        id,
        ground (arith, graph_id_eq.test_iff id id),
        λ k h. elim (Bool-cases (id == k)) [
          | inl same ↦
              subst (λ x. rank id ≤ rank x) ((graph_id_eq.test_iff id k).0 same) (omega arith)
          | inr other ↦
              omega (arith, below k (ground (arith, h, other)), ltb→lt (rank id) (rank j) lt)
        ],
      )
      | inr ge ↦ (
        j,
        ground (arith, c),
        λ k h. elim (Bool-cases (id == k)) [
          | inl same ↦
              subst (λ x. rank j ≤ rank x) ((graph_id_eq.test_iff id k).0 same)
                (ltb→le (rank id) (rank j) ge)
          | inr other ↦ below k (ground (arith, h, other))
        ],
      )
    ]

list_cases {ℓ} :
    {A : Type ℓ} (xs : List A) → (xs ≡ []) ⊎ ((x : A) × (rest : List A) × (xs ≡ x ∷ rest))
list_cases [] = inl refl
list_cases (x ∷ xs) = inr (x, xs, refl)

contains-run_ids :
    (runs : List Run) (id : GraphId) → contains (run_ids runs) id ≡ true → 1 ≤ length runs
contains-run_ids [] id c = cc
contains-run_ids (r ∷ runs) id c = omega arith

AllIn-lookup :
    (needed order : Dict GraphId Node) (id : GraphId) (node : Node)
    → AllIn needed order
    → lookup id order ≡ some node
    → lookup id needed ≡ some node
AllIn-lookup needed [] id node all e = cc
AllIn-lookup needed ((j, n) ∷ order) id node all e = elim (Bool-cases (j == id)) [
  | inr other ↦ AllIn-lookup needed order id node all.1 (ground (arith, e, other))
  | inl same ↦
      let n≡ : n ≡ node = ground (arith, e, same) in
      ap (λ i. lookup i needed) (sym ((graph_id_eq.test_iff j id).0 same)) ∙ all.0 ∙ ap some n≡
]

in_range :
    (needed order : Dict GraphId Node) (id : GraphId) (node : Node)
    → IsOrder needed order
    → lookup id needed ≡ some node
    → lookup id order ≡ some node
in_range needed order id node range found =
    let (n, e) = keys-lookup id order (range.1 id (lookup-keys id needed node found)) in
    let n≡ : some n ≡ some node = sym (AllIn-lookup needed order id n range.0 e) ∙ found in e ∙ n≡

some_needed :
    (m : Dict GraphId Node) (i : GraphId) (node : Node) (needed : Dict GraphId Node)
    → m ≡ (i, node) ∷ needed
    → ltb 0 (length m) ≡ true
some_needed [] i node needed e = cc
some_needed ((j, n) ∷ m) i node needed e = lt→ltb 0 (suc (length m)) (omega arith)

module _ (o : Outside) (rank : GraphId → ℕ) (s : State) (plan : IsPlan o rank s)
    (simple : (history : List Run) (v : VirtualNode) (inputs : Inputs)
      → o.resolve history v inputs ≡ none)
    (ranges : (n : ℕ) (t : State)
      → Distinct (keys t.needed)
      → IsRange t.needed (o.range_needed n t))
    (fuel : ℕ) (target : GraphId) where
  -- While nodes are needed, one of them can be run.
  ready_node :
      (runs : List Run) (t : State) (i : GraphId) (node : Node) (needed : Dict GraphId Node)
      → IsAt s runs t
      → t.needed ≡ (i, node) ∷ needed
      → (id : GraphId) × (vnode : VirtualNode) × (lookup id t.needed ≡ some (exec vnode))
        × (available t.ready (parent_ids vnode.parents) ≡ true)
  ready_node runs t i node needed at e =
      let (id, c, below) = least rank i node needed in
      let (n, found) =
        keys-lookup id t.needed (subst (λ m. contains (keys m) id ≡ true) (sym e) c) in
      let start : lookup id s.needed ≡ some n = ground (arith, at.remaining id, found) in
      let (vnode, n≡) = plan.execs id n start in
      let start' = start ∙ ap some n≡ in
      (
        id,
        vnode,
        found ∙ ap some n≡,
        all_available t.ready (parent_ids vnode.parents) (λ p h.
            elim (Bool-cases (contains (keys t.needed) p)) [
              | inl waits ↦ absurd (
                  omega (
                    arith,
                    plan.ranked id p vnode start' h,
                    below p (subst (λ m. contains (keys m) p ≡ true) e waits),
                  ))
              | inr gone ↦ elim (Bool-cases (contains (keys s.needed) p)) [
                | inr never ↦ ground (arith, plan.closed id p vnode start' h, never, at.available p)
                | inl before ↦
                    let (m, f) = keys-lookup p s.needed before in
                    elim (Bool-cases (contains (run_ids runs) p)) [
                      | inl ran ↦ ground (arith, ran, at.available p)
                      | inr not_run ↦
                          let still : lookup p t.needed ≡ some m =
                            ground (arith, at.remaining p, f, not_run) in
                          absurd (ground (arith, lookup-keys p t.needed m still, gone))
                    ]
              ]
            ]),
      )

  abbrev End : ℕ → List Run → State → Type 0
  End n runs t =
      (more : List Run) × (t' : State) × IsAt s (more ++ runs) t'
      × (((err : Text) × (rounds o n fuel target t ≡ some (failed err t')) × Failure o t' err)
          ⊎ ((rounds o n fuel target t ≡ some (ok t')) × (t'.needed ≡ [])))

  round-End :
      (n : ℕ) (t t' : State) (i : GraphId) (node : Node) (needed : Dict GraphId Node)
      → t.needed ≡ (i, node) ∷ needed
      → round o fuel target (o.range_needed n t) t ≡ some (ok t')
      → rounds o (suc n) fuel target t ≡ rounds o n fuel target t'
  unfolding rounds
  round-End n t t' i node needed e run =
      let some_left = some_needed t.needed i node needed e in rw (some_left, run) refl

  round-fails :
      (n : ℕ) (t t' : State) (i : GraphId) (node : Node) (needed : Dict GraphId Node) (err : Text)
      → t.needed ≡ (i, node) ∷ needed
      → round o fuel target (o.range_needed n t) t ≡ some (failed err t')
      → rounds o (suc n) fuel target t ≡ some (failed err t')
  unfolding rounds
  round-fails n t t' i node needed err e run =
      let some_left = some_needed t.needed i node needed e in rw (some_left, run) refl

  round-done : (n : ℕ) (t : State) → t.needed ≡ [] → rounds o (suc n) fuel target t ≡ some (ok t)
  unfolding rounds
  round-done n t e =
      let none_left : ltb 0 (length t.needed) ≡ false = ap (λ m. ltb 0 (length m)) e in
      rw none_left refl

  rounds-End :
      (n : ℕ) (runs : List Run) (t : State)
      → IsAt s runs t
      → length s.needed < n + length runs
      → End n runs t
  rounds-End zero runs t at enough = absurd (omega (arith, enough, at.fewer))
  rounds-End (suc n) runs t at enough = elim (list_cases t.needed) [
    | inl e ↦ ([], t, at, inr (round-done n t e, e))
    | inr ((i, node), needed, e) ↦
        let range = ranges n t at.entries in
        let (more, t', at', pass) =
          round-Pass o rank s plan simple fuel target (o.range_needed n t) runs t at range.0.0
            range.1 in
        elim pass [
          | inl (err, run, why) ↦
              (more, t', at', inl (err, round-fails n t t' i node needed err e run, why))
          | inr (run, all) ↦
              let (id, vnode, found, avail) = ready_node runs t i node needed at e in
              let in_order = in_range t.needed (o.range_needed n t) id (exec vnode) range.0 found in
              let some_run = contains-run_ids more id (all id vnode in_order avail) in
              let (more', last, at'', end) =
                rounds-End n (more ++ runs) t' at'
                  (omega (arith, enough, some_run, length-append more runs)) in
              let next = round-End n t t' i node needed e run in
              (
                more' ++ more,
                last,
                subst (λ rs. IsAt s rs last) (sym (append_assoc more' more runs)) at'',
                elim end [
                  | inl (err, stop, why) ↦ inl (err, next ∙ stop, why)
                  | inr (stop, none_left) ↦ inr (next ∙ stop, none_left)
                ],
              )
        ]
  ]

  -- The loop over the needed nodes ends, with a fuel above the number of needed nodes, whatever
  -- the orders in which Go ranges over them, if no op resolves to a subgraph, and if what is
  -- needed can be run: no node is a dataset, its original node is loaded, its parents are ready
  -- or needed and can be ranked before it, and have the outputs that it reads. Whether it fails
  -- or not, each run is that of the needed node with its id, no node is run twice, and each is
  -- run after its parents. They are all of the needed nodes, or else a node that is still needed
  -- and whose parents are ready has failed on the datasets of its parents, and the error is its
  -- error.
  pub rounds_lem :
      (n : ℕ) (id : GraphId)
      → length s.needed < n
      → (runs : List Run) × (t : State) × (t.history ≡ runs ++ s.history)
        × AllNeeded s.needed runs
        × Distinct (run_ids runs)
        × InOrder s.ready runs
        × (((err : Text) × (rounds o n fuel target s ≡ some (failed err t)) × Failure o t err)
            ⊎ ((rounds o n fuel target s ≡ some (ok t))
                × (contains (run_ids runs) id ≡ contains (keys s.needed) id)))
  rounds_lem n id enough =
      let (more, t, at', end) =
        rounds-End n [] s (IsAt-refl o rank s plan) (omega (arith, enough)) in
      let at = subst (λ rs. IsAt s rs t) (append-nil more) at' in
      (
        more,
        t,
        at.since,
        at.nodes,
        at.distinct,
        at.ordered,
        elim end [
          | inl stop ↦ inl stop
          | inr (stop, none_left) ↦ inr (stop, all_run more t at none_left)
        ],
      )
    where
      all_run :
          (runs : List Run) (t : State)
          → IsAt s runs t
          → t.needed ≡ []
          → contains (run_ids runs) id ≡ contains (keys s.needed) id
      all_run runs t at e = elim (Bool-cases (contains (run_ids runs) id)) [
        | inl ran ↦ ran ∙ sym (at.inside id ran)
        | inr not_run ↦ elim (Bool-cases (contains (keys s.needed) id)) [
          | inr never ↦ not_run ∙ sym never
          | inl before ↦
              let (node, found) = keys-lookup id s.needed before in
              let left : lookup id t.needed ≡ some node =
                ground (arith, at.remaining id, found, not_run) in
              let gone : none ≡ some node = ap (lookup id) (sym e) ∙ left in cc
        ]
      ]
