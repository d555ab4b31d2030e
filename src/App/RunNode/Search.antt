-- ===== src/App/RunNode/Search.antt =====
-- app/graph.go: recomputeNeeded finds the missing nodes on which the target depends, and ends.
use skyhookml.Prelude.{
  Dict, lookup, keys, contains, Distinct, ◌==◌, nat_eq, text_eq, pair_eq, ℕ, zero, suc, ◌+◌, ◌<◌,
  ◌≡◌, refl, sym, ap, subst, ◌∙◌, ◌⊎◌, inl, inr, true, none, some, List, [], ◌∷◌, arith, Bool-cases,
  Option-cases, ◌>>=◌, length,
}
use skyhookml.Graph.Node.{GraphId, graph_id_eq, Node, exec, VirtualNode}
use skyhookml.Graph.Hash.Order.{contains-lookup, lookup-contains}
use skyhookml.App.Incorporate.Parents.{Grows-contains, absent}
use skyhookml.App.Incorporate.Result.{length-keys, absent-le}
use skyhookml.App.RunNode.{
  State, virtual_node, parent_ids, add_missing, search_needed, recompute_needed,
}
use skyhookml.App.RunNode.Needed.{IsCovered, IsCovered-Grows, Collected, add_missing-Collected}

-- The target depends on a node through missing nodes.
pub data Depends (missing : Dict GraphId Node) (target : GraphId) : GraphId → Type 0 where
  itself : Depends missing target target
  parent :
      (id p : GraphId) (vnode : VirtualNode)
      → Depends missing target id
      → lookup id missing ≡ some (exec vnode)
      → contains (parent_ids vnode.parents) p ≡ true
      → contains (keys missing) p ≡ true
      → Depends missing target p

-- All of them can be run.
abbrev pub AllExec : Dict GraphId Node → Type 0
AllExec missing =
    (id : GraphId) (node : Node)
    → lookup id missing ≡ some node
    → (vnode : VirtualNode) × (node ≡ exec vnode)

-- Between two rounds.
pub record IsSearch (missing : Dict GraphId Node) (target : GraphId) (q : List GraphId)
    (needed : Dict GraphId Node) : Type 0 where
  pub sound : (id : GraphId) → contains (keys needed) id ≡ true → Depends missing target id
  pub same :
      (id : GraphId) (node : Node) → lookup id needed ≡ some node → lookup id missing ≡ some node
  pub waits :
      (id : GraphId) (vnode : VirtualNode)
      → lookup id needed ≡ some (exec vnode)
      → (contains q id ≡ true) ⊎ IsCovered missing needed (parent_ids vnode.parents)
  pub stored : (id : GraphId) → contains q id ≡ true → contains (keys needed) id ≡ true
  pub has_target : contains (keys needed) target ≡ true
  pub distinct : Distinct (keys needed)

pub IsCovered-contains :
    (missing needed : Dict GraphId Node) (ids : List GraphId) (p : GraphId)
    → IsCovered missing needed ids
    → contains ids p ≡ true
    → contains (keys missing) p ≡ true
    → contains (keys needed) p ≡ true
IsCovered-contains missing needed [] p all c m = cc
IsCovered-contains missing needed (i ∷ ids) p all c m = elim (Bool-cases (i == p)) [
  | inl same ↦
      let i≡ = (graph_id_eq.test_iff i p).0 same in
      subst (λ j. contains (keys needed) j ≡ true) i≡
        (all.0 (subst (λ j. contains (keys missing) j ≡ true) (sym i≡) m))
  | inr other ↦ IsCovered-contains missing needed ids p all.1 (ground (arith, c, other)) m
]

module _ (missing : Dict GraphId Node) (target : GraphId) where
  -- A search that has ended has found every node.
  pub IsSearch-Depends :
      (needed : Dict GraphId Node) (id : GraphId)
      → IsSearch missing target [] needed
      → Depends missing target id
      → contains (keys needed) id ≡ true
  IsSearch-Depends needed id s itself = s.has_target
  IsSearch-Depends needed id s (parent child p vnode d found c m) =
      let (node, e) = contains-lookup needed child (IsSearch-Depends needed child s d) in
      let same : lookup child needed ≡ some (exec vnode) = e ∙ sym (s.same child node e) ∙ found in
      elim (s.waits child vnode same) [
        | inl queued ↦ cc
        | inr all ↦ IsCovered-contains missing needed (parent_ids vnode.parents) p all c m
      ]

  -- One round.
  IsSearch-step :
      (cur : GraphId) (q : List GraphId) (needed : Dict GraphId Node) (vnode : VirtualNode)
      (needed' : Dict GraphId Node) (q' : List GraphId)
      → IsSearch missing target (cur ∷ q) needed
      → lookup cur needed ≡ some (exec vnode)
      → Collected missing (parent_ids vnode.parents) needed q needed' q'
      → IsSearch missing target q' needed'
  IsSearch-step cur q needed vnode needed' q' s found c = record {
    sound = λ id h.
        let (node, e) = contains-lookup needed' id h in
        elim (c.fresh id node e) [
          | inl old ↦ s.sound id (lookup-contains needed id node old)
          | inr (from, is_parent, queued) ↦
              parent cur id vnode
                (s.sound cur (s.stored cur (ground (arith, graph_id_eq.test_iff cur cur))))
                (s.same cur (exec vnode) found) is_parent (lookup-contains missing id node from)
        ];
    same = λ id n e. elim (c.fresh id n e) [
      | inl old ↦ s.same id n old
      | inr (from, is_parent, queued) ↦ from
    ];
    waits = λ id v e. elim (c.fresh id (exec v) e) [
      | inr (from, is_parent, queued) ↦ inl queued
      | inl old ↦ elim (s.waits id v old) [
        | inr all ↦ inr (IsCovered-Grows missing needed needed' (parent_ids v.parents) c.grows all)
        | inl queued ↦ elim (Bool-cases (cur == id)) [
          | inr other ↦ inl (c.keeps id (ground (arith, queued, other)))
          | inl same ↦
              let cur≡ = (graph_id_eq.test_iff cur id).0 same in
              let v≡ : some (exec vnode) ≡ some (exec v) =
                sym found ∙ ap (λ i. lookup i needed) cur≡ ∙ old in
              let v≡' : vnode ≡ v = cc in
              inr (subst (λ w. IsCovered missing needed' (parent_ids w.parents)) v≡' c.covered)
        ]
      ]
    ];
    stored = λ id h.
        ground (arith, c.queued id h, s.stored id, Grows-contains needed needed' id c.grows);
    has_target = Grows-contains needed needed' target c.grows s.has_target;
    distinct = c.distinct s.distinct;
  }

  search_needed-ends :
      (fuel : ℕ) (q : List GraphId) (needed : Dict GraphId Node)
      → AllExec missing
      → IsSearch missing target q needed
      → length q + absent (keys missing) needed < fuel
      → (needed' : Dict GraphId Node) × (search_needed fuel missing q needed ≡ some needed')
        × IsSearch missing target [] needed'
  unfolding search_needed virtual_node
  search_needed-ends zero q needed execs s enough = absurd (omega (arith, enough))
  search_needed-ends (suc fuel) [] needed execs s enough = (needed, refl, s)
  search_needed-ends (suc fuel) (cur ∷ q) needed execs s enough =
      let (node, found) =
        contains-lookup needed cur (s.stored cur (ground (arith, graph_id_eq.test_iff cur cur))) in
      let (vnode, node≡) = execs cur node (s.same cur node found) in
      let found' : lookup cur needed ≡ some (exec vnode) = found ∙ ap some node≡ in
      let c = add_missing-Collected missing (parent_ids vnode.parents) needed q in
      let (needed', run, s') =
        search_needed-ends fuel (add_missing missing (parent_ids vnode.parents) needed q).1
          (add_missing missing (parent_ids vnode.parents) needed q).0 execs
          (IsSearch-step cur q needed vnode _ _ s found' c) (omega (arith, c.less, enough)) in
      (needed', rw found' run, s')

  start :
      (node : Node)
      → lookup target missing ≡ some node
      → IsSearch missing target (target ∷ []) ((target, node) ∷ [])
  start node found = record {
    sound = λ id c.
        subst (Depends missing target) ((graph_id_eq.test_iff target id).0 (ground (arith, c)))
          itself;
    same = λ id n e. elim (Bool-cases (target == id)) [
      | inr other ↦ absurd (ground (arith, e, other))
      | inl same ↦
          let id≡ = (graph_id_eq.test_iff target id).0 same in
          let n≡ : node ≡ n = ground (arith, e, same) in
          ap (λ i. lookup i missing) (sym id≡) ∙ found ∙ ap some n≡
    ];
    waits = λ id v e. inl (ground (arith, e));
    stored = λ id c. c;
    has_target = ground (arith, graph_id_eq.test_iff target target);
    distinct = (refl, tt);
  }

pub search_ends :
    (fuel : ℕ) (target : GraphId) (node : Node) (s : State)
    → AllExec s.missing
    → lookup target s.missing ≡ some node
    → 1 + length s.missing < fuel
    → (needed : Dict GraphId Node) × (recompute_needed fuel target s
        ≡ some (record s { needed = needed }))
      × IsSearch s.missing target [] needed
unfolding recompute_needed
search_ends fuel target node s execs found enough =
    let (needed, run, done) =
      search_needed-ends s.missing target fuel (target ∷ []) ((target, node) ∷ []) execs
        (start s.missing target node found)
        (omega (
          arith,
          enough,
          length-keys s.missing,
          absent-le (keys s.missing) ((target, node) ∷ []),
        )) in
    (
      needed,
      rw (found, recompute_needed) (ap (λ o. o >>= λ n. some (record s { needed = n })) run),
      done,
    )

-- The search for needed nodes ends, with a fuel above one more than the number of missing nodes,
-- where the target is missing and no missing node is a dataset. An id is needed exactly if the
-- target depends on it through missing nodes, and its node is the missing one.
pub recompute_needed_lem :
    (fuel : ℕ) (target id : GraphId) (node : Node) (s : State)
    → AllExec s.missing
    → lookup target s.missing ≡ some node
    → 1 + length s.missing < fuel
    → (needed : Dict GraphId Node) × (recompute_needed fuel target s
        ≡ some (record s { needed = needed }))
      × ((Depends s.missing target id × (lookup id needed ≡ lookup id s.missing))
          ⊎ ((¬ Depends s.missing target id) × (lookup id needed ≡ none)))
recompute_needed_lem fuel target id node s execs found enough =
    let (needed, run, done) = search_ends fuel target node s execs found enough in
    (
      needed,
      run,
      elim (Option-cases (lookup id needed)) [
        | inr (n, e) ↦
            inl (done.sound id (lookup-contains needed id n e), e ∙ sym (done.same id n e))
        | inl e ↦ inr (
          λ d.
              let (n, f) =
                contains-lookup needed id (IsSearch-Depends s.missing target needed id done d) in
              cc,
          e,
        )
      ],
    )
