-- ===== src/App/RunNode/Whole/Conflict.antt =====
-- app/graph.go: RunNode refuses to run exactly the nodes that another pending job is to run.
use skyhookml.Prelude.{
  Dict, lookup_or, insert, contains, Distinct, lookup_or-insert, contains-append, Distinct-append,
  ◌==◌, Text, nat_eq, text_eq, pair_eq, ℕ, ◌≡◌, refl, sym, ap, subst, ◌∙◌, ◌⊎◌, inl, inr, Bool,
  true, false, not, ◌||◌, none, some, List, [], ◌∷◌, ◌++◌, arith, if◌then◌else◌, Bool-cases,
}
use skyhookml.Graph.Node.{GraphId, graph_id_eq, Node, VirtualNode, ExecNode, exec, dataset}
use skyhookml.Item.{Dataset}
use skyhookml.App.RunNode.{virtual_node, Dataset}
use skyhookml.App.RunNode.Whole.{
  add_id, collect_ids, conflict_message, job_conflict, jobs_conflict, conflict_err,
}

-- The nodes can be run, and have a name.
abbrev pub AllNamed : List (GraphId × Node) → Type 0
AllNamed [] = Unit
AllNamed ((gid, cur) ∷ order) =
    ((vnode : VirtualNode) × (cur ≡ exec vnode) × ((vnode.orig_node.name == []) ≡ false))
    × AllNamed order

-- A node with this id is to be run.
abbrev pub node_has : Node → ℕ → Bool
node_has cur id = elim (virtual_node cur) [ none ↦ false | some vnode ↦ vnode.orig_node.id == id ]

abbrev pub to_run : List (GraphId × Node) → ℕ → Bool
to_run [] id = false
to_run ((gid, cur) ∷ order) id = node_has cur id || to_run order id

abbrev pub some_contains : List (List ℕ) → ℕ → Bool
some_contains [] id = false
some_contains (ids ∷ pending) id = contains ids id || some_contains pending id

-- A node with this id and this name is to be run.
abbrev pub HasName : List (GraphId × Node) → ℕ → Text → Type 0
HasName [] id name = ⊥
HasName ((gid, cur) ∷ order) id name =
    ((vnode : VirtualNode) × (cur ≡ exec vnode)
      × (vnode.orig_node.id ≡ id)
      × (vnode.orig_node.name ≡ name))
    ⊎ HasName order id name

-- The names are those of the ids, and P holds of each.
pub record IsCollected (P : ℕ → Text → Type 0) (our_ids : List ℕ) (names : Dict ℕ Text)
    : Type 0 where
  pub from : (id : ℕ) → contains our_ids id ≡ true → P id (lookup_or [] id names)
  pub named : (id : ℕ) → (lookup_or [] id names == []) ≡ not (contains our_ids id)
  pub distinct : Distinct our_ids

collect_step :
    (P : ℕ → Text → Type 0) (our_ids : List ℕ) (names : Dict ℕ Text) (orig_id : ℕ) (name : Text)
    → IsCollected P our_ids names
    → P orig_id name
    → (name == []) ≡ false
    → (lookup_or [] orig_id names == []) ≡ true
    → IsCollected P (our_ids ++ orig_id ∷ []) (insert orig_id name names)
collect_step P our_ids names orig_id name c this full fresh = record {
  from = λ id h. elim (Bool-cases (orig_id == id)) [
    | inl same ↦
        let e : lookup_or [] id (insert orig_id name names) ≡ name =
          ground (arith, lookup_or-insert [] orig_id id name names, same) in
        subst (P id) (sym e) (subst (λ i. P i name) ((nat_eq.test_iff orig_id id).0 same) this)
    | inr other ↦
        let e : lookup_or [] id (insert orig_id name names) ≡ lookup_or [] id names =
          ground (arith, lookup_or-insert [] orig_id id name names, other) in
        subst (P id) (sym e)
          (c.from id (ground (arith, h, other, contains-append our_ids (orig_id ∷ []) id)))
  ];
  named = λ id. elim (Bool-cases (orig_id == id)) [
    | inl same ↦
        let e : lookup_or [] id (insert orig_id name names) ≡ name =
          ground (arith, lookup_or-insert [] orig_id id name names, same) in
        ground (arith, e, full, same, contains-append our_ids (orig_id ∷ []) id)
    | inr other ↦
        let e : lookup_or [] id (insert orig_id name names) ≡ lookup_or [] id names =
          ground (arith, lookup_or-insert [] orig_id id name names, other) in
        ap (λ t. t == []) e
        ∙ c.named id
        ∙ ground (arith, other, contains-append our_ids (orig_id ∷ []) id)
  ];
  distinct =
      Distinct-append our_ids (orig_id ∷ []) c.distinct (refl, tt)
        (λ k h. ground (arith, h, fresh, c.named orig_id, nat_eq.test_iff orig_id k));
}

add_id-IsCollected :
    (P : ℕ → Text → Type 0) (orig : ExecNode) (our_ids : List ℕ) (names : Dict ℕ Text)
    → (orig.name == []) ≡ false
    → P orig.id orig.name
    → IsCollected P our_ids names
    → IsCollected P (add_id orig (our_ids, names)).0 (add_id orig (our_ids, names)).1
      × ((id : ℕ)
          → contains (add_id orig (our_ids, names)).0 id ≡ (contains our_ids id || orig.id == id))
unfolding add_id
add_id-IsCollected P orig our_ids names full this c =
    let choose : Bool → List ℕ × Dict ℕ Text = λ b.
      if b then (our_ids ++ orig.id ∷ [], insert orig.id orig.name names) else (our_ids, names) in
    let Goal : List ℕ × Dict ℕ Text → Type 0 = λ p.
      IsCollected P p.0 p.1
      × ((id : ℕ) → contains p.0 id ≡ (contains our_ids id || orig.id == id)) in
    elim (Bool-cases (lookup_or [] orig.id names == [])) [
      | inl fresh ↦ subst Goal (sym (ap choose fresh)) (
        collect_step P our_ids names orig.id orig.name c this full fresh,
        λ id. ground (arith, contains-append our_ids (orig.id ∷ []) id),
      )
      | inr known ↦
          subst Goal (sym (ap choose known))
            (c, λ id. ground (arith, c.named orig.id, known, nat_eq.test_iff orig.id id))
    ]

collect_ids-IsCollected :
    (P : ℕ → Text → Type 0) (order : List (GraphId × Node)) (our_ids : List ℕ) (names : Dict ℕ Text)
    → AllNamed order
    → ((id : ℕ) (name : Text) → HasName order id name → P id name)
    → IsCollected P our_ids names
    → (ids : List ℕ) × (names' : Dict ℕ Text) × (collect_ids order (our_ids, names)
        ≡ some (ids, names'))
      × IsCollected P ids names'
      × ((id : ℕ) → contains ids id ≡ (contains our_ids id || to_run order id))
unfolding collect_ids virtual_node
collect_ids-IsCollected P [] our_ids names all has_p c =
    (our_ids, names, refl, c, λ id. ground arith)
collect_ids-IsCollected P ((gid, dataset ds) ∷ order) our_ids names all has_p c =
    absurd (not_exec ds all.0.0 all.0.1)
  where
    not_exec : (d : Dataset) (vnode : VirtualNode) → dataset d ≡ exec vnode → ⊥
    not_exec d vnode e = cc
collect_ids-IsCollected P ((gid, exec vnode) ∷ order) our_ids names all has_p c =
    let node≡ : all.0.0 ≡ vnode = same_node all.0.0 all.0.1 in
    let full : (vnode.orig_node.name == []) ≡ false =
      subst (λ v. (v.orig_node.name == []) ≡ false) node≡ all.0.2 in
    let this : P vnode.orig_node.id vnode.orig_node.name =
      has_p vnode.orig_node.id vnode.orig_node.name (inl (vnode, refl, refl, refl)) in
    let (c', has) = add_id-IsCollected P vnode.orig_node our_ids names full this c in
    let (ids, names', run, c'', has') =
      collect_ids-IsCollected P order (add_id vnode.orig_node (our_ids, names)).0
        (add_id vnode.orig_node (our_ids, names)).1 all.1 (λ i name h. has_p i name (inr h)) c' in
    (ids, names', run, c'', λ id. has' id ∙ ground (arith, has id))
  where
    same_node : (v : VirtualNode) → exec vnode ≡ exec v → v ≡ vnode
    same_node v e = cc

-- No node that is to be run is in the list.
abbrev pub IsApart : List (GraphId × Node) → List ℕ → Type 0
IsApart order [] = Unit
IsApart order (id ∷ ids) = (to_run order id ≡ false) × IsApart order ids

abbrev pub AllApart : List (GraphId × Node) → List (List ℕ) → Type 0
AllApart order [] = Unit
AllApart order (ids ∷ pending) = IsApart order ids × AllApart order pending

-- Some node that is to be run is in one of the lists, and this is the error.
abbrev pub Shared : List (GraphId × Node) → List (List ℕ) → Text → Type 0
Shared order pending err =
    (id : ℕ) × (name : Text) × (to_run order id ≡ true)
    × HasName order id name
    × (some_contains pending id ≡ true)
    × (err ≡ conflict_message name)

module _ (order : List (GraphId × Node)) (names : Dict ℕ Text)
    (known : (id : ℕ) → (lookup_or [] id names == []) ≡ not (to_run order id))
    (from : (id : ℕ) → to_run order id ≡ true → HasName order id (lookup_or [] id names)) where
  job_conflict-cases :
      (ids : List ℕ)
      → ((job_conflict names ids ≡ none) × IsApart order ids)
        ⊎ ((id : ℕ) × (job_conflict names ids ≡ some (conflict_message (lookup_or [] id names)))
            × (to_run order id ≡ true)
            × (contains ids id ≡ true))
  unfolding job_conflict
  job_conflict-cases [] = inl (refl, tt)
  job_conflict-cases (id ∷ ids) = elim (Bool-cases (lookup_or [] id names == [])) [
    | inr named ↦
        inr (
          id,
          rw named refl,
          ground (arith, named, known id),
          ground (arith, nat_eq.test_iff id id),
        )
    | inl unnamed ↦ elim (job_conflict-cases ids) [
      | inl (none_here, apart) ↦
          inl (rw unnamed none_here, (ground (arith, unnamed, known id), apart))
      | inr (j, found, run, inside) ↦ inr (j, rw unnamed found, run, ground (arith, inside))
    ]
  ]

  jobs_conflict-cases :
      (pending : List (List ℕ))
      → ((jobs_conflict names pending ≡ none) × AllApart order pending)
        ⊎ ((err : Text) × (jobs_conflict names pending ≡ some err) × Shared order pending err)
  unfolding jobs_conflict
  jobs_conflict-cases [] = inl (refl, tt)
  jobs_conflict-cases (ids ∷ pending) = elim (job_conflict-cases ids) [
    | inr (id, found, run, inside) ↦ inr (
      conflict_message (lookup_or [] id names),
      rw (found, jobs_conflict) refl,
      (id, lookup_or [] id names, run, from id run, ground (arith, inside), refl),
    )
    | inl (none_here, apart) ↦ elim (jobs_conflict-cases pending) [
      | inl (none_left, rest) ↦ inl (rw (none_here, jobs_conflict) none_left, (apart, rest))
      | inr (err, found, (id, name, run, this, inside, same)) ↦ inr (
        err,
        rw (none_here, jobs_conflict) found,
        (id, name, run, this, ground (arith, inside), same),
      )
    ]
  ]

-- The ids that RunNode writes to its job are those of the nodes that are to be run, each once.
-- It goes on exactly if no other pending job has one of them, where all these nodes have names
-- and none is a dataset; otherwise the error names the node of an id that is shared.
pub conflict_err_lem :
    (order : List (GraphId × Node)) (pending : List (List ℕ)) (id : ℕ)
    → AllNamed order
    → (our_ids : List ℕ) × Distinct our_ids
      × (contains our_ids id ≡ to_run order id)
      × (((conflict_err order pending ≡ some (none, our_ids)) × AllApart order pending)
          ⊎ ((err : Text) × (conflict_err order pending ≡ some (some err, our_ids))
              × Shared order pending err))
unfolding conflict_err
conflict_err_lem order pending id all =
    let (our_ids, names, run, c, has) =
      collect_ids-IsCollected (HasName order) order [] [] all (λ i name h. h)
        (record {
          from = λ i h. cc;
          named = λ i. ground (arith, text_eq.test_iff [] []);
          distinct = tt;
        }) in
    (
      our_ids,
      c.distinct,
      has id,
      elim (jobs_conflict-cases order names (λ i. c.named i ∙ ap not (has i))
          (λ i h. c.from i (has i ∙ h)) pending) [
            | inl (none_left, apart) ↦ inl (rw (run, none_left) refl, apart)
            | inr (err, found, shared) ↦ inr (err, rw (run, found) refl, shared)
          ],
    )
