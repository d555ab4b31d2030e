-- ===== src/App/RunNode/Visit.antt =====
-- app/graph.go: one iteration of RunNode's loop over `needed`, where ops do not resolve to subgraphs.
use skyhookml.Prelude.{
  Dict, lookup, insert, keys, contains, lookup-insert, keys-lookup, ◌==◌, Text, nat_eq, text_eq,
  pair_eq, ℕ, ◌≡◌, refl, subst, ◌⊎◌, inl, inr, true, false, ◌&&◌, none, some, List, [], ◌∷◌, ◌++◌,
  arith, Bool-cases,
}
use skyhookml.Item.{Dataset}
use skyhookml.Graph.Node.{GraphId, graph_id_eq, exec, VirtualNode, VirtualParent, get_runnable}
use skyhookml.App.RunNode.{
  Outputs, Inputs, Run, State, Outside, virtual_node, list_ids, parent_ids, available,
  list_datasets, parent_datasets, ok, after_run, created_datasets, output_datasets, execute, visit,
}

-- The parents of a node, with the names of the outputs.
abbrev pub all_parents : Dict Text (List VirtualParent) → List VirtualParent
all_parents [] = []
all_parents ((name, plist) ∷ parents) = plist ++ all_parents parents

-- The outputs that are ready have the names under which the parents are read.
abbrev pub IsOffered : Dict GraphId Outputs → List VirtualParent → Type 0
IsOffered ready [] = Unit
IsOffered ready (p ∷ plist) =
    ((outputs : Outputs)
      → lookup p.graph_id ready ≡ some outputs
      → contains (keys outputs) p.name ≡ true)
    × IsOffered ready plist

-- The outputs have the names under which the parents with an id are read.
abbrev pub HasNames : GraphId → Outputs → List VirtualParent → Type 0
HasNames id outputs [] = Unit
HasNames id outputs (p ∷ plist) =
    ((id == p.graph_id) ≡ true → contains (keys outputs) p.name ≡ true) × HasNames id outputs plist

pub IsOffered-insert :
    (ready : Dict GraphId Outputs) (id : GraphId) (outputs : Outputs) (plist : List VirtualParent)
    → IsOffered ready plist
    → HasNames id outputs plist
    → IsOffered (insert id outputs ready) plist
IsOffered-insert ready id outputs [] all names = tt
IsOffered-insert ready id outputs (p ∷ plist) all names = (
  λ outs e. elim (Bool-cases (id == p.graph_id)) [
    | inl same ↦
        let outs≡ : outputs ≡ outs = ground (arith, lookup-insert id p.graph_id outputs ready) in
        subst (λ os. contains (keys os) p.name ≡ true) outs≡ (names.0 same)
    | inr other ↦ all.0 outs (ground (arith, lookup-insert id p.graph_id outputs ready))
  ],
  IsOffered-insert ready id outputs plist all.1 names.1,
)

IsOffered-append :
    (ready : Dict GraphId Outputs) (xs ys : List VirtualParent)
    → IsOffered ready (xs ++ ys)
    → IsOffered ready xs × IsOffered ready ys
IsOffered-append ready [] ys all = (tt, all)
IsOffered-append ready (x ∷ xs) ys all =
    let (one, two) = IsOffered-append ready xs ys all.1 in ((all.0, one), two)

available-append :
    (ready : Dict GraphId Outputs) (xs ys : List GraphId)
    → available ready (xs ++ ys) ≡ (available ready xs && available ready ys)
unfolding available
available-append ready [] ys = refl
available-append ready (x ∷ xs) ys = ground (arith, available-append ready xs ys)

list_datasets-some :
    (ready : Dict GraphId Outputs) (plist : List VirtualParent)
    → available ready (list_ids plist) ≡ true
    → IsOffered ready plist
    → (dslist : List Dataset) × (list_datasets ready plist ≡ some dslist)
unfolding list_datasets available
list_datasets-some ready [] a all = ([], refl)
list_datasets-some ready (p ∷ plist) a all =
    let (outputs, e) = keys-lookup p.graph_id ready (ground (arith, a)) in
    let (ds, f) = keys-lookup p.name outputs (all.0 outputs e) in
    let (dslist, rest) = list_datasets-some ready plist (ground (arith, a)) all.1 in
    (ds ∷ dslist, rw (e, f, rest) refl)

pub parent_datasets-some :
    (ready : Dict GraphId Outputs) (parents : Dict Text (List VirtualParent))
    → available ready (parent_ids parents) ≡ true
    → IsOffered ready (all_parents parents)
    → (inputs : Inputs) × (parent_datasets ready parents ≡ some inputs)
unfolding parent_datasets
parent_datasets-some ready [] a all = ([], refl)
parent_datasets-some ready ((name, plist) ∷ parents) a all =
    let (one, two) = IsOffered-append ready plist (all_parents parents) all in
    let split = available-append ready (list_ids plist) (parent_ids parents) in
    let (dslist, e) = list_datasets-some ready plist (ground (arith, split, a)) one in
    let (inputs, f) = parent_datasets-some ready parents (ground (arith, split, a)) two in
    ((name, dslist) ∷ inputs, rw (e, f) refl)

-- What a run of a node reads and writes.
abbrev pub run_of : Outside → GraphId → VirtualNode → Inputs → State → Run
run_of o id vnode inputs s = record {
  id = id;
  node = vnode;
  runnable = get_runnable vnode inputs (created_datasets o s.history vnode);
}

-- The node is not run, since a parent is not ready, or it is run.
pub visit_cases :
    (o : Outside) (fuel : ℕ) (target id : GraphId) (vnode : VirtualNode) (s : State)
    → ((history : List Run) (v : VirtualNode) (inputs : Inputs) → o.resolve history v inputs ≡ none)
    → contains s.exec_nodes vnode.orig_node.id ≡ true
    → IsOffered s.ready (all_parents vnode.parents)
    → ((available s.ready (parent_ids vnode.parents) ≡ false)
        × (visit o fuel target id (exec vnode) s ≡ some (ok s)))
      ⊎ ((inputs : Inputs) × (parent_datasets s.ready vnode.parents ≡ some inputs)
          × (available s.ready (parent_ids vnode.parents) ≡ true)
          × (visit o fuel target id (exec vnode) s
              ≡ some (
                  after_run
                    (o.run s.history (run_of o id vnode inputs s).runnable)
                    (run_of o id vnode inputs s)
                    (created_datasets o s.history vnode)
                    s)))
unfolding visit virtual_node execute output_datasets
visit_cases o fuel target id vnode s simple loaded offered =
    elim (Bool-cases (available s.ready (parent_ids vnode.parents))) [
      | inr waits ↦ inl (waits, rw (waits, visit) refl)
      | inl avail ↦
          let (inputs, e) = parent_datasets-some s.ready vnode.parents avail offered in
          inr (inputs, e, avail, rw (avail, e, simple s.history vnode inputs, loaded) refl)
    ]
