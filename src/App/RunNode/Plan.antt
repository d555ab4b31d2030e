-- ===== src/App/RunNode/Plan.antt =====
-- app/graph.go: what holds between two iterations of RunNode's loop over `needed`.
use skyhookml.Prelude.{
  Dict, lookup, insert, remove, keys, contains, Distinct, lookup-remove, contains-keys-insert,
  lookup-keys, keys-remove-Distinct, length-remove, ◌==◌, nat_eq, text_eq, pair_eq, ℕ, ◌+◌, ◌≤◌,
  ◌<◌, ◌≡◌, refl, ap, subst, inl, inr, true, ◌||◌, none, some, List, [], ◌∷◌, ◌++◌, arith,
  if◌then◌else◌, Bool-cases, length,
}
use skyhookml.Graph.Node.{GraphId, graph_id_eq, Node, exec, VirtualNode}
use skyhookml.App.RunNode.{
  Outputs, Inputs, Run, State, Outside, parent_ids, available, created_datasets,
}
use skyhookml.App.RunNode.Search.{AllExec}
use skyhookml.App.RunNode.Visit.{all_parents, IsOffered, IsOffered-insert, HasNames, run_of}

abbrev pub run_ids : List Run → List GraphId
run_ids [] = []
run_ids (run ∷ runs) = run.id ∷ run_ids runs

-- Every parent is ready from the start or has been run.
abbrev pub AfterParents : Dict GraphId Outputs → List Run → List GraphId → Type 0
AfterParents ready earlier [] = Unit
AfterParents ready earlier (p ∷ parents) =
    ((contains (keys ready) p || contains (run_ids earlier) p) ≡ true)
    × AfterParents ready earlier parents

-- Each run is that of a needed node.
abbrev pub AllNeeded : Dict GraphId Node → List Run → Type 0
AllNeeded needed [] = Unit
AllNeeded needed (run ∷ runs) =
    (lookup run.id needed ≡ some (exec run.node)) × AllNeeded needed runs

-- Runs, the latest first, each of them after its parents.
abbrev pub InOrder : Dict GraphId Outputs → List Run → Type 0
InOrder ready [] = Unit
InOrder ready (run ∷ earlier) =
    AfterParents ready earlier (parent_ids run.node.parents) × InOrder ready earlier

-- What RunNode can run: no node is a dataset, its original node is loaded, the parents are ready or
-- needed, stand before it in the ranks, and have the outputs that it reads.
pub record IsPlan (o : Outside) (rank : GraphId → ℕ) (s : State) : Type 0 where
  pub execs : AllExec s.needed
  pub distinct : Distinct (keys s.needed)
  pub loaded :
      (id : GraphId) (vnode : VirtualNode)
      → lookup id s.needed ≡ some (exec vnode)
      → contains s.exec_nodes vnode.orig_node.id ≡ true
  pub closed :
      (id p : GraphId) (vnode : VirtualNode)
      → lookup id s.needed ≡ some (exec vnode)
      → contains (parent_ids vnode.parents) p ≡ true
      → (contains (keys s.ready) p || contains (keys s.needed) p) ≡ true
  pub ranked :
      (id p : GraphId) (vnode : VirtualNode)
      → lookup id s.needed ≡ some (exec vnode)
      → contains (parent_ids vnode.parents) p ≡ true
      → rank p < rank id
  pub offered :
      (id : GraphId) (vnode : VirtualNode)
      → lookup id s.needed ≡ some (exec vnode)
      → IsOffered s.ready (all_parents vnode.parents)
  pub named :
      (id child : GraphId) (vnode cnode : VirtualNode) (history : List Run)
      → lookup id s.needed ≡ some (exec vnode)
      → lookup child s.needed ≡ some (exec cnode)
      → HasNames id (created_datasets o history vnode) (all_parents cnode.parents)

-- After some runs from the state s.
pub record IsAt (s : State) (runs : List Run) (t : State) : Type 0 where
  pub since : t.history ≡ runs ++ s.history
  pub loaded : t.exec_nodes ≡ s.exec_nodes
  pub remaining :
      (id : GraphId)
      → lookup id t.needed ≡ (if contains (run_ids runs) id then none else lookup id s.needed)
  pub available :
      (id : GraphId)
      → contains (keys t.ready) id ≡ (contains (keys s.ready) id || contains (run_ids runs) id)
  pub inside :
      (id : GraphId) → contains (run_ids runs) id ≡ true → contains (keys s.needed) id ≡ true
  pub nodes : AllNeeded s.needed runs
  pub distinct : Distinct (run_ids runs)
  pub entries : Distinct (keys t.needed)
  pub ordered : InOrder s.ready runs
  pub offered :
      (id : GraphId) (vnode : VirtualNode)
      → lookup id s.needed ≡ some (exec vnode)
      → IsOffered t.ready (all_parents vnode.parents)
  pub fewer : length t.needed + length runs ≤ length s.needed

pub IsAt-refl : (o : Outside) (rank : GraphId → ℕ) (s : State) → IsPlan o rank s → IsAt s [] s
IsAt-refl o rank s plan = record {
  since = refl;
  loaded = refl;
  remaining = λ id. refl;
  available = λ id. ground arith;
  inside = λ id c. cc;
  nodes = tt;
  distinct = tt;
  entries = plan.distinct;
  ordered = tt;
  offered = plan.offered;
  fewer = omega arith;
}

available-AfterParents :
    (ready now : Dict GraphId Outputs) (runs : List Run) (ids : List GraphId)
    → ((id : GraphId)
        → contains (keys now) id ≡ (contains (keys ready) id || contains (run_ids runs) id))
    → available now ids ≡ true
    → AfterParents ready runs ids
unfolding available
available-AfterParents ready now runs [] same a = tt
available-AfterParents ready now runs (p ∷ ids) same a =
    (ground (arith, a, same p), available-AfterParents ready now runs ids same (ground (arith, a)))

pub all_available :
    (now : Dict GraphId Outputs) (ids : List GraphId)
    → ((p : GraphId) → contains ids p ≡ true → contains (keys now) p ≡ true)
    → available now ids ≡ true
unfolding available
all_available now [] all = refl
all_available now (p ∷ ids) all = ground (
  arith,
  all p,
  graph_id_eq.test_iff p p,
  all_available now ids (λ q c. all q (ground (arith, c))),
)

module _ (o : Outside) (rank : GraphId → ℕ) (s : State) (plan : IsPlan o rank s) where
  -- The state after a run of a node whose parents were ready.
  pub IsAt-run :
      (id : GraphId) (vnode : VirtualNode) (runs : List Run) (inputs : Inputs) (t : State)
      → IsAt s runs t
      → lookup id t.needed ≡ some (exec vnode)
      → available t.ready (parent_ids vnode.parents) ≡ true
      → IsAt s (run_of o id vnode inputs t ∷ runs) (record t {
        ready = insert id (created_datasets o t.history vnode) t.ready;
        needed = remove id t.needed;
        history = run_of o id vnode inputs t ∷ t.history;
      })
  IsAt-run id vnode runs inputs t at found avail = record {
    since = ap (◌∷◌ (run_of o id vnode inputs t)) at.since;
    loaded = at.loaded;
    remaining = λ j. ground (arith, at.remaining j, lookup-remove id j t.needed);
    available = λ j. ground (
      arith,
      at.available j,
      contains-keys-insert id j (created_datasets o t.history vnode) t.ready,
    );
    inside = λ j c. elim (Bool-cases (id == j)) [
      | inr other ↦ at.inside j (ground (arith, c, other))
      | inl same ↦
          let id≡ = (graph_id_eq.test_iff id j).0 same in
          subst (λ i. contains (keys s.needed) i ≡ true) id≡
            (lookup-keys id s.needed (exec vnode) start)
    ];
    nodes = (start, at.nodes);
    distinct = (ground (arith, at.remaining id, found), at.distinct);
    entries = keys-remove-Distinct id t.needed at.entries;
    ordered = (
      available-AfterParents s.ready t.ready runs (parent_ids vnode.parents) at.available avail,
      at.ordered,
    );
    offered = λ child cnode e.
        IsOffered-insert t.ready id (created_datasets o t.history vnode) (all_parents cnode.parents)
          (at.offered child cnode e) (plan.named id child vnode cnode t.history start e);
    fewer =
        omega
          (arith, at.fewer, length-remove id t.needed (lookup-keys id t.needed (exec vnode) found));
  }
    where
      start : lookup id s.needed ≡ some (exec vnode)
      start = ground (arith, at.remaining id, found)
