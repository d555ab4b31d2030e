-- ===== src/App/Incorporate/Tests.antt =====
-- A database of a dataset and a node that reads it.
use skyhookml.Prelude.{
  lookup, keys, contains, Distinct, ◌==◌, Text, codes, nat_eq, text_eq, pair_eq, ℕ, ◌<◌, ◌≡◌, refl,
  sym, ap, subst, ◌∙◌, inl, inr, true, false, none, some, List, [], ◌∷◌, arith, Bool-cases, length,
}
use skyhookml.Graph.Node.{
  GraphId, graph_id_eq, graph_id_beq, virtual_parents, virtual_parent, virtual_kind, input_parents,
  list_parents, parent_key, Node, exec, dataset, ExecNode, graph_id, graph_parents, virtualize,
  exec_kind, dataset_kind,
}
use skyhookml.Prelude.Decimal.{itoa}
use skyhookml.Item.{Dataset, int}
use skyhookml.Graph.Hash.{ExecutionGraph}
use skyhookml.Graph.Hash.Order.{Distinct-AllIn, ForParents, IsOrder}
use skyhookml.App.Incorporate.{
  Database, get_node_by_graph_id, checked_node, add_all, incorporate_into_graph, exec_graph_id,
  hash_node,
}
use skyhookml.App.Incorporate.Parents.{ParentsKnown, Covers}
use skyhookml.App.Incorporate.Search.{or_else}
use skyhookml.App.Incorporate.Result.{Kept, ParentsOf, incorporate_into_graph_lem, hash_node_lem}

abbrev photos : Dataset
photos = record {
  id = 3;
  name = codes "photos";
  kind = codes "data";
  data_type = int;
  metadata = [];
  hash = none;
}

abbrev counter : ExecNode
counter = record {
  id = 5;
  name = codes "counter";
  op = codes "count";
  params = [];
  parents = (codes "in", record { kind = codes "d"; id = 3; name = []; data_type = int } ∷ []) ∷ [];
}

abbrev photos_id : GraphId
photos_id = record { kind = dataset_kind; id = 3; virtual_key = [] }

abbrev counter_id : GraphId
counter_id = record { kind = exec_kind; id = 5; virtual_key = [] }

abbrev counter_node : Node
counter_node = exec (virtualize counter)

abbrev db : Database
db = record {
  exec_nodes = (5, counter) ∷ [];
  datasets = (3, photos) ∷ [];
  virtualized = virtualize;
}

abbrev known : List GraphId
known = counter_id ∷ photos_id ∷ []

abbrev rank : GraphId → ℕ
rank id = id.id

counter_parents : graph_parents counter_node ≡ (codes "in-0-d", photos_id) ∷ []
unfolding graph_parents virtualize virtual_parents virtual_parent virtual_kind input_parents
    list_parents parent_key text_eq itoa
counter_parents = refl

photos_parents : graph_parents (dataset photos) ≡ []
unfolding graph_parents
photos_parents = refl

counter_found : get_node_by_graph_id db counter_id ≡ some counter_node
unfolding get_node_by_graph_id checked_node graph_id virtualize graph_id_eq graph_id_beq text_eq
    nat_eq
counter_found = refl

photos_found : get_node_by_graph_id db photos_id ≡ some (dataset photos)
unfolding get_node_by_graph_id checked_node text_eq nat_eq
photos_found = refl

counter_same : graph_id counter_node ≡ counter_id
unfolding graph_id virtualize
counter_same = refl

photos_same : graph_id (dataset photos) ≡ photos_id
unfolding graph_id
photos_same = refl

counter_known : (graph : ExecutionGraph) → ParentsKnown known graph (graph_parents counter_node)
unfolding graph_id_eq graph_id_beq text_eq nat_eq
counter_known graph = rw counter_parents (refl, tt)

photos-known : ParentsKnown known [] (graph_parents (dataset photos))
photos-known = rw photos_parents tt

not_known :
    (id : GraphId)
    → (counter_id == id) ≡ false
    → (photos_id == id) ≡ false
    → contains known id ≡ true
    → ⊥
not_known id a b c = absurd (ground (arith, a, b, c))

db-Covers : Covers db known
db-Covers id c = elim (Bool-cases (counter_id == id)) [
  | inl same ↦
      let id≡ = (graph_id_eq.test_iff counter_id id).0 same in
      rw (sym id≡) (counter_node, counter_found, counter_same, counter_known [])
  | inr other ↦ elim (Bool-cases (photos_id == id)) [
    | inl same ↦
        let id≡ = (graph_id_eq.test_iff photos_id id).0 same in
        rw (sym id≡) (dataset photos, photos_found, photos_same, photos-known)
    | inr neither ↦ absurd (not_known id other neither c)
  ]
]

one : ExecutionGraph
one = (counter_id, counter_node) ∷ []

one-known :
    (i : GraphId) (node : Node)
    → lookup i one ≡ some node
    → ParentsKnown known (add_all [] one) (graph_parents node)
unfolding one
one-known i node e = elim (Bool-cases (counter_id == i)) [
  | inl same ↦
      let node≡ : some counter_node ≡ some node = rw same at e in
      let node≡' : counter_node ≡ node = cc in
      subst (λ n. ParentsKnown known (add_all [] one) (graph_parents n)) node≡'
        (counter_known (add_all [] one))
  | inr other ↦ absurd (ground (arith, e, other))
]

incorporate_into_graph_lem_example :
    (graph' : ExecutionGraph) × (incorporate_into_graph db 4 [] one ≡ some graph')
    × Kept (or_else (lookup counter_id one) none) (lookup counter_id graph')
    × ParentsOf graph' (lookup counter_id graph')
unfolding one
incorporate_into_graph_lem_example =
    incorporate_into_graph_lem db known db-Covers [] one 4 counter_id (λ i n e. cc) one-known
      (refl, tt) (omega arith)

same-IsOrder : (graph : ExecutionGraph) (i : ℕ) → Distinct (keys graph) → IsOrder graph graph
same-IsOrder graph i d = (Distinct-AllIn graph d, λ id c. c)

-- A dataset is found whatever the virtual key.
other_found :
    (i : GraphId) (node : Node)
    → (counter_id == i) ≡ false
    → get_node_by_graph_id db i ≡ some node
    → dataset photos ≡ node
unfolding get_node_by_graph_id graph_id_eq graph_id_beq
other_found i node a e = ground (
  arith,
  a,
  e,
  text_eq.test_iff i.kind exec_kind,
  text_eq.test_iff exec_kind i.kind,
  text_eq.test_iff i.kind dataset_kind,
  text_eq.test_iff [] i.virtual_key,
  text_eq.test_iff i.virtual_key [],
)

db_ranked :
    (i : GraphId) (node : Node)
    → get_node_by_graph_id db i ≡ some node
    → ForParents (λ p. rank p < rank i) (graph_parents node)
db_ranked i node e = elim (Bool-cases (counter_id == i)) [
  | inl same ↦
      let id≡ = (graph_id_eq.test_iff counter_id i).0 same in
      let node≡ : some counter_node ≡ some node =
        sym counter_found ∙ ap (get_node_by_graph_id db) id≡ ∙ e in
      let node≡' : counter_node ≡ node = cc in
      rw (sym node≡', sym id≡, counter_parents) (λ c. omega arith, tt)
  | inr other ↦ rw (sym (other_found i node other e), photos_parents) tt
]

counter_in : contains known (exec_graph_id 5) ≡ true
unfolding exec_graph_id graph_id_eq graph_id_beq text_eq nat_eq
counter_in = refl

hash_node_lem_example :
    (hash : Text) × (hash_node (λ t. length t ∷ []) (λ t. 35 ∷ t) db 5 (λ graph n. graph) 5
      ≡ some (some (35 ∷ hash)))
    × (hash_node (λ t. length t ∷ []) (λ t. 35 ∷ t) db 5 (λ graph n. graph) 5
        ≡ some (some (35 ∷ hash)))
hash_node_lem_example =
    hash_node_lem db known db-Covers (λ t. length t ∷ []) (λ t. 35 ∷ t) 5 5 rank (λ graph n. graph)
      (λ graph n. graph) db_ranked same-IsOrder same-IsOrder counter_in (omega arith)
