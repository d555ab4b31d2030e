-- ===== src/Graph/Hash/Tests.antt =====
-- A graph of a dataset and a node that reads it.
use skyhookml.Prelude.{
  Dict, lookup, keys, Distinct, ◌==◌, Text, codes, nat_eq, text_eq, pair_eq, ℕ, ◌≡◌, refl, sym,
  subst, inl, inr, none, some, [], ◌∷◌, arith, Bool-cases, ◌>>=◌, length,
}
use skyhookml.Graph.Node.{
  GraphId, graph_id_eq, graph_id_beq, virtual_parents, virtual_parent, virtual_kind, input_parents,
  list_parents, parent_key, local_hash, Node, exec, dataset, ExecNode, graph_parents, virtualize,
  exec_kind, dataset_kind, graph_id_beq,
}
use skyhookml.Prelude.Decimal.{itoa}
use skyhookml.Graph.Hash.{
  visit, round, rounds, write_parents, sort_texts, insert_sorted, text_le, ExecutionGraph, Hashes,
  get_hashes, node_hash, parent_hashes,
}
use skyhookml.Graph.Hash.Order.{IsRanked, IsOrder}
use skyhookml.Graph.Hash.Ranged.{node_hash-parent_hashes}
use skyhookml.Graph.Hash.Result.{get_hashes_lem, get_hashes_unique}
use skyhookml.Item.{Dataset, int}

abbrev source : Dataset
source = record {
  id = 3;
  name = codes "a";
  kind = codes "data";
  data_type = int;
  metadata = [];
  hash = none;
}

abbrev sink : ExecNode
sink = record {
  id = 5;
  name = codes "b";
  op = codes "f";
  params = [];
  parents = (codes "in", record { kind = codes "d"; id = 3; name = []; data_type = int } ∷ []) ∷ [];
}

abbrev source_id : GraphId
source_id = record { kind = dataset_kind; id = 3; virtual_key = [] }

abbrev sink_id : GraphId
sink_id = record { kind = exec_kind; id = 5; virtual_key = [] }

abbrev sink_node : Node
sink_node = exec (virtualize sink)

abbrev two : ExecutionGraph
two = (sink_id, sink_node) ∷ (source_id, dataset source) ∷ []

abbrev reversed : ExecutionGraph
reversed = (source_id, dataset source) ∷ (sink_id, sink_node) ∷ []

abbrev sha : Text → Text
sha t = length t ∷ []

abbrev result : Hashes
result = (source_id, 1 ∷ []) ∷ (sink_id, 10 ∷ []) ∷ []

abbrev rank : GraphId → ℕ
rank id = id.id

sink_parents : graph_parents sink_node ≡ (codes "in-0-d", source_id) ∷ []
unfolding graph_parents virtualize virtual_parents virtual_parent virtual_kind input_parents
    list_parents parent_key text_eq itoa
sink_parents = refl

source_parents : graph_parents (dataset source) ≡ []
unfolding graph_parents
source_parents = refl

no_node : (node : Node) → none ≡ some node → ⊥
no_node node e = cc

two-IsRanked : IsRanked two rank
unfolding graph_id_eq graph_id_beq text_eq nat_eq
two-IsRanked id node e = elim (Bool-cases (sink_id == id)) [
  | inl same ↦
      let id≡ = (graph_id_eq.test_iff sink_id id).0 same in
      let node≡ : some sink_node ≡ some node = rw same at e in
      let node≡' : sink_node ≡ node = cc in
      rw (sym node≡', sym id≡, sink_parents) (λ c. (refl, omega arith), tt)
  | inr other ↦ elim (Bool-cases (source_id == id)) [
    | inl same ↦
        let node≡ : some (dataset source) ≡ some node = rw (other, same) at e in
        let node≡' : dataset source ≡ node = cc in rw (sym node≡', source_parents) tt
    | inr neither ↦ absurd (no_node node (rw (other, neither) at e))
  ]
]

two_ordered : IsOrder two two
unfolding graph_id_eq graph_id_beq text_eq nat_eq
two_ordered = ((refl, (refl, tt)), λ id c. c)

two-reversed : IsOrder two reversed
unfolding graph_id_eq graph_id_beq text_eq nat_eq
two-reversed = ((refl, (refl, tt)), λ id c. ground (arith, c))

two-Distinct : Distinct (keys two)
unfolding graph_id_eq graph_id_beq text_eq nat_eq
two-Distinct = (refl, (refl, tt))

two_sink : lookup sink_id two ≡ some sink_node
unfolding graph_id_eq graph_id_beq text_eq nat_eq
two_sink = refl

get_hashes_lem_example :
    (hashes : Hashes) × (found : Dict Text Text) × (get_hashes sha 3 two (λ n. two) ≡ some hashes)
    × (parent_hashes (graph_parents sink_node) hashes ≡ some found)
    × (lookup sink_id hashes ≡ some (node_hash sha sink_node found))
get_hashes_lem_example =
    get_hashes_lem sha 3 two (λ n. two) rank sink_id sink_node two-Distinct two-IsRanked
      (λ i. two_ordered) (omega arith) two_sink

two-result : get_hashes sha 3 two (λ n. two) ≡ some result
unfolding get_hashes rounds round visit parent_hashes node_hash write_parents sort_texts
    insert_sorted text_le local_hash graph_parents virtualize virtual_parents virtual_parent
    virtual_kind input_parents list_parents parent_key graph_id_eq graph_id_beq text_eq nat_eq itoa
two-result = refl

reversed-result : get_hashes sha 2 two (λ n. reversed) ≡ some result
unfolding get_hashes rounds round visit parent_hashes node_hash write_parents sort_texts
    insert_sorted text_le local_hash graph_parents virtualize virtual_parents virtual_parent
    virtual_kind input_parents list_parents parent_key graph_id_eq graph_id_beq text_eq nat_eq itoa
reversed-result = refl

get_hashes_unique_example : lookup sink_id result ≡ lookup sink_id result
get_hashes_unique_example =
    get_hashes_unique sha 3 2 two (λ n. two) (λ n. reversed) rank result result sink_id two-Distinct
      two-IsRanked (λ i. two_ordered) (λ i. two-reversed) two-result reversed-result

-- The same two parents in two orders.
abbrev forth : Dict Text GraphId
forth = (codes "x", source_id) ∷ (codes "y", sink_id) ∷ []

abbrev back : Dict Text GraphId
back = (codes "y", sink_id) ∷ (codes "x", source_id) ∷ []

forth-back : (k : Text) → lookup k forth ≡ lookup k back
unfolding text_eq
forth-back k = elim (Bool-cases (codes "x" == k)) [
  | inl same ↦
      subst (λ i. lookup i forth ≡ lookup i back) ((text_eq.test_iff (codes "x") k).0 same) refl
  | inr other ↦ rw other (ground (arith, other))
]

forth-Distinct : Distinct (keys forth)
unfolding text_eq
forth-Distinct = (refl, (refl, tt))

back-Distinct : Distinct (keys back)
unfolding text_eq
back-Distinct = (refl, (refl, tt))

node_hash-parent_hashes_example :
    (parent_hashes forth result >>= λ found. some (node_hash sha sink_node found))
    ≡ (parent_hashes back result >>= λ found. some (node_hash sha sink_node found))
node_hash-parent_hashes_example =
    node_hash-parent_hashes sha sink_node forth back result forth-Distinct back-Distinct forth-back
