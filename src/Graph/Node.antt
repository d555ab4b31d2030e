-- ===== src/Graph/Node.antt =====
-- skyhook/graph.go, skyhook/exec.go, skyhook/exec_op.go: the nodes of execution graphs. SHA-256 is an
-- argument of what uses it.
use skyhookml.Prelude.{
  Dict, insert, Comparable, ◌==◌, Text, codes, nat_eq, text_eq, pair_eq, ℕ, ◌+◌, ◌≡◌, ◌↔◌, Bool,
  true, ◌&&◌, ◌||◌, List, [], ◌∷◌, ◌++◌, map, arith, if◌then◌else◌,
}
use skyhookml.Prelude.Decimal.{itoa}
use skyhookml.Item.{Dataset, DataType}

pub record GraphId : Type 0 where
  pub kind : Text
  pub id : ℕ
  -- Empty for a node that is configured in the database.
  pub virtual_key : Text

unfoldable pub graph_id_beq : GraphId → GraphId → Bool
graph_id_beq a b = a.kind == b.kind && a.id == b.id && a.virtual_key == b.virtual_key

pub graph_id_beq_iff : (a b : GraphId) → (graph_id_beq a b ≡ true) ↔ (a ≡ b)
unfolding graph_id_beq nat_eq
graph_id_beq_iff a b =
    ground (arith, text_eq.test_iff a.kind b.kind, text_eq.test_iff a.virtual_key b.virtual_key)

instance unfoldable pub graph_id_eq : Comparable GraphId
unfolding graph_id_beq text_eq nat_eq
graph_id_eq = record { test = graph_id_beq; test_iff = graph_id_beq_iff }

-- What a parent is: the output of a node, or a dataset ("n" and "d").
pub record ExecParent : Type 0 where
  pub kind : Text
  pub id : ℕ
  pub name : Text
  pub data_type : DataType

pub record ExecNode : Type 0 where
  pub id : ℕ
  pub name : Text
  pub op : Text
  pub params : Text
  pub parents : Dict Text (List ExecParent)

pub record VirtualParent : Type 0 where
  pub graph_id : GraphId
  pub name : Text
  pub data_type : DataType

pub record VirtualNode : Type 0 where
  pub name : Text
  pub op : Text
  pub params : Text
  pub parents : Dict Text (List VirtualParent)
  pub orig_node : ExecNode
  pub virtual_key : Text

-- The implementations of the interface `Node`.
pub data Node : Type 0 where
  exec : VirtualNode → Node
  dataset : Dataset → Node

abbrev pub exec_kind : Text
exec_kind = codes "exec"

abbrev pub dataset_kind : Text
dataset_kind = codes "dataset"

unfoldable pub graph_id : Node → GraphId
graph_id (exec node) = record {
  kind = exec_kind;
  id = node.orig_node.id;
  virtual_key = node.virtual_key;
}
graph_id (dataset ds) = record { kind = dataset_kind; id = ds.id; virtual_key = [] }

-- The keys "%s-%d-n[%s]" and "%s-%d-d" of a parent.
unfoldable pub parent_key : Text → ℕ → VirtualParent → Text
parent_key name i parent =
    if parent.graph_id.kind == exec_kind
    then name ++ (codes "-" ++ (itoa i ++ (codes "-n[" ++ (parent.name ++ codes "]"))))
    else name ++ (codes "-" ++ (itoa i ++ codes "-d"))

-- A parent of another kind is left out.
unfoldable pub list_parents : Text → ℕ → List VirtualParent → Dict Text GraphId → Dict Text GraphId
list_parents name i [] parents = parents
list_parents name i (parent ∷ plist) parents = list_parents name (i + 1) plist (
    if parent.graph_id.kind == exec_kind || parent.graph_id.kind == dataset_kind
    then insert (parent_key name i parent) parent.graph_id parents
    else parents)

unfoldable pub input_parents :
    Dict Text (List VirtualParent) → Dict Text GraphId → Dict Text GraphId
input_parents [] parents = parents
input_parents ((name, plist) ∷ inputs) parents =
    input_parents inputs (list_parents name 0 plist parents)

unfoldable pub graph_parents : Node → Dict Text GraphId
graph_parents (exec node) = input_parents node.parents []
graph_parents (dataset ds) = []

abbrev pub newline : Text
newline = 10 ∷ []

unfoldable pub local_hash : (Text → Text) → Node → Text
local_hash sha256 (exec node) =
    sha256 (codes "op=" ++ (node.op ++ (newline ++ (codes "params=" ++ (node.params ++ newline)))))
local_hash sha256 (dataset ds) = sha256 (codes "name=" ++ (ds.name ++ newline))

-- ExecOpImplProvider.Virtualize, where the op has none of its own. Any other kind stays empty.
unfoldable pub virtual_kind : Text → Text
virtual_kind kind =
    if kind == codes "n" then exec_kind else if kind == codes "d" then dataset_kind else []

unfoldable pub virtual_parent : ExecParent → VirtualParent
virtual_parent p = record {
  graph_id = record { kind = virtual_kind p.kind; id = p.id; virtual_key = [] };
  name = p.name;
  data_type = p.data_type;
}

unfoldable pub virtual_parents : Dict Text (List ExecParent) → Dict Text (List VirtualParent)
virtual_parents [] = []
virtual_parents ((name, plist) ∷ parents) =
    (name, map virtual_parent plist) ∷ virtual_parents parents

unfoldable pub virtualize : ExecNode → VirtualNode
virtualize node = record {
  name = node.name;
  op = node.op;
  params = node.params;
  parents = virtual_parents node.parents;
  orig_node = node;
  virtual_key = [];
}

pub record Runnable : Type 0 where
  pub name : Text
  pub op : Text
  pub params : Text
  pub input_datasets : Dict Text (List Dataset)
  pub output_datasets : Dict Text Dataset

pub get_runnable : VirtualNode → Dict Text (List Dataset) → Dict Text Dataset → Runnable
get_runnable node input_datasets output_datasets = record {
  name = node.name;
  op = node.op;
  params = node.params;
  input_datasets = input_datasets;
  output_datasets = output_datasets;
}
