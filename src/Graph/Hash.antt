-- ===== src/Graph/Hash.antt =====
-- skyhook/graph.go: GetHashes. Go ranges over the graph in an unspecified order, anew in each round of
-- the outer loop: `orders n` is the order of round n. The order in which it ranges over the parents of
-- a node, whose keys it sorts afterwards, is fixed. With too little fuel for the outer loop the
-- result is `none`.
pub mod Laws
pub mod Rounds
pub mod Order
pub mod Sorted
pub mod Ranged
pub mod Result
mod Tests
use skyhookml.Prelude.{
  Dict, lookup, lookup_or, insert, keys, ◌==◌, Text, codes, nat_eq, text_eq, pair_eq, ℕ, zero, suc,
  ◌+◌, Bool, true, false, not, ◌&&◌, ◌||◌, Option, none, some, List, [], ◌∷◌, ◌++◌, ltb, eqb,
  if◌then◌else◌, ◌>>=◌, length,
}
use skyhookml.Graph.Node.{GraphId, graph_id_eq, Node, graph_parents, local_hash, newline}

abbrev pub ExecutionGraph : Type 0
ExecutionGraph = Dict GraphId Node

-- A hash is never nil, so that a nil entry is a missing one.
abbrev pub Hashes : Type 0
Hashes = Dict GraphId Text

-- The order of sort.Strings.
text_le : Text → Text → Bool
text_le [] t = true
text_le (a ∷ s) [] = false
text_le (a ∷ s) (b ∷ t) = ltb a b || eqb a b && text_le s t

insert_sorted : Text → List Text → List Text
insert_sorted k [] = k ∷ []
insert_sorted k (j ∷ ks) = if text_le k j then k ∷ j ∷ ks else j ∷ insert_sorted k ks

pub sort_texts : List Text → List Text
sort_texts [] = []
sort_texts (k ∷ ks) = insert_sorted k (sort_texts ks)

-- The hashes of a node's parents by their keys; `none` if one is missing. Virtual parents are skipped.
pub parent_hashes : Dict Text GraphId → Hashes → Option (Dict Text Text)
parent_hashes [] hashes = some []
parent_hashes ((k, parent) ∷ parents) hashes =
    let rest = parent_hashes parents hashes in
    if not (parent.virtual_key == [])
    then rest
    else (do hash ← lookup parent hashes; found ← rest; some ((k, hash) ∷ found))

pub write_parents : Dict Text Text → List Text → Text
write_parents found [] = []
write_parents found (k ∷ ks) =
    k ++ (codes "=" ++ (lookup_or [] k found ++ (newline ++ write_parents found ks)))

module _ (sha256 : Text → Text) where
  pub node_hash : Node → Dict Text Text → Text
  node_hash node found =
      sha256 (write_parents found (sort_texts (keys found)) ++ local_hash sha256 node)

  -- The body of the inner loop.
  pub visit : Hashes → GraphId × Node → Hashes
  visit hashes (id, node) = elim (lookup id hashes) [
    | some hash ↦ hashes
    | none ↦ elim (parent_hashes (graph_parents node) hashes) [
      | none ↦ hashes
      | some found ↦ insert id (node_hash node found) hashes
    ]
  ]

  pub round : List (GraphId × Node) → Hashes → Hashes
  round [] hashes = hashes
  round (entry ∷ order) hashes = round order (visit hashes entry)

  pub rounds : ℕ → ExecutionGraph → (ℕ → List (GraphId × Node)) → ℕ → Hashes → Option Hashes
  rounds zero graph orders n hashes = none
  rounds (suc fuel) graph orders n hashes =
      let rest = rounds fuel graph orders (n + 1) (round (orders n) hashes) in
      if ltb (length hashes) (length graph) then rest else some hashes

  pub get_hashes : ℕ → ExecutionGraph → (ℕ → List (GraphId × Node)) → Option Hashes
  get_hashes fuel graph orders = rounds fuel graph orders 0 []

-- The hashes as text; `hex` is hex.EncodeToString.
pub get_hash_strings : (hex : Text → Text) → Hashes → Dict GraphId Text
get_hash_strings hex [] = []
get_hash_strings hex ((id, hash) ∷ hashes) = (id, hex hash) ∷ get_hash_strings hex hashes
