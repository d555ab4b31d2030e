-- ===== src/Graph/Hash/Laws.antt =====
-- skyhook/graph.go: what one visit and one round of GetHashes do.
use skyhookml.Prelude.{
  Dict, lookup, insert, keys, contains, Distinct, lookup-insert, ◌==◌, Text, nat_eq, text_eq,
  pair_eq, ℕ, ◌+◌, ◌≤◌, ◌<◌, ◌≡◌, refl, ap, inl, inr, false, Option, none, some, [], ◌∷◌, arith,
  Bool-cases, ◌>>=◌, length,
}
use skyhookml.Graph.Node.{GraphId, graph_id_eq, Node}
use skyhookml.Graph.Hash.{ExecutionGraph, Hashes, parent_hashes, get_hash_strings}

-- What is hashed stays as it is.
abbrev pub Extends : Hashes → Hashes → Type 0
Extends before after =
    (id : GraphId) (h : Text) → lookup id before ≡ some h → lookup id after ≡ some h

pub Extends-insert :
    (hashes : Hashes) (id : GraphId) (h : Text)
    → lookup id hashes ≡ none
    → Extends hashes (insert id h hashes)
Extends-insert hashes id h missing j v e =
    ground (arith, lookup-insert id j h hashes, graph_id_eq.test_iff id j)

parent_step :
    (k : Text) (l l' : Option Text) (r r' : Option (Dict Text Text)) (found : Dict Text Text)
    → ((h : Text) → l ≡ some h → l' ≡ some h)
    → ((f : Dict Text Text) → r ≡ some f → r' ≡ some f)
    → (l >>= λ hash. r >>= λ rest. some ((k, hash) ∷ rest)) ≡ some found
    → (l' >>= λ hash. r' >>= λ rest. some ((k, hash) ∷ rest)) ≡ some found
parent_step k none l' r r' found hl hr e = cc
parent_step k (some h) l' none r' found hl hr e = cc
parent_step k (some h) l' (some f) r' found hl hr e = rw (hl h refl, hr f refl) e

pub parent_hashes-Extends :
    (parents : Dict Text GraphId) (before after : Hashes) (found : Dict Text Text)
    → Extends before after
    → parent_hashes parents before ≡ some found
    → parent_hashes parents after ≡ some found
unfolding parent_hashes
parent_hashes-Extends [] before after found ext e = e
parent_hashes-Extends ((k, parent) ∷ parents) before after found ext e =
    elim (Bool-cases (parent.virtual_key == [])) [
      | inl concrete ↦ rw concrete (
          parent_step k _ _ _ _ found (ext parent)
            (λ f. parent_hashes-Extends parents before after f ext) (rw concrete at e))
      | inr virtual ↦
          rw virtual (parent_hashes-Extends parents before after found ext (rw virtual at e))
    ]

-- How many entries of the graph are not hashed.
abbrev pub none_count : Option Text → ℕ
none_count none = 1
none_count (some h) = 0

abbrev pub missing : ExecutionGraph → Hashes → ℕ
missing [] hashes = 0
missing ((id, node) ∷ graph) hashes = none_count (lookup id hashes) + missing graph hashes

none_count-le :
    (l l' : Option Text) → ((h : Text) → l ≡ some h → l' ≡ some h) → none_count l' ≤ none_count l
none_count-le none none ext = omega arith
none_count-le none (some h) ext = omega arith
none_count-le (some h) l' ext = rw (ext h refl) (omega arith)

pub missing-Extends :
    (graph : ExecutionGraph) (before after : Hashes)
    → Extends before after
    → missing graph after ≤ missing graph before
missing-Extends [] before after ext = omega arith
missing-Extends ((id, node) ∷ graph) before after ext = omega (
  arith,
  none_count-le (lookup id before) (lookup id after) (ext id),
  missing-Extends graph before after ext,
)

-- A node that is newly hashed is missing no more.
pub missing_less :
    (graph : ExecutionGraph) (before after : Hashes) (id : GraphId) (node : Node) (h : Text)
    → Extends before after
    → lookup id graph ≡ some node
    → lookup id before ≡ none
    → lookup id after ≡ some h
    → missing graph after < missing graph before
missing_less [] before after id node h ext g b a = cc
missing_less ((j, n) ∷ graph) before after id node h ext g b a = elim (Bool-cases (j == id)) [
  | inl same ↦
      let e = (graph_id_eq.test_iff j id).0 same in
      rw (e, a, b) (omega (arith, missing-Extends graph before after ext))
  | inr other ↦ omega (
    arith,
    none_count-le (lookup j before) (lookup j after) (ext j),
    missing_less graph before after id node h ext (rw other at g) b a,
  )
]

-- One more hash of a node in the graph: one less is missing.
missing-insert_absent :
    (graph : ExecutionGraph) (hashes : Hashes) (id : GraphId) (h : Text)
    → contains (keys graph) id ≡ false
    → missing graph (insert id h hashes) ≡ missing graph hashes
missing-insert_absent [] hashes id h absent = refl
missing-insert_absent ((j, n) ∷ graph) hashes id h absent = ground (
  arith,
  lookup-insert id j h hashes,
  graph_id_eq.test_iff id j,
  graph_id_eq.test_iff j id,
  missing-insert_absent graph hashes id h,
)

pub missing-insert :
    (graph : ExecutionGraph) (hashes : Hashes) (id : GraphId) (node : Node) (h : Text)
    → Distinct (keys graph)
    → lookup id graph ≡ some node
    → lookup id hashes ≡ none
    → missing graph (insert id h hashes) + 1 ≡ missing graph hashes
missing-insert [] hashes id node h d g b = cc
missing-insert ((j, n) ∷ graph) hashes id node h d g b = ground (
  arith,
  lookup-insert id j h hashes,
  graph_id_eq.test_iff id j,
  graph_id_eq.test_iff j id,
  missing-insert_absent graph hashes id h,
  missing-insert graph hashes id node h d.1,
)

pub length-insert_new :
    (hashes : Hashes) (id : GraphId) (h : Text)
    → lookup id hashes ≡ none
    → length (insert id h hashes) ≡ length hashes + 1
length-insert_new [] id h b = refl
length-insert_new ((j, v) ∷ hashes) id h b = ground (arith, length-insert_new hashes id h)

pub lookup-get_hash_strings :
    (hex : Text → Text) (hashes : Hashes) (id : GraphId) (hash : Text)
    → lookup id hashes ≡ some hash
    → lookup id (get_hash_strings hex hashes) ≡ some (hex hash)
unfolding get_hash_strings
lookup-get_hash_strings hex [] id hash e = cc
lookup-get_hash_strings hex ((j, h) ∷ hashes) id hash e = elim (Bool-cases (j == id)) [
  | inl same ↦
      let h≡ : some h ≡ some hash = rw same at e in
      let h≡' : h ≡ hash = cc in rw same (ap (λ x. some (hex x)) h≡')
  | inr other ↦ rw other (lookup-get_hash_strings hex hashes id hash (rw other at e))
]
