-- ===== src/Graph/Hash/Result.antt =====
-- skyhook/graph.go: the hashes that GetHashes returns.
use skyhookml.Prelude.{
  Dict, lookup, keys, contains, Distinct, Text, nat_eq, text_eq, pair_eq, ℕ, zero, suc, ◌+◌, ◌<◌,
  ◌≡◌, refl, sym, ap, ◌∙◌, inl, inr, true, false, none, some, List, [], ◌∷◌, arith, ltb, Bool-cases,
  Option-cases, length,
}
use skyhookml.Graph.Node.{GraphId, graph_id_eq, Node, graph_parents}
use skyhookml.Graph.Hash.{
  ExecutionGraph, Hashes, parent_hashes, node_hash, round, rounds, get_hashes,
}
use skyhookml.Graph.Hash.Laws.{missing, missing_less}
use skyhookml.Graph.Hash.Rounds.{AllIn, IsSound, round-Extends, round-IsSound, round_hashes}
use skyhookml.Graph.Hash.Order.{
  IsRanked, IsOrder, lookup-contains, missing_entry, missing_none, ready, contains-lookup,
  ForParents-map, parent_hashes-agree,
}

missing_start : (graph : ExecutionGraph) → missing graph [] ≡ length graph
missing_start [] = refl
missing_start ((j, n) ∷ graph) = omega (arith, missing_start graph)

module _ (sha256 : Text → Text) where
  abbrev Complete : ExecutionGraph → Hashes → Type 0
  Complete graph hashes = IsSound sha256 graph hashes × (missing graph hashes ≡ 0)

  start-IsSound : (graph : ExecutionGraph) → IsSound sha256 graph []
  start-IsSound graph = record {
    counted = omega (arith, missing_start graph);
    justified = λ id h e. cc;
  }

  -- When the loop's test fails nothing is missing.
  finished :
      (graph : ExecutionGraph) (hashes : Hashes)
      → IsSound sha256 graph hashes
      → ltb (length hashes) (length graph) ≡ false
      → missing graph hashes ≡ 0
  finished graph hashes s t = ground (arith, s.counted, t)

  round_progress :
      (graph : ExecutionGraph) (order : List (GraphId × Node)) (rank : GraphId → ℕ)
      (hashes : Hashes)
      → IsRanked graph rank
      → IsOrder graph order
      → 0 < missing graph hashes
      → missing graph (round sha256 order hashes) < missing graph hashes
  round_progress graph order rank hashes ranked ordered some_missing =
      let (id, c, absent) = missing_entry graph hashes some_missing in
      let (j, node, found, e, absent', p) =
        ready graph rank hashes (rank id + 1) id ranked (omega arith) c absent in
      let (h, hashed) =
        round_hashes sha256 graph order hashes j node found ordered.0
          (ordered.1 j (lookup-contains graph j node e)) e p in
      missing_less graph hashes (round sha256 order hashes) j node h
        (round-Extends sha256 order hashes) e absent' hashed

  rounds-Complete :
      (fuel : ℕ) (graph : ExecutionGraph) (orders : ℕ → List (GraphId × Node)) (n : ℕ)
      (hashes result : Hashes)
      → Distinct (keys graph)
      → ((i : ℕ) → AllIn graph (orders i))
      → IsSound sha256 graph hashes
      → rounds sha256 fuel graph orders n hashes ≡ some result
      → Complete graph result
  unfolding rounds
  rounds-Complete zero graph orders n hashes result d in_graph s e = cc
  rounds-Complete (suc fuel) graph orders n hashes result d in_graph s e =
      elim (Bool-cases (ltb (length hashes) (length graph))) [
        | inl more ↦
            rounds-Complete fuel graph orders (n + 1) (round sha256 (orders n) hashes) result d
              in_graph (round-IsSound sha256 graph (orders n) hashes d (in_graph n) s)
              (rw more at e)
        | inr done ↦
            let same : some hashes ≡ some result = rw done at e in
            let hashes≡result : hashes ≡ result = cc in
            rw (sym hashes≡result) (s, finished graph hashes s done)
      ]

  rounds-some :
      (fuel : ℕ) (graph : ExecutionGraph) (orders : ℕ → List (GraphId × Node)) (rank : GraphId → ℕ)
      (n : ℕ) (hashes : Hashes)
      → Distinct (keys graph)
      → IsRanked graph rank
      → ((i : ℕ) → IsOrder graph (orders i))
      → IsSound sha256 graph hashes
      → missing graph hashes < fuel
      → (result : Hashes) × (rounds sha256 fuel graph orders n hashes ≡ some result)
  unfolding rounds
  rounds-some zero graph orders rank n hashes d ranked ordered s enough =
      absurd (omega (arith, enough))
  rounds-some (suc fuel) graph orders rank n hashes d ranked ordered s enough =
      elim (Bool-cases (ltb (length hashes) (length graph))) [
        | inr done ↦ (hashes, rw done refl)
        | inl more ↦
            let some_missing : 0 < missing graph hashes = ground (arith, s.counted, more) in
            let less =
              round_progress graph (orders n) rank hashes ranked (ordered n) some_missing in
            rw more (
              rounds-some fuel graph orders rank (n + 1) (round sha256 (orders n) hashes) d ranked
                ordered (round-IsSound sha256 graph (orders n) hashes d (ordered n).0 s)
                (omega (arith, less, enough)))
      ]

  -- What a complete result says of an entry.
  Complete-entry :
      (graph : ExecutionGraph) (hashes : Hashes) (id : GraphId) (node : Node)
      → Complete graph hashes
      → lookup id graph ≡ some node
      → (found : Dict Text Text) × (parent_hashes (graph_parents node) hashes ≡ some found)
        × (lookup id hashes ≡ some (node_hash sha256 node found))
  Complete-entry graph hashes id node complete g =
      let (h, hashed) = missing_none graph hashes id complete.1 (lookup-contains graph id node g) in
      let (node', found, g', p, justified) = complete.0.justified id h hashed in
      let node'≡node : node' ≡ node = cc in
      let p' : parent_hashes (graph_parents node) hashes ≡ some found =
        ap (λ n. parent_hashes (graph_parents n) hashes) (sym node'≡node) ∙ p in
      let h≡ : h ≡ node_hash sha256 node found =
        justified ∙ ap (λ n. node_hash sha256 n found) node'≡node in
      (found, p', hashed ∙ ap some h≡)

  -- On a graph of distinct entries whose concrete parents are in the graph and can be ranked before
  -- their children, whatever the orders in which Go ranges over it, a fuel of more rounds than
  -- there are entries is enough: GetHashes returns, and the hash of any entry is the one that its
  -- node and its parents' hashes in the result give.
  pub get_hashes_lem :
      (fuel : ℕ) (graph : ExecutionGraph) (orders : ℕ → List (GraphId × Node)) (rank : GraphId → ℕ)
      (id : GraphId) (node : Node)
      → Distinct (keys graph)
      → IsRanked graph rank
      → ((i : ℕ) → IsOrder graph (orders i))
      → length graph < fuel
      → lookup id graph ≡ some node
      → (hashes : Hashes) × (found : Dict Text Text) × (get_hashes sha256 fuel graph orders
          ≡ some hashes)
        × (parent_hashes (graph_parents node) hashes ≡ some found)
        × (lookup id hashes ≡ some (node_hash sha256 node found))
  unfolding get_hashes
  get_hashes_lem fuel graph orders rank id node d ranked ordered enough g =
      let start = start-IsSound graph in
      let (hashes, e) =
        rounds-some fuel graph orders rank 0 [] d ranked ordered start
          (omega (arith, missing_start graph, enough)) in
      let complete = rounds-Complete fuel graph orders 0 [] hashes d (λ i. (ordered i).0) start e in
      let (found, p, hashed) = Complete-entry graph hashes id node complete g in
      (hashes, found, e, p, hashed)

  -- Complete results agree below a rank.
  agree_below :
      (graph : ExecutionGraph) (rank : GraphId → ℕ) (hashes hashes' : Hashes) (bound : ℕ)
      (id : GraphId)
      → IsRanked graph rank
      → Complete graph hashes
      → Complete graph hashes'
      → rank id < bound
      → contains (keys graph) id ≡ true
      → lookup id hashes ≡ lookup id hashes'
  agree_below graph rank hashes hashes' zero id ranked c c' less inside =
      absurd (omega (arith, less))
  agree_below graph rank hashes hashes' (suc bound) id ranked c c' less inside =
      let (node, g) = contains-lookup graph id inside in
      let (found, p, hashed) = Complete-entry graph hashes id node c g in
      let (found', p', hashed') = Complete-entry graph hashes' id node c' g in
      let parents =
        ForParents-map (λ q. (contains (keys graph) q ≡ true) × (rank q < rank id))
          (λ q. lookup q hashes ≡ lookup q hashes') (graph_parents node) (ranked id node g)
          (λ q (q_inside, before).
            agree_below graph rank hashes hashes' bound q ranked c c' (omega (arith, before, less))
              q_inside) in
      let same = parent_hashes-agree (graph_parents node) hashes hashes' parents in
      let founds = sym p ∙ same ∙ p' in
      let found≡ : found ≡ found' = cc in
      hashed ∙ ap (λ f. some (node_hash sha256 node f)) found≡ ∙ sym hashed'

  unhashed :
      (graph : ExecutionGraph) (hashes : Hashes) (id : GraphId)
      → Complete graph hashes
      → contains (keys graph) id ≡ false
      → lookup id hashes ≡ none
  unhashed graph hashes id c outside = elim (Option-cases (lookup id hashes)) [
    | inl absent ↦ absent
    | inr (h, e) ↦
        let (node, found, g, p, justified) = c.0.justified id h e in
        absurd (ground (arith, lookup-contains graph id node g, outside))
  ]

  -- The hashes do not depend on the orders in which Go ranges over the graph, nor on the number of
  -- rounds that are run: two results of GetHashes on a graph of distinct entries, whose concrete
  -- parents are in the graph and can be ranked before their children, have the same hash, or none,
  -- for every id.
  pub get_hashes_unique :
      (fuel fuel' : ℕ) (graph : ExecutionGraph) (orders orders' : ℕ → List (GraphId × Node))
      (rank : GraphId → ℕ) (hashes hashes' : Hashes) (id : GraphId)
      → Distinct (keys graph)
      → IsRanked graph rank
      → ((i : ℕ) → IsOrder graph (orders i))
      → ((i : ℕ) → IsOrder graph (orders' i))
      → get_hashes sha256 fuel graph orders ≡ some hashes
      → get_hashes sha256 fuel' graph orders' ≡ some hashes'
      → lookup id hashes ≡ lookup id hashes'
  unfolding get_hashes
  get_hashes_unique fuel fuel' graph orders orders' rank hashes hashes' id d ranked o o' e e' =
      let start = start-IsSound graph in
      let c = rounds-Complete fuel graph orders 0 [] hashes d (λ i. (o i).0) start e in
      let c' = rounds-Complete fuel' graph orders' 0 [] hashes' d (λ i. (o' i).0) start e' in
      elim (Bool-cases (contains (keys graph) id)) [
        | inl inside ↦
            agree_below graph rank hashes hashes' (rank id + 1) id ranked c c' (omega arith) inside
        | inr outside ↦
            unhashed graph hashes id c outside ∙ sym (unhashed graph hashes' id c' outside)
      ]
