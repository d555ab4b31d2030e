-- ===== src/App/Plan/Laws.antt =====
-- app/job_exec.go: the plan of SetPlanFromMap has every node once, with the current one at its index.
use skyhookml.Prelude.{
  Dict, lookup, keys, contains, Distinct, contains-append, contains-filter, filter-Distinct,
  Distinct-append, lookup-keys, ◌==◌, nat_eq, text_eq, pair_eq, ℕ, ◌≡◌, refl, sym, ap, subst, ◌∙◌,
  inl, inr, Bool, true, false, not, ◌&&◌, ◌||◌, some, List, [], ◌∷◌, ◌++◌, arith, Bool-cases,
  length, get_elem?, take, take-append_exact, filter,
}
use skyhookml.Graph.Node.{ExecNode, VirtualNode}
use skyhookml.App.Plan.{
  MultiExecJobOp, change_plan, is_done, is_current, add_nodes, add_current, set_plan_from_map,
}

abbrev pub plan_ids : List VirtualNode → List ℕ
plan_ids [] = []
plan_ids (vnode ∷ plan) = vnode.orig_node.id ∷ plan_ids plan

-- The entries stand under the ids of their nodes.
abbrev pub IsById : Dict ℕ ExecNode → Type 0
IsById [] = Unit
IsById ((id, node) ∷ nodes) = (node.id ≡ id) × IsById nodes

-- An order in which Go may range over the nodes.
pub record IsRange (nodes order : Dict ℕ ExecNode) : Type 0 where
  pub by_id : IsById order
  pub distinct : Distinct (keys order)
  pub same : (id : ℕ) → contains (keys order) id ≡ contains (keys nodes) id

plan_ids-append : (xs ys : List VirtualNode) → plan_ids (xs ++ ys) ≡ plan_ids xs ++ plan_ids ys
plan_ids-append [] ys = refl
plan_ids-append (x ∷ xs) ys = ap (◌∷◌ x.orig_node.id) (plan_ids-append xs ys)

get_elem?-append : (xs ys : List VirtualNode) → get_elem? (xs ++ ys) (length xs) ≡ get_elem? ys 0
get_elem?-append [] ys = refl
get_elem?-append (x ∷ xs) ys = get_elem?-append xs ys

lookup-IsById :
    (nodes : Dict ℕ ExecNode) (id : ℕ) (node : ExecNode)
    → IsById nodes
    → lookup id nodes ≡ some node
    → node.id ≡ id
lookup-IsById [] id node by_id e = cc
lookup-IsById ((j, n) ∷ nodes) id node by_id e = elim (Bool-cases (j == id)) [
  | inl same ↦
      let n≡ : n ≡ node = ground (arith, e, same) in
      subst (λ m. m.id ≡ id) n≡ (by_id.0 ∙ (nat_eq.test_iff j id).0 same)
  | inr other ↦ lookup-IsById nodes id node by_id.1 (ground (arith, e, other))
]

module _ (virtualized : ExecNode → VirtualNode)
    (keeps : (node : ExecNode) → (virtualized node).orig_node ≡ node) where
  plan_ids-add_nodes :
      (test : ℕ → Bool) (order : Dict ℕ ExecNode)
      → IsById order
      → plan_ids (add_nodes virtualized test order) ≡ filter test (keys order)
  unfolding add_nodes
  plan_ids-add_nodes test [] by_id = refl
  plan_ids-add_nodes test ((id, node) ∷ order) by_id =
      let rest = plan_ids-add_nodes test order by_id.1 in
      let id≡ : (virtualized node).orig_node.id ≡ id = ap (λ n. n.id) (keeps node) ∙ by_id.0 in
      elim (Bool-cases (test id)) [
        | inl passes ↦ rw (passes, id≡, rest) refl
        | inr fails ↦ rw fails rest
      ]

  -- With a current node that is not done, the plan that SetPlanFromMap computes has every node
  -- once, first those that are done, and at the plan's index the current one, whatever the orders
  -- in which Go ranges over the nodes. A node is virtualized from itself, and stands under its id.
  pub set_plan_from_map_lem :
      (first second nodes : Dict ℕ ExecNode) (done : Dict ℕ Bool) (cur id : ℕ) (node : ExecNode)
      → IsRange nodes first
      → IsRange nodes second
      → IsById nodes
      → lookup cur nodes ≡ some node
      → is_done done cur ≡ false
      → (op : MultiExecJobOp) × (set_plan_from_map virtualized first second nodes done (some cur)
          ≡ some op)
        × Distinct (plan_ids op.plan)
        × (contains (plan_ids op.plan) id ≡ contains (keys nodes) id)
        × (contains (plan_ids (take op.plan_index op.plan)) id
            ≡ (contains (keys nodes) id && is_done done id))
        × (get_elem? op.plan op.plan_index ≡ some (virtualized node))
  unfolding set_plan_from_map add_current change_plan is_current
  set_plan_from_map_lem first second nodes done cur id node one two by_id found pending =
      let finished = add_nodes virtualized (is_done done) first in
      let waits : ℕ → Bool = λ i. not (is_done done i || i == cur) in
      let rest = add_nodes virtualized waits second in
      let cur≡ : (virtualized node).orig_node.id ≡ cur =
        ap (λ n. n.id) (keeps node) ∙ lookup-IsById nodes cur node by_id found in
      let ids : plan_ids (finished ++ virtualized node ∷ rest)
          ≡ filter (is_done done) (keys first) ++ cur ∷ filter waits (keys second) =
        plan_ids-append finished (virtualized node ∷ rest)
        ∙ rw
            (
              plan_ids-add_nodes (is_done done) first one.by_id,
              plan_ids-add_nodes waits second two.by_id,
              cur≡,
            )
            refl in
      let begin : plan_ids (take (length finished) (finished ++ virtualized node ∷ rest))
          ≡ filter (is_done done) (keys first) =
        ap plan_ids (take-append_exact (length finished) finished (virtualized node ∷ rest) refl)
        ∙ plan_ids-add_nodes (is_done done) first one.by_id in
      (
        record { plan = finished ++ virtualized node ∷ rest; plan_index = length finished },
        rw found refl,
        subst Distinct (sym ids) (
            Distinct-append (filter (is_done done) (keys first)) (cur ∷ filter waits (keys second))
              (filter-Distinct (is_done done) (keys first) one.distinct)
              (
                ground (arith, contains-filter waits (keys second) cur, nat_eq.test_iff cur cur),
                filter-Distinct waits (keys second) two.distinct,
              )
              (λ k c. ground (
                arith,
                c,
                contains-filter (is_done done) (keys first) k,
                contains-filter waits (keys second) k,
                differs k,
              ))),
        ap (λ ks. contains ks id) ids ∙ all_nodes,
        ap (λ ks. contains ks id) begin
            ∙ contains-filter (is_done done) (keys first) id
            ∙ ap (λ b. b && is_done done id) (one.same id),
        get_elem?-append finished (virtualized node ∷ rest),
      )
    where
      differs : (k : ℕ) → is_done done k ≡ true → (cur == k) ≡ false
      differs k d = elim (Bool-cases (cur == k)) [
        | inr other ↦ other
        | inl same ↦
            let cur_done : is_done done cur ≡ true =
              ap (is_done done) ((nat_eq.test_iff cur k).0 same) ∙ d in
            absurd (ground (arith, cur_done, pending))
      ]

      all_nodes :
          contains
            (filter (is_done done) (keys first)
              ++ cur ∷ filter (λ i. not (is_done done i || i == cur)) (keys second))
            id
          ≡ contains (keys nodes) id
      all_nodes = elim (Bool-cases (cur == id)) [
        | inl same ↦
            let inside =
              subst (λ i. contains (keys nodes) i ≡ true) ((nat_eq.test_iff cur id).0 same)
                (lookup-keys cur nodes node found) in
            ground (
              arith,
              same,
              inside,
              contains-append (filter (is_done done) (keys first))
                  (cur ∷ filter (λ i. not (is_done done i || i == cur)) (keys second)) id,
            )
        | inr other ↦ ground (
          arith,
          other,
          contains-append (filter (is_done done) (keys first))
              (cur ∷ filter (λ i. not (is_done done i || i == cur)) (keys second)) id,
          contains-filter (is_done done) (keys first) id,
          contains-filter (λ i. not (is_done done i || i == cur)) (keys second) id,
          one.same id,
          two.same id,
          nat_eq.test_iff id cur,
          nat_eq.test_iff cur id,
        )
      ]
