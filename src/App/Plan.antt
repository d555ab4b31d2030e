-- ===== src/App/Plan.antt =====
-- app/job_exec.go: the plan of MultiExecJobOp that SetPlanFromMap computes. How an op virtualizes a node and the
-- orders in which Go ranges over the nodes, twice, are arguments. A panic is `none`. The lock and the current
-- job are left out.
pub mod Laws
mod Tests
use skyhookml.Prelude.{
  Dict, lookup, lookup_or, ◌==◌, nat_eq, text_eq, pair_eq, ℕ, Bool, false, not, ◌||◌, Option, none,
  some, List, [], ◌∷◌, ◌++◌, if◌then◌else◌, ◌>>=◌, length,
}
use skyhookml.Graph.Node.{ExecNode, VirtualNode}

pub record MultiExecJobOp : Type 0 where
  pub plan : List VirtualNode
  pub plan_index : ℕ

pub change_plan : List VirtualNode → ℕ → MultiExecJobOp
change_plan plan plan_index = record { plan = plan; plan_index = plan_index }

pub is_done : Dict ℕ Bool → ℕ → Bool
is_done done id = lookup_or false id done

-- No current node is -1.
pub is_current : Option ℕ → ℕ → Bool
is_current none id = false
is_current (some cur) id = id == cur

module _ (virtualized : ExecNode → VirtualNode) where
  -- The nodes whose ids pass a test.
  pub add_nodes : (ℕ → Bool) → Dict ℕ ExecNode → List VirtualNode
  add_nodes test [] = []
  add_nodes test ((id, node) ∷ order) =
      if test id then virtualized node ∷ add_nodes test order else add_nodes test order

  pub add_current : Dict ℕ ExecNode → Option ℕ → Option (List VirtualNode)
  add_current nodes none = some []
  add_current nodes (some cur) = do node ← lookup cur nodes; some (virtualized node ∷ [])

  pub set_plan_from_map :
      Dict ℕ ExecNode
      → Dict ℕ ExecNode
      → Dict ℕ ExecNode
      → Dict ℕ Bool
      → Option ℕ
      → Option MultiExecJobOp
  set_plan_from_map first second nodes done cur = do
    current ← add_current nodes cur
    let finished = add_nodes (is_done done) first in
        some (
          change_plan
            (finished
              ++ (current ++ add_nodes (λ id. not (is_done done id || is_current cur id)) second))
            (length finished))
