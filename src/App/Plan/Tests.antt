-- ===== src/App/Plan/Tests.antt =====
-- Three nodes, one of them done and one of them current.
use skyhookml.Prelude.{
  Dict, lookup, keys, contains, Distinct, codes, nat_eq, text_eq, pair_eq, ℕ, ◌≡◌, refl, Bool, true,
  false, ◌&&◌, some, [], ◌∷◌, get_elem?, take,
}
use skyhookml.Graph.Node.{ExecNode, virtualize}
use skyhookml.App.Plan.{MultiExecJobOp, is_done, set_plan_from_map}
use skyhookml.App.Plan.Laws.{plan_ids, IsRange, set_plan_from_map_lem}

abbrev configured : ℕ → ExecNode
configured id = record { id = id; name = codes "node"; op = codes "op"; params = []; parents = [] }

abbrev nodes : Dict ℕ ExecNode
nodes = (4, configured 4) ∷ (6, configured 6) ∷ (9, configured 9) ∷ []

abbrev done : Dict ℕ Bool
done = (4, true) ∷ []

keeps : (node : ExecNode) → (virtualize node).orig_node ≡ node
unfolding virtualize
keeps node = refl

itself-IsRange : IsRange nodes nodes
unfolding nat_eq
itself-IsRange = record {
  by_id = (refl, (refl, (refl, tt)));
  distinct = (refl, (refl, (refl, tt)));
  same = λ id. refl;
}

current_found : lookup 6 nodes ≡ some (configured 6)
unfolding nat_eq
current_found = refl

current_waits : is_done done 6 ≡ false
unfolding is_done nat_eq
current_waits = refl

set_plan_from_map_lem_example :
    (op : MultiExecJobOp) × (set_plan_from_map virtualize nodes nodes nodes done (some 6) ≡ some op)
    × Distinct (plan_ids op.plan)
    × (contains (plan_ids op.plan) 9 ≡ contains (keys nodes) 9)
    × (contains (plan_ids (take op.plan_index op.plan)) 9
        ≡ (contains (keys nodes) 9 && is_done done 9))
    × (get_elem? op.plan op.plan_index ≡ some (virtualize (configured 6)))
set_plan_from_map_lem_example =
    set_plan_from_map_lem virtualize keeps nodes nodes nodes done 6 9 (configured 6) itself-IsRange
      itself-IsRange (refl, (refl, (refl, tt))) current_found current_waits
