-- ===== src/App/RunNode/Whole/Tests.antt =====
-- A node to be run, and two other jobs.
use skyhookml.Prelude.{
  contains, Distinct, Text, codes, nat_eq, text_eq, pair_eq, ℕ, ◌≡◌, refl, ◌⊎◌, none, some, List,
  [], ◌∷◌,
}
use skyhookml.Graph.Node.{GraphId, Node, exec, ExecNode, virtualize, exec_kind}
use skyhookml.App.RunNode.Whole.{conflict_err}
use skyhookml.App.RunNode.Whole.Conflict.{AllNamed, AllApart, Shared, to_run, conflict_err_lem}

abbrev train : ExecNode
train = record { id = 5; name = codes "train"; op = codes "op"; params = []; parents = [] }

abbrev order : List (GraphId × Node)
order = (record { kind = exec_kind; id = 5; virtual_key = [] }, exec (virtualize train)) ∷ []

order-AllNamed : AllNamed order
unfolding virtualize text_eq
order-AllNamed = ((virtualize train, refl, refl), tt)

conflict_err_lem_example :
    (our_ids : List ℕ) × Distinct our_ids
    × (contains our_ids 5 ≡ to_run order 5)
    × (((conflict_err order ((2 ∷ []) ∷ (3 ∷ 5 ∷ []) ∷ []) ≡ some (none, our_ids))
          × AllApart order ((2 ∷ []) ∷ (3 ∷ 5 ∷ []) ∷ []))
        ⊎ ((err : Text) × (conflict_err order ((2 ∷ []) ∷ (3 ∷ 5 ∷ []) ∷ [])
              ≡ some (some err, our_ids))
            × Shared order ((2 ∷ []) ∷ (3 ∷ 5 ∷ []) ∷ []) err))
conflict_err_lem_example = conflict_err_lem order ((2 ∷ []) ∷ (3 ∷ 5 ∷ []) ∷ []) 5 order-AllNamed
