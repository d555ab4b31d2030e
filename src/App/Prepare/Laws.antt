-- ===== src/App/Prepare/Laws.antt =====
-- app/exec.go: what DBExecNode.PrepareRun selects.
use skyhookml.Prelude.{
  contains, Text, nat_eq, text_eq, pair_eq, ◌≤◌, ◌<◌, ◌≡◌, refl, sym, ap, inl, inr, Bool, true,
  false, ◌&&◌, Option, none, some, List, [], ◌∷◌, arith, eqb, if◌then◌else◌, Bool-cases, length,
  filter,
}
use skyhookml.Item.{ExecTask}
use skyhookml.App.Prepare.{RunData, limit_tasks}

-- The keys to which a run is limited; without a limit, every key.
abbrev pub within : Option (List Text) → Text → Bool
within none key = true
within (some limit) key = contains limit key

abbrev pub all_within : Option (List Text) → List ExecTask → Bool
all_within limit [] = true
all_within limit (t ∷ ts) = within limit t.key && all_within limit ts

abbrev pub tasks_within : Option (List Text) → List ExecTask → List ExecTask
tasks_within limit [] = []
tasks_within limit (t ∷ ts) =
    if within limit t.key then t ∷ tasks_within limit ts else tasks_within limit ts

length-within-le :
    (limit : Option (List Text)) (ts : List ExecTask) → length (tasks_within limit ts) ≤ length ts
length-within-le limit [] = omega arith
length-within-le limit (t ∷ ts) = ground (arith, length-within-le limit ts)

pub tasks_within-all :
    (limit : Option (List Text)) (ts : List ExecTask)
    → all_within limit ts ≡ true
    → tasks_within limit ts ≡ ts
tasks_within-all limit [] h = refl
tasks_within-all limit (t ∷ ts) h = ground (arith, tasks_within-all limit ts, h)

length-within-less :
    (limit : Option (List Text)) (ts : List ExecTask)
    → all_within limit ts ≡ false
    → length (tasks_within limit ts) < length ts
length-within-less limit [] h = cc
length-within-less limit (t ∷ ts) h =
    ground (arith, length-within-less limit ts, length-within-le limit ts, h)

pub all_within-none : (ts : List ExecTask) → all_within none ts ≡ true
all_within-none [] = refl
all_within-none (t ∷ ts) = all_within-none ts

filter-within :
    (limit : List Text) (ts : List ExecTask)
    → filter (λ t. contains limit t.key) ts ≡ tasks_within (some limit) ts
filter-within limit [] = refl
filter-within limit (t ∷ ts) = elim (Bool-cases (contains limit t.key)) [
  | inl kept ↦ rw kept (ap (◌∷◌ t) (filter-within limit ts))
  | inr dropped ↦ rw dropped (filter-within limit ts)
]

abbrev pub Selects : Option (List Text) → Bool → List ExecTask → RunData → Type 0
Selects limit parents_done pending rd =
    (rd.tasks ≡ tasks_within limit pending)
    × (rd.will_be_done ≡ (parents_done && all_within limit pending))

pub limit_tasks-Selects :
    (limit : Option (List Text)) (parents_done : Bool) (pending : List ExecTask)
    → Selects limit parents_done pending (limit_tasks limit parents_done pending)
unfolding limit_tasks
limit_tasks-Selects none parents_done pending = (
  sym (tasks_within-all none pending (all_within-none pending)),
  ground (arith, all_within-none pending),
)
limit_tasks-Selects (some limit) parents_done pending =
    rw (filter-within limit pending) (elim (Bool-cases (all_within (some limit) pending)) [
      | inl all ↦
          let same = tasks_within-all (some limit) pending all in
          let equal : eqb (length (tasks_within (some limit) pending)) (length pending) ≡ true =
            ground (arith, ap length same) in
          rw equal (sym same, ground (arith, all))
      | inr some_dropped ↦
          let unequal : eqb (length (tasks_within (some limit) pending)) (length pending) ≡ false =
            ground (arith, length-within-less (some limit) pending some_dropped) in
          rw unequal (refl, ground (arith, some_dropped))
    ])
