-- ===== src/App/Jobs/Tests.antt =====
-- app/job.go: a job that is stopped.
use skyhookml.Prelude.{
  Distinct, Text, codes, nat_eq, text_eq, pair_eq, ◌≡◌, refl, Bool, true, none, some, List, [], ◌∷◌,
  length, replicate,
}
use skyhookml.App.Jobs.{
  AppJobOp, Event, set_cleanup_func, update, cleanup, set_done, continue_end, stop, terminated,
  steps, start,
}
use skyhookml.App.Jobs.Laws.{funcs, cleanup_once}
use skyhookml.App.Jobs.Stops.{set_done_terminated}

abbrev history : List Event
history =
    set_cleanup_func (some 1)
    ∷ set_cleanup_func none
    ∷ set_cleanup_func (some 2)
    ∷ stop
    ∷ cleanup
    ∷ set_done none
    ∷ []

differ : Distinct (funcs history)
unfolding nat_eq
differ = (refl, (refl, tt))

-- A wrapped job op that takes any lines.
abbrev accepts : List (List Text) → List Text → Bool
accepts updates lines = true

cleanup_once_example : (op : AppJobOp) × (steps accepts start history ≡ some op) × Distinct op.ran
cleanup_once_example = cleanup_once accepts (λ updates lines. refl) history differ

set_done_terminated_example :
    (op : AppJobOp) × (steps accepts start history ≡ some op)
    × (op.cleanup_func ≡ none)
    × (op.stopped ≡ true)
    × (op' : AppJobOp) × (steps accepts op (update (codes "last line" ∷ []) ∷ continue_end ∷ [])
        ≡ some op')
    × (last : AppJobOp) × (steps accepts op' (replicate (length op'.ending) continue_end)
        ≡ some last)
    × (last.ending ≡ [])
    × (last.job_error ≡ some terminated)
set_done_terminated_example =
    set_done_terminated accepts (λ updates lines. refl)
      (set_cleanup_func (some 1) ∷ set_cleanup_func none ∷ set_cleanup_func (some 2) ∷ [])
      (cleanup ∷ []) (update (codes "last line" ∷ []) ∷ continue_end ∷ []) none
