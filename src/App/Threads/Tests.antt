-- ===== src/App/Threads/Tests.antt =====
-- app/exec.go: two threads and two tasks.
use skyhookml.Prelude.{
  ◌==◌, codes, nat_eq, text_eq, pair_eq, ◌+◌, ◌*◌, ◌≤◌, ◌≡◌, refl, true, false, none, some, List,
  [], ◌∷◌, arith,
}
use skyhookml.Item.{ExecTask}
use skyhookml.App.Threads.{
  finished, Run, Event, stop, check, take_task, post, succeed, check_at, next_task, take_at,
  post_at, succeed_at, step, steps, start, all_finished, outcome,
}
use skyhookml.App.Threads.Totals.{count}
use skyhookml.App.Threads.Complete.{outcome-steps}
use skyhookml.App.Threads.Bound.{thread_steps, thread_steps-le}
use skyhookml.App.Threads.Stopped.{outcome-stopped}

abbrev a : ExecTask
a = record { key = codes "a"; items = []; metadata = [] }

abbrev b : ExecTask
b = record { key = codes "b"; items = []; metadata = [] }

abbrev two : List ExecTask
two = a ∷ b ∷ []

abbrev history : List Event
history =
    check 0
    ∷ check 1
    ∷ take_task 1
    ∷ take_task 0
    ∷ post 0
    ∷ post 1
    ∷ succeed 0
    ∷ check 0
    ∷ succeed 1
    ∷ take_task 0
    ∷ check 1
    ∷ take_task 1
    ∷ []

abbrev final : Run
final = record {
  tasks = two;
  counter = 2;
  apply_err = none;
  stopping = false;
  progress = 2;
  threads = finished ∷ finished ∷ [];
  posted = b ∷ a ∷ [];
}

history_runs : steps (start 2 two) history ≡ some final
unfolding steps step check_at take_at post_at succeed_at next_task
history_runs = refl

all_finished-final : all_finished final.threads ≡ true
unfolding all_finished
all_finished-final = refl

outcome-final : (outcome true final).0 ≡ none
unfolding outcome
outcome-final = refl

outcome-steps_example :
    (count (λ t. t.key == codes "a") final.posted ≡ count (λ t. t.key == codes "a") two)
    × (final.progress ≡ 2)
outcome-steps_example =
    outcome-steps 2 two history final true (λ t. t.key == codes "a") (omega arith) history_runs
      all_finished-final refl outcome-final

thread_steps-le_example : thread_steps history ≤ 2 * 2 + 4 * 2
thread_steps-le_example = thread_steps-le 2 two history final history_runs

abbrev halted : Run
halted = record (start 2 two) { stopping = true; threads = finished ∷ finished ∷ [] }

stopped_runs : steps (start 2 two) (stop ∷ check 1 ∷ check 0 ∷ []) ≡ some halted
unfolding steps step check_at
stopped_runs = refl

outcome-stopped_example :
    (halted.posted ≡ [])
    × (outcome true halted ≡ (none, true))
    × (last : Run) × (steps (start 2 two) (stop ∷ check 0 ∷ check 1 ∷ []) ≡ some last)
    × (all_finished last.threads ≡ true)
outcome-stopped_example = outcome-stopped 2 two true (check 1 ∷ check 0 ∷ []) halted stopped_runs
