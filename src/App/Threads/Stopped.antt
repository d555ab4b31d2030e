-- ===== src/App/Threads/Stopped.antt =====
-- app/exec.go: RunData.Run when the job is stopped before its threads take a task.
use skyhookml.Prelude.{
  Text, nat_eq, text_eq, pair_eq, ℕ, zero, suc, ◌≡◌, refl, ap, ◌∙◌, Bool, true, false, Option, none,
  some, List, [], ◌∷◌, ◌++◌, get_elem?, set, replicate,
}
use skyhookml.Item.{ExecTask}
use skyhookml.App.Threads.{
  idle, finished, Run, Event, stop, check, check_at, step, steps, start, all_finished, outcome,
}
use skyhookml.App.Threads.Halted.{all_quiet-replicate, steps-Halted}

-- Each of `m` threads from the index `i` on tests IsStopping.
abbrev pub checks : ℕ → ℕ → List Event
checks i zero = []
checks i (suc m) = check i ∷ checks (suc i) m

abbrev halfway : List ExecTask → ℕ → ℕ → Run
halfway tasks k m = record {
  tasks = tasks;
  counter = 0;
  apply_err = none;
  stopping = true;
  progress = 0;
  threads = replicate k finished ++ replicate m idle;
  posted = [];
}

at_front : (k m : ℕ) → get_elem? (replicate k finished ++ replicate (suc m) idle) k ≡ some idle
at_front zero m = refl
at_front (suc k) m = at_front k m

set-front :
    (k m : ℕ)
    → set (replicate k finished ++ replicate (suc m) idle) k finished
      ≡ replicate (suc k) finished ++ replicate m idle
set-front zero m = refl
set-front (suc k) m = ap (◌∷◌ finished) (set-front k m)

check_front :
    (tasks : List ExecTask) (k m : ℕ)
    → step (halfway tasks k (suc m)) (check k) ≡ some (halfway tasks (suc k) m)
unfolding step check_at
check_front tasks k m =
    ap (λ t. check_at t k (halfway tasks k (suc m))) (at_front k m)
    ∙ ap (λ ts. some (record (halfway tasks k (suc m)) { threads = ts })) (set-front k m)

steps-checks :
    (tasks : List ExecTask) (k m : ℕ)
    → (j : ℕ) × (steps (halfway tasks k m) (checks k m) ≡ some (halfway tasks j 0))
unfolding steps
steps-checks tasks k zero = (k, refl)
steps-checks tasks k (suc m) =
    let (j, rest) = steps-checks tasks (suc k) m in (j, rw (check_front tasks k m, steps) rest)

all_finished-replicate : (k : ℕ) → all_finished (replicate k finished ++ []) ≡ true
unfolding all_finished
all_finished-replicate zero = refl
all_finished-replicate (suc k) = all_finished-replicate k

-- When a job is stopped after its container is acquired and before its first thread tests
-- IsStopping, then however the threads go on, no task is ever posted, and Run, when they are
-- through, returns no error and marks the outputs as done if the tasks were all that was left.
-- The threads can come to an end in this way, each by testing IsStopping.
pub outcome-stopped :
    (n : ℕ) (tasks : List ExecTask) (will_be_done : Bool) (es : List Event) (s : Run)
    → steps (start n tasks) (stop ∷ es) ≡ some s
    → (s.posted ≡ [])
      × (outcome will_be_done s ≡ (none, will_be_done))
      × (last : Run) × (steps (start n tasks) (stop ∷ checks 0 n) ≡ some last)
      × (all_finished last.threads ≡ true)
unfolding steps step outcome
outcome-stopped n tasks will_be_done es s run =
    let h =
      steps-Halted (halfway tasks 0 n) s es
        (record {
          stopped = refl;
          no_error = refl;
          none_posted = refl;
          quiet = all_quiet-replicate n;
        })
        run in
    let (j, ends) = steps-checks tasks 0 n in
    let returns : Option Text → Option Text × Bool =
      λ o. elim o [ some err ↦ (some err, false) | none ↦ (none, will_be_done) ] in
    (h.none_posted, ap returns h.no_error, halfway tasks j 0, ends, all_finished-replicate j)
