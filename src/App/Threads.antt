-- ===== src/App/Threads.antt =====
-- app/exec.go: the threads in which RunData.Run applies the tasks of a node. A step is what one thread
-- does while it holds the mutex, the test of JobOp.IsStopping, or the sending of a task to the
-- container, whose answer is an argument of a later step. A thread that has taken a task holds it without
-- the mutex until it sends it, so tasks can be sent in another order than they are taken. `posted` is what
-- the container has been asked to apply.
pub mod Totals
pub mod Laws
pub mod Complete
pub mod Bound
pub mod Halted
pub mod Stopped
mod Tests
use skyhookml.Prelude.{
  Text, nat_eq, text_eq, pair_eq, ℕ, ◌+◌, Bool, true, false, Option, none, some, List, [], ◌∷◌,
  ◌++◌, if◌then◌else◌, ◌>>=◌, get_elem?, set, replicate,
}
use skyhookml.Item.{ExecTask}

pub data Thread : Type 0 where
  -- At the head of the loop; past the test of IsStopping; waiting for an answer; out of the loop.
  idle polled applying finished : Thread
  -- With a task that it has taken and not yet sent.
  holding : (task : ExecTask) → Thread

pub record Run : Type 0 where
  pub tasks : List ExecTask
  pub counter : ℕ
  pub apply_err : Option Text
  pub stopping : Bool
  pub progress : ℕ
  pub threads : List Thread
  pub posted : List ExecTask

pub data Event : Type 0 where
  stop : Event
  check take_task post succeed : ℕ → Event
  fail : ℕ → (error : Text) → Event

abbrev pub move : ℕ → Thread → Run → Run
move i t s = record s { threads = set s.threads i t }

-- `for !rd.JobOp.IsStopping()`
pub check_at : Option Thread → ℕ → Run → Option Run
check_at none i s = none
check_at (some idle) i s = some (move i (if s.stopping then finished else polled) s)
check_at (some polled) i s = none
check_at (some applying) i s = none
check_at (some finished) i s = none
check_at (some (holding task)) i s = none

-- The next task, if one is left and no other has failed.
pub next_task : Option Text → Option ExecTask → ℕ → Run → Run
next_task (some err) task i s = move i finished s
next_task none none i s = move i finished s
next_task none (some task) i s = record (move i (holding task) s) { counter = s.counter + 1 }

pub take_at : Option Thread → ℕ → Run → Option Run
take_at none i s = none
take_at (some idle) i s = none
take_at (some polled) i s = some (next_task s.apply_err (get_elem? s.tasks s.counter) i s)
take_at (some applying) i s = none
take_at (some finished) i s = none
take_at (some (holding task)) i s = none

-- The task is sent to the container.
pub post_at : Option Thread → ℕ → Run → Option Run
post_at none i s = none
post_at (some idle) i s = none
post_at (some polled) i s = none
post_at (some applying) i s = none
post_at (some finished) i s = none
post_at (some (holding task)) i s =
    some (record (move i applying s) { posted = s.posted ++ task ∷ [] })

pub succeed_at : Option Thread → ℕ → Run → Option Run
succeed_at none i s = none
succeed_at (some idle) i s = none
succeed_at (some polled) i s = none
succeed_at (some applying) i s = some (record (move i idle s) { progress = s.progress + 1 })
succeed_at (some finished) i s = none
succeed_at (some (holding task)) i s = none

pub fail_at : Option Thread → Text → ℕ → Run → Option Run
fail_at none err i s = none
fail_at (some idle) err i s = none
fail_at (some polled) err i s = none
fail_at (some applying) err i s = some (record (move i finished s) { apply_err = some err })
fail_at (some finished) err i s = none
fail_at (some (holding task)) err i s = none

pub step : Run → Event → Option Run
step s stop = some (record s { stopping = true })
step s (check i) = check_at (get_elem? s.threads i) i s
step s (take_task i) = take_at (get_elem? s.threads i) i s
step s (post i) = post_at (get_elem? s.threads i) i s
step s (succeed i) = succeed_at (get_elem? s.threads i) i s
step s (fail i err) = fail_at (get_elem? s.threads i) err i s

pub steps : Run → List Event → Option Run
steps s [] = some s
steps s (e ∷ es) = do s' ← step s e; steps s' es

abbrev pub start : ℕ → List ExecTask → Run
start nthreads tasks = record {
  tasks = tasks;
  counter = 0;
  apply_err = none;
  stopping = false;
  progress = 0;
  threads = replicate nthreads idle;
  posted = [];
}

-- `wg.Wait()`
pub all_finished : List Thread → Bool
all_finished [] = true
all_finished (finished ∷ ts) = all_finished ts
all_finished (idle ∷ ts) = false
all_finished (polled ∷ ts) = false
all_finished (applying ∷ ts) = false
all_finished (holding task ∷ ts) = false

-- What Run returns after the wait, and whether it marks the output datasets as done.
pub outcome : (will_be_done : Bool) → Run → Option Text × Bool
outcome will_be_done s = elim s.apply_err [
  | some err ↦ (some err, false)
  | none ↦ (none, will_be_done)
]
