-- ===== src/App/Jobs.antt =====
-- app/job.go: AppJobOp, through which a job of the coordinator is updated, stopped and ended. A cleanup
-- function is known by a number, and `ran` has the calls of such functions, in order. The wrapped job ops
-- get the lines of each update; whether one of them panics on these lines, after the updates before them,
-- is an argument, and a panic is none. A step is what a call does while it holds the mutex. What SetDone
-- does after it has released the mutex is a list of further steps, `ending`, between which other calls
-- can come; the calls of SetDone for one job are those of the thread of that job, so their
-- steps follow one another. Stop is modelled up to its wait. The encoding of the state is left out.
pub mod Laws
pub mod Stops
mod Tests
use skyhookml.Prelude.{
  Text, codes, nat_eq, text_eq, pair_eq, ℕ, Bool, true, false, Option, none, some, List, [], ◌∷◌,
  ◌++◌, if◌then◌else◌, ◌>>=◌,
}
use skyhookml.Job.Tail.{TailJobOp}
use skyhookml.Job.Tail as Tail

-- An error, with the output lines that a CmdError has.
pub record JobError : Type 0 where
  pub message : Text
  pub cmd_lines : Option (List Text)

-- What SetDone does after it has released the mutex: it writes lines, and records the end.
pub data EndStep : Type 0 where
  write : (lines : List Text) → EndStep
  record_end : (message : Text) → EndStep

pub record AppJobOp : Type 0 where
  pub tail_op : TailJobOp
  pub stopping : Bool
  pub stopped : Bool
  pub cleanup_func : Option ℕ
  pub ran : List ℕ
  -- The updates that the wrapped job ops have got.
  pub updates : List (List Text)
  -- The error that DBJob.SetDone has written, empty for a success.
  pub job_error : Option Text
  pub ending : List EndStep

pub data Event : Type 0 where
  set_cleanup_func : Option ℕ → Event
  update : List Text → Event
  cleanup : Event
  set_done : Option JobError → Event
  continue_end : Event
  stop : Event

pub run_cleanup : Option ℕ → AppJobOp → AppJobOp
run_cleanup none op = record op { cleanup_func = none }
run_cleanup (some f) op = record op { ran = op.ran ++ f ∷ []; cleanup_func = none }

abbrev pub terminated : Text
terminated = codes "terminated by user"

-- The lines that the error may include.
pub add_cmd_lines : Option (List Text) → List EndStep
add_cmd_lines none = []
add_cmd_lines (some lines) = write lines ∷ []

-- The part of SetDone after the mutex is released.
pub end_steps : (was_terminated : Bool) → Option JobError → List EndStep
end_steps true err = record_end terminated ∷ []
end_steps false none = write (codes "Job completed successfully." ∷ []) ∷ record_end [] ∷ []
end_steps false (some err) =
    add_cmd_lines err.cmd_lines
    ++ write ((codes "Job exiting with error: " ++ err.message) ∷ []) ∷ record_end err.message ∷ []

-- The part before.
pub end_job : Option JobError → AppJobOp → AppJobOp
end_job err op =
    let op' = run_cleanup op.cleanup_func op in
    record op' { stopped = true; ending = op'.ending ++ end_steps op'.stopping err }

-- Stop updates only the tail, not the wrapped job ops.
pub stop_job : AppJobOp → Option AppJobOp
stop_job op =
    let op' = run_cleanup op.cleanup_func op in
    do
      tail ←
          Tail.update op'.tail_op (codes "TERMINATING JOB: user requested to stop this job." ∷ [])
      some (record op' { stopping = true; tail_op = tail })

module _ (accepts : List (List Text) → List Text → Bool) where
  pub update_op : List Text → AppJobOp → Option AppJobOp
  update_op lines op = do
    tail ← Tail.update op.tail_op lines
    if accepts op.updates lines
        then some (record op { tail_op = tail; updates = op.updates ++ lines ∷ [] })
        else none

  pub run_end : EndStep → AppJobOp → Option AppJobOp
  run_end (write lines) op = update_op lines op
  run_end (record_end message) op = some (record op { job_error = some message })

  pub continue_job : List EndStep → AppJobOp → Option AppJobOp
  continue_job [] op = some op
  continue_job (e ∷ ending) op = run_end e (record op { ending = ending })

  pub step : AppJobOp → Event → Option AppJobOp
  step op (set_cleanup_func f) = some (record op { cleanup_func = f })
  step op (update lines) = update_op lines op
  step op cleanup = some (run_cleanup op.cleanup_func op)
  step op (set_done err) = some (end_job err op)
  step op continue_end = continue_job op.ending op
  step op stop = stop_job op

  pub steps : AppJobOp → List Event → Option AppJobOp
  steps op [] = some op
  steps op (e ∷ es) = do op' ← step op e; steps op' es

abbrev pub start : AppJobOp
start = record {
  tail_op = record { lines = []; num_lines = 0 };
  stopping = false;
  stopped = false;
  cleanup_func = none;
  ran = [];
  updates = [];
  job_error = none;
  ending = [];
}
