-- ===== src/Lib.antt =====
-- skyhookml runs machine-learning pipelines over datasets. A workspace has a graph of execution nodes, each
-- of which applies an op to the items of its parents. The coordinator (app/) prepares the run of a
-- node, acquires a container for its op from a worker or a pool of workers (worker_pool/), and posts the tasks
-- of the run to the container, where the op (exec_ops/) reads and writes items of datasets
-- (skyhook/).
--
-- What is modelled where:
--   Prelude          Go's strings, maps, integers and slices as far as the source uses them here: a
--                    string is its bytes (Text), a map an association list (Dict), whose order
--                    stands for the unspecified order of `range`; Itoa and Atoi; ℤ over the native ℕ.
--   Item             skyhook/data.go, skyhook/dataset.go, skyhook/exec_op.go: DataType, Dataset, Item and
--                    ExecTask as records.
--   Graph.Node       skyhook/graph.go, skyhook/exec.go, skyhook/exec_op.go: the nodes of execution graphs,
--                    their ids, their parents (GraphParents), LocalHash, Virtualize and
--                    GetRunnable.
--   Graph.Hash       skyhook/graph.go: GetHashes, with the order of each round as an argument and SHA-256
--                    as a parameter. Fuel counts the rounds of the outer loop: each round hashes
--                    a node, so one more than there are nodes is enough.
--                    The order of ranging over a node's parents is fixed in the loop, and
--                    Graph.Hash.Ranged compares two such orders.
--   Tasks.Groups     exec_ops/util.go: GroupItems, SimpleTasks, SingleTask, MapGetOutputKeys and
--                    MapGetNeededInputs.
--   Tasks.Split      exec_ops/split/split.go: GetTasks after the shuffle, which is an argument.
--                    Percentages are natural numbers; a negative one makes the source panic.
--   Tasks.Union      exec_ops/union/union.go: GetTasks. Fuel counts the keys tried for an item; one more than
--                    the keys seen so far is enough.
--   Tasks.Resample   exec_ops/resample/resample.go: the loop of Apply that resamples sequence data.
--   Data.Slices      skyhook/data.go: SliceReader and SliceWriter over lists.
--   Data.Synchronized  skyhook/data_synchronized_reader.go: SynchronizedReader over opened readers, and
--                    PerFrame. Fuel counts the rounds, of which there is one for each chunk and one more.
--   Data.Detection   skyhook/data_detection.go: the record of a detection.
--   Tracker          exec_ops/simple_tracker/tracker.go: the matching of detections and the loop over the
--                    frames, with the floats as a type and their geometry as an argument.
--   Image.Line       skyhook/bresenham.go: DrawLineOnCells. Fuel counts the rounds of its loop, of which
--                    there is one for each unit of the longer side and two more.
--   Job.Tail         skyhook/job.go: TailJobOp.
--   App.Prepare      app/exec.go: PrepareRun and GetComputedKeys of a node. The database's answers are
--                    arguments and GetTasks of the op is a parameter.
--   App.Incorporate  app/graph.go: GetNodeByGraphID, IncorporateIntoGraph, GetGraph and Hash over an
--                    argument that holds what the database answers. Fuel counts the nodes searched: one more than
--                    there are new and known nodes is enough.
--   App.RunNode      app/graph.go: RunNode over an argument that holds what the database answers and what
--                    the ops do, both of which may depend on the runs so far: the search for needed nodes
--                    (fuel: one more than the missing nodes and the end), and the loop over needed nodes
--                    (fuel: a round runs a node, so one more than are needed). App.RunNode.Whole has the check
--                    for conflicts with other pending jobs, and RunNode as a whole.
--   App.Threads      app/exec.go: the threads of RunData.Run as steps, where a task is taken in one step
--                    and sent to the container in a later one, and the container's answers are
--                    arguments; and what Run returns and marks at the end.
--   App.Jobs         app/job.go: AppJobOp, its updates, its cleanup function, Stop and SetDone. Whether a
--                    wrapped job op panics on the lines of an update is an argument. What
--                    SetDone does without the mutex is a list of steps of their own.
--   App.Plan         app/job_exec.go: the plan of a MultiExecJobOp that SetPlanFromMap computes.
--   WorkerPool       worker_pool/pool.go: the pool's workers, queue, results and calls in progress as a
--                    state, and what each thread does while it holds the mutex as a step; the
--                    answers of /container/status.
--
-- State that several threads share is a record, and a history is a list of events, each of them
-- one step of one thread; a step that cannot be made in a state gives none. A run-time panic of Go (a slice
-- bound out of range) is none as well. Coordinates are integers, and counts are natural numbers,
-- both unbounded: Go's 64-bit int does not overflow on the sizes that occur.
--
-- Not modelled: encoding and decoding of data, the database, HTTP and JSON, video and image
-- libraries, containers and the ops that run Python, which only call outside code; the web client;
-- incremental execution over several nodes (DBExecNode.Incremental), the lock on the worker
-- (app/worker.go), and the remaining ops of exec_ops/.
pub mod Prelude
pub mod Item
pub mod Job
pub mod Tasks
pub mod Image
pub mod Graph
pub mod WorkerPool
pub mod App
pub mod Data
pub mod Tracker
