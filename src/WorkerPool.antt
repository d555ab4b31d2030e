-- ===== src/WorkerPool.antt =====
-- worker_pool/pool.go: the pool that queues container requests and forwards them to its workers.
-- Each step is what one thread does while it holds the mutex; the requests to the workers stand
-- between steps, and their outcomes are arguments. A worker is its index. What an op
-- requires (ExecOp.Requirements) is an argument of what uses it.
pub mod Steps
pub mod Order
mod Tests
pub mod Answers
use skyhookml.Prelude.{
  Dict, lookup, lookup_or, insert, ◌==◌, Text, codes, nat_eq, text_eq, pair_eq, ℕ, zero, suc, Bool,
  true, not, ◌&&◌, Option, none, some, List, [], ◌∷◌, ◌++◌, eqb, if◌then◌else◌, ◌>>=◌, length,
  get_elem?, drop,
}
use skyhookml.Prelude.Int.{ℤ, pos, eqb_ℤ}
use skyhookml.Graph.Node.{Runnable}

pub record ContainerRequest : Type 0 where
  pub node : Runnable
  pub job_id : Option ℕ
  pub coordinator_url : Text
  pub instance_id : Text

pub record Worker : Type 0 where
  pub url : Text
  -- Empty while no container is allocated.
  pub container_uuid : Text
  pub allocation_uuid : Text
  pub resources : Dict Text ℤ

pub record Request : Type 0 where
  pub container_request : ContainerRequest
  pub uuid : Text

pub data AllocationResult : Type 0 where
  allocated : (parallelism : ℤ) → (base_url : Text) → AllocationResult
  failed : (error : Text) → AllocationResult

-- Where the goroutine that processes requests stands: it waits, or forwards a request to a worker.
pub data Dispatcher : Type 0 where
  waiting : Dispatcher
  forwarding : (uuid : Text) → (worker : ℕ) → Dispatcher

-- A call of /container/end that has found its worker, and that has not marked it yet.
pub record Ending : Type 0 where
  pub worker : ℕ
  pub container_uuid : Text

pub record Pool : Type 0 where
  pub workers : List Worker
  pub q : List Request
  pub results : Dict Text AllocationResult
  pub dispatcher : Dispatcher
  pub endings : List Ending

pub data Event : Type 0 where
  request : (uuid : Text) → ContainerRequest → Event
  pick : Event
  refuse : (error : Text) → Event
  allocate : (container_uuid : Text) → (parallelism : ℤ) → (base_url : Text) → Event
  end_begin : (uuid : Text) → Event
  end_error end_done : ℕ → Event

-- Every requirement is the worker's resource; a missing resource counts as 0.
pub has_resources : Dict Text ℤ → Dict Text ℤ → Bool
has_resources resources [] = true
has_resources resources ((k, v) ∷ requirements) =
    eqb_ℤ (lookup_or (pos 0) k resources) v && has_resources resources requirements

pub satisfies : Worker → Dict Text ℤ → Bool
satisfies w requirements =
    eqb (length requirements) (length w.resources) && has_resources w.resources requirements

pub get_available_worker : Dict Text ℤ → List Worker → Option ℕ
get_available_worker requirements [] = none
get_available_worker requirements (w ∷ ws) =
    if w.container_uuid == [] && satisfies w requirements
    then some 0
    else (do i ← get_available_worker requirements ws; some (suc i))

-- The worker that currently has a UUID allocated, and its container.
pub find_allocation : Text → List Worker → Option Ending
find_allocation uuid [] = none
find_allocation uuid (w ∷ ws) =
    if w.allocation_uuid == uuid
    then some (record { worker = 0; container_uuid = w.container_uuid })
    else (do e ← find_allocation uuid ws; some (record e { worker = suc e.worker }))

pub set_worker : List Worker → ℕ → Text → Text → List Worker
set_worker [] i container_uuid allocation_uuid = []
set_worker (w ∷ ws) zero container_uuid allocation_uuid =
    record w { container_uuid = container_uuid; allocation_uuid = allocation_uuid } ∷ ws
set_worker (w ∷ ws) (suc i) container_uuid allocation_uuid =
    w ∷ set_worker ws i container_uuid allocation_uuid

pub remove_at {ℓ} : {A : Type ℓ} → ℕ → List A → List A
remove_at i [] = []
remove_at zero (x ∷ xs) = xs
remove_at (suc i) (x ∷ xs) = x ∷ remove_at i xs

-- /container/request.
pub add_request : Text → ContainerRequest → Pool → Pool
add_request uuid r s = record s { q = s.q ++ record { container_request = r; uuid = uuid } ∷ [] }

-- The head of the queue leaves it with a result.
pub finish : Text → AllocationResult → Pool → Pool
finish uuid result s = record s {
  q = drop 1 s.q;
  results = insert uuid result s.results;
  dispatcher = waiting;
}

module _ (requirements : ContainerRequest → Dict Text ℤ) where
  -- The dispatcher waits for a request, then for a worker for the first request of the queue.
  pub pick_worker : List Request → Pool → Option Pool
  pick_worker [] s = none
  pick_worker (req ∷ rest) s =
      elim (get_available_worker (requirements req.container_request) s.workers) [
        | none ↦ none
        | some i ↦ some (record s { dispatcher = forwarding req.uuid i })
      ]

  pub pick_when : Dispatcher → Pool → Option Pool
  pick_when waiting s = pick_worker s.q s
  pick_when (forwarding uuid i) s = none

  -- The request or its status failed on the worker.
  pub refuse_when : Text → Dispatcher → Pool → Option Pool
  refuse_when message waiting s = none
  refuse_when message (forwarding uuid i) s = some (finish uuid (failed message) s)

  pub allocate_when : Text → ℤ → Text → Dispatcher → Pool → Option Pool
  allocate_when container_uuid parallelism base_url waiting s = none
  allocate_when container_uuid parallelism base_url (forwarding uuid i) s =
      let t = finish uuid (allocated parallelism base_url) s in
      some (record t { workers = set_worker t.workers i container_uuid uuid })

  -- `none` is a step that the threads cannot make in this state.
  pub step : Pool → Event → Option Pool
  step s (request uuid r) = some (add_request uuid r s)
  step s pick = pick_when s.dispatcher s
  step s (refuse message) = refuse_when message s.dispatcher s
  step s (allocate container_uuid parallelism base_url) =
      allocate_when container_uuid parallelism base_url s.dispatcher s
  step s (end_begin uuid) = elim (find_allocation uuid s.workers) [
    | none ↦ some s
    | some e ↦ some (record s { endings = s.endings ++ e ∷ [] })
  ]
  step s (end_error i) = elim (get_elem? s.endings i) [
    | none ↦ none
    | some e ↦ some (record s { endings = remove_at i s.endings })
  ]
  step s (end_done i) = elim (get_elem? s.endings i) [
    | none ↦ none
    | some e ↦ some (record s {
      workers = set_worker s.workers e.worker [] [];
      endings = remove_at i s.endings;
    })
  ]

  pub run : Pool → List Event → Option Pool
  run s [] = some s
  run s (e ∷ es) = do s' ← step s e; run s' es

-- /container/status: an answer, or the index in the queue of a request that is to wait.
pub data Status : Type 0 where
  ready : (parallelism : ℤ) → (base_url : Text) → Status
  error : (message : Text) → Status
  in_queue : ℕ → Status

pub index_in_queue : Text → List Request → Option ℕ
index_in_queue uuid [] = none
index_in_queue uuid (req ∷ q) =
    if req.uuid == uuid then some 0 else (do i ← index_in_queue uuid q; some (suc i))

pub of_result : AllocationResult → Status
of_result (allocated parallelism base_url) = ready parallelism base_url
of_result (failed message) = error message

pub status : Text → Pool → Status
status uuid s = elim (lookup uuid s.results) [
  | some res ↦ of_result res
  | none ↦ elim (index_in_queue uuid s.q) [
    | some i ↦ in_queue i
    | none ↦ error (codes "UUID not found")
  ]
]
