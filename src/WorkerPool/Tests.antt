-- ===== src/WorkerPool/Tests.antt =====
-- worker_pool/pool.go: two workers and two requests.
use skyhookml.Prelude.{
  Dict, lookup, contains, Distinct, Text, codes, nat_eq, text_eq, pair_eq, ℕ, ◌+◌, ◌≡◌, refl, ◌⊎◌,
  true, none, some, List, [], ◌∷◌, get_elem?,
}
use skyhookml.Prelude.Int.{ℤ, pos}
use skyhookml.WorkerPool.{
  ContainerRequest, Worker, Request, AllocationResult, allocated, forwarding, Pool, Event, request,
  pick, allocate, end_begin, end_done, has_resources, satisfies, get_available_worker,
  find_allocation, set_worker, remove_at, add_request, finish, pick_worker, pick_when, refuse_when,
  allocate_when, step, run, in_queue, of_result, status,
}
use skyhookml.WorkerPool.Steps.{submitted}
use skyhookml.WorkerPool.Order.{start, order-run, run-IsForwarding}
use skyhookml.WorkerPool.Answers.{status-run}

abbrev on_gpu : ContainerRequest
on_gpu = record {
  node = record {
    name = codes "n";
    op = codes "o";
    params = [];
    input_datasets = [];
    output_datasets = [];
  };
  job_id = none;
  coordinator_url = [];
  instance_id = [];
}

abbrev needs_gpu : ContainerRequest → Dict Text ℤ
needs_gpu r = (codes "gpu", pos 1) ∷ []

abbrev cpu : Worker
cpu = record { url = codes "x"; container_uuid = []; allocation_uuid = []; resources = [] }

abbrev gpu : Worker
gpu = record {
  url = codes "y";
  container_uuid = [];
  allocation_uuid = [];
  resources = (codes "gpu", pos 1) ∷ [];
}

-- The first request is allocated and ended, and the second one is being forwarded.
abbrev history : List Event
history =
    request (codes "1") on_gpu
    ∷ pick
    ∷ request (codes "2") on_gpu
    ∷ allocate (codes "c") (pos 4) []
    ∷ end_begin (codes "1")
    ∷ end_done 0
    ∷ pick
    ∷ []

abbrev final : Pool
final = record {
  workers = cpu ∷ gpu ∷ [];
  q = record { container_request = on_gpu; uuid = codes "2" } ∷ [];
  results = (codes "1", allocated (pos 4) []) ∷ [];
  dispatcher = forwarding (codes "2") 1;
  endings = [];
}

history_runs : run needs_gpu (start needs_gpu (cpu ∷ gpu ∷ [])) history ≡ some final
unfolding run step pick_when allocate_when refuse_when pick_worker finish add_request remove_at
    set_worker find_allocation get_available_worker satisfies has_resources text_eq
history_runs = refl

differ : Distinct (submitted history)
unfolding text_eq
differ = (refl, (refl, tt))

order-run_example : codes "1" ∷ codes "2" ∷ [] ≡ codes "1" ∷ codes "2" ∷ []
order-run_example = order-run needs_gpu (cpu ∷ gpu ∷ []) history final differ history_runs

run-IsForwarding_example :
    (r : ContainerRequest) × (rest : List Request) × (w : Worker) × (final.q
      ≡ record { container_request = r; uuid = codes "2" } ∷ rest)
    × (get_elem? final.workers 1 ≡ some w)
    × (w.container_uuid ≡ [])
    × (satisfies w (needs_gpu r) ≡ true)
run-IsForwarding_example =
    run-IsForwarding needs_gpu (cpu ∷ gpu ∷ []) history final (codes "2") 1 differ history_runs refl

submitted-contains : contains (submitted history) (codes "2") ≡ true
unfolding text_eq
submitted-contains = refl

status-run_example :
    ((res : AllocationResult) × (lookup (codes "2") final.results ≡ some res)
      × (status (codes "2") final ≡ of_result res))
    ⊎ ((i : ℕ) × (status (codes "2") final ≡ in_queue i)
        × (get_elem? (submitted history) (1 + i) ≡ some (codes "2")))
status-run_example =
    status-run needs_gpu (cpu ∷ gpu ∷ []) history final (codes "2") differ history_runs
      submitted-contains
