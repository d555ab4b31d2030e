-- ===== src/WorkerPool/Steps.antt =====
-- worker_pool/pool.go: what holds in every state of the pool, and the order of the requests.
use skyhookml.Prelude.{
  Dict, insert, keys, contains, Distinct, contains-append, ◌==◌, Text, nat_eq, text_eq, pair_eq, ℕ,
  suc, ◌≡◌, refl, sym, ap, subst, ◌⊎◌, inl, inr, true, false, ◌&&◌, none, some, List, [], ◌∷◌, ◌++◌,
  arith, Bool-cases, Option-cases, get_elem?,
}
use skyhookml.Prelude.Int.{ℤ}
use skyhookml.WorkerPool.{
  ContainerRequest, Worker, Request, AllocationResult, Dispatcher, waiting, forwarding, Pool, Event,
  request, pick, refuse, allocate, end_begin, end_error, end_done, satisfies, get_available_worker,
  find_allocation, set_worker, remove_at, add_request, finish, pick_worker, step, failed, allocated,
  refuse_when, allocate_when, pick_when,
}

abbrev pub uuids : List Request → List Text
uuids [] = []
uuids (req ∷ q) = req.uuid ∷ uuids q

-- The requests that have a result and then those in the queue.
abbrev pub order : Pool → List Text
order s = keys s.results ++ uuids s.q

abbrev pub submitted_by : Event → List Text
submitted_by (request uuid r) = uuid ∷ []
submitted_by pick = []
submitted_by (refuse error) = []
submitted_by (allocate container_uuid parallelism base_url) = []
submitted_by (end_begin uuid) = []
submitted_by (end_error i) = []
submitted_by (end_done i) = []

abbrev pub submitted : List Event → List Text
submitted [] = []
submitted (e ∷ es) = submitted_by e ++ submitted es

pub uuids_append : (q r : List Request) → uuids (q ++ r) ≡ uuids q ++ uuids r
uuids_append [] r = refl
uuids_append (req ∷ q) r = ap (◌∷◌ req.uuid) (uuids_append q r)

pub keys-insert_new {ℓ} :
    {V : Type ℓ} (k : Text) (v : V) (m : Dict Text V)
    → contains (keys m) k ≡ false
    → keys (insert k v m) ≡ keys m ++ k ∷ []
keys-insert_new k v [] absent = refl
keys-insert_new k v ((j, w) ∷ m) absent = elim (Bool-cases (j == k)) [
  | inl same ↦ absurd (ground (arith, same, absent))
  | inr other ↦ rw other (ap (◌∷◌ j) (keys-insert_new k v m (ground (arith, absent))))
]

pub not_in_front : (xs ys : List Text) (k : Text) → Distinct (xs ++ k ∷ ys) → contains xs k ≡ false
not_in_front [] ys k d = refl
not_in_front (x ∷ xs) ys k d = ground (
  arith,
  not_in_front xs ys k d.1,
  contains-append xs (k ∷ ys) x,
  text_eq.test_iff k x,
  text_eq.test_iff x k,
)

module _ (requirements : ContainerRequest → Dict Text ℤ) where
  -- The request that is forwarded is the first one of the queue; its worker satisfies the requirements
  -- and is idle.
  abbrev pub IsForwarding : Pool → Text → ℕ → Type 0
  IsForwarding s uuid i =
      (r : ContainerRequest) × (rest : List Request) × (w : Worker) × (s.q
        ≡ record { container_request = r; uuid = uuid } ∷ rest)
      × (get_elem? s.workers i ≡ some w)
      × (w.container_uuid ≡ [])
      × (satisfies w (requirements r) ≡ true)

  abbrev pub Dispatches : Dispatcher → Pool → Type 0
  Dispatches waiting s = Unit
  Dispatches (forwarding uuid i) s = IsForwarding s uuid i

  pub get_available_worker_lem :
      (r : Dict Text ℤ) (ws : List Worker) (i : ℕ)
      → get_available_worker r ws ≡ some i
      → (w : Worker) × (get_elem? ws i ≡ some w) × (w.container_uuid ≡ []) × (satisfies w r ≡ true)
  unfolding get_available_worker
  get_available_worker_lem r [] i e = cc
  get_available_worker_lem r (w ∷ ws) i e =
      elim (Bool-cases (w.container_uuid == [] && satisfies w r)) [
        | inl free ↦
            let zero≡ : some 0 ≡ some i = rw free at e in
            let i≡ : 0 ≡ i = cc in
            rw (sym i≡) (
              w,
              refl,
              ground (arith, free, text_eq.test_iff w.container_uuid []),
              ground (arith, free),
            )
        | inr busy ↦ elim (Option-cases (get_available_worker r ws)) [
          | inl nobody ↦ absurd (none_not_some i (rw (busy, nobody) at e))
          | inr (j, found) ↦
              let suc≡ : some (suc j) ≡ some i = rw (busy, found) at e in
              let i≡ : suc j ≡ i = cc in rw (sym i≡) (get_available_worker_lem r ws j found)
        ]
      ]
    where
      none_not_some : (i : ℕ) → none ≡ some i → ⊥
      none_not_some i h = cc

  pub forwarded :
      (s : Pool) (uuid : Text) (i : ℕ)
      → s.dispatcher ≡ forwarding uuid i
      → Dispatches s.dispatcher s
      → IsForwarding s uuid i
  forwarded s uuid i e h = rw e at h

  no_pool {ℓ} : {A : Type ℓ} (s' : Pool) → none ≡ some s' → A
  no_pool s' h = absurd cc

  unsome : (s s' : Pool) → some s ≡ some s' → s ≡ s'
  unsome s s' h = cc

  -- The state after a step, by the kind of the step.
  pub step_request :
      (s s' : Pool) (uuid : Text) (r : ContainerRequest)
      → step requirements s (request uuid r) ≡ some s'
      → add_request uuid r s ≡ s'
  unfolding step
  step_request s s' uuid r e = cc

  pub step_pick :
      (s s' : Pool)
      → step requirements s pick ≡ some s'
      → (req : Request) × (rest : List Request) × (i : ℕ) × (s.q ≡ req ∷ rest)
        × (get_available_worker (requirements req.container_request) s.workers ≡ some i)
        × (record s { dispatcher = forwarding req.uuid i } ≡ s')
  unfolding step pick_worker pick_when
  step_pick s s' e = when s.dispatcher e
    where
      picked :
          (q : List Request)
          → s.q ≡ q
          → pick_worker requirements q s ≡ some s'
          → (req : Request) × (rest : List Request) × (i : ℕ) × (s.q ≡ req ∷ rest)
            × (get_available_worker (requirements req.container_request) s.workers ≡ some i)
            × (record s { dispatcher = forwarding req.uuid i } ≡ s')
      picked [] q≡ h = no_pool s' h
      picked (req ∷ rest) q≡ h =
          elim (Option-cases
            (get_available_worker (requirements req.container_request) s.workers)) [
              | inl nobody ↦ no_pool s' (rw (nobody, pick_worker) at h)
              | inr (i, found) ↦ (
                req,
                rest,
                i,
                q≡,
                found,
                unsome (record s { dispatcher = forwarding req.uuid i }) s'
                    (rw (found, pick_worker) at h),
              )
            ]

      when :
          (d : Dispatcher)
          → pick_when requirements d s ≡ some s'
          → (req : Request) × (rest : List Request) × (i : ℕ) × (s.q ≡ req ∷ rest)
            × (get_available_worker (requirements req.container_request) s.workers ≡ some i)
            × (record s { dispatcher = forwarding req.uuid i } ≡ s')
      when waiting h = picked s.q refl h
      when (forwarding uuid i) h = no_pool s' h

  pub step_refuse :
      (s s' : Pool) (message : Text)
      → step requirements s (refuse message) ≡ some s'
      → (uuid : Text) × (i : ℕ) × (s.dispatcher ≡ forwarding uuid i)
        × (finish uuid (failed message) s ≡ s')
  unfolding step refuse_when
  step_refuse s s' message e = when s.dispatcher refl e
    where
      when :
          (d : Dispatcher)
          → s.dispatcher ≡ d
          → refuse_when requirements message d s ≡ some s'
          → (uuid : Text) × (i : ℕ) × (s.dispatcher ≡ forwarding uuid i)
            × (finish uuid (failed message) s ≡ s')
      when waiting d≡ h = no_pool s' h
      when (forwarding uuid i) d≡ h = (uuid, i, d≡, unsome (finish uuid (failed message) s) s' h)

  abbrev pub allocate_to : Pool → Text → ℕ → Text → AllocationResult → Pool
  allocate_to s uuid i c result =
      let t = finish uuid result s in record t { workers = set_worker t.workers i c uuid }

  pub step_allocate :
      (s s' : Pool) (c : Text) (parallelism : ℤ) (base_url : Text)
      → step requirements s (allocate c parallelism base_url) ≡ some s'
      → (uuid : Text) × (i : ℕ) × (s.dispatcher ≡ forwarding uuid i)
        × (allocate_to s uuid i c (allocated parallelism base_url) ≡ s')
  unfolding step allocate_when
  step_allocate s s' c parallelism base_url e = when s.dispatcher refl e
    where
      when :
          (d : Dispatcher)
          → s.dispatcher ≡ d
          → allocate_when requirements c parallelism base_url d s ≡ some s'
          → (uuid : Text) × (i : ℕ) × (s.dispatcher ≡ forwarding uuid i)
            × (allocate_to s uuid i c (allocated parallelism base_url) ≡ s')
      when waiting d≡ h = no_pool s' h
      when (forwarding uuid i) d≡ h =
          (uuid, i, d≡, unsome (allocate_to s uuid i c (allocated parallelism base_url)) s' h)

  -- The queue, the results and the dispatcher are as before; a worker may have been marked available.
  abbrev pub IsEnd : Pool → Pool → Type 0
  IsEnd s s' =
      (s.q ≡ s'.q)
      × (s.results ≡ s'.results)
      × (s.dispatcher ≡ s'.dispatcher)
      × ((s.workers ≡ s'.workers) ⊎ ((i : ℕ) × (set_worker s.workers i [] [] ≡ s'.workers)))

  IsEnd-path : (s t s' : Pool) → IsEnd s t → some t ≡ some s' → IsEnd s s'
  IsEnd-path s t s' h e = subst (IsEnd s) (unsome t s' e) h

  pub step_end_begin :
      (s s' : Pool) (uuid : Text) → step requirements s (end_begin uuid) ≡ some s' → IsEnd s s'
  unfolding step
  step_end_begin s s' uuid e = elim (Option-cases (find_allocation uuid s.workers)) [
    | inl missing ↦ IsEnd-path s s s' (refl, refl, refl, inl refl) (rw (missing, step) at e)
    | inr (ending, found) ↦
        IsEnd-path s (record s { endings = s.endings ++ ending ∷ [] }) s'
          (refl, refl, refl, inl refl) (rw (found, step) at e)
  ]

  pub step_end_error :
      (s s' : Pool) (i : ℕ) → step requirements s (end_error i) ≡ some s' → IsEnd s s'
  unfolding step
  step_end_error s s' i e = elim (Option-cases (get_elem? s.endings i)) [
    | inl missing ↦ no_pool s' (rw (missing, step) at e)
    | inr (ending, found) ↦
        IsEnd-path s (record s { endings = remove_at i s.endings }) s' (refl, refl, refl, inl refl)
          (rw (found, step) at e)
  ]

  pub step_end_done :
      (s s' : Pool) (i : ℕ) → step requirements s (end_done i) ≡ some s' → IsEnd s s'
  unfolding step
  step_end_done s s' i e = elim (Option-cases (get_elem? s.endings i)) [
    | inl missing ↦ no_pool s' (rw (missing, step) at e)
    | inr (ending, found) ↦
        IsEnd-path s
          (record s {
            workers = set_worker s.workers ending.worker [] [];
            endings = remove_at i s.endings;
          })
          s' (refl, refl, refl, inr (ending.worker, refl)) (rw (found, step) at e)
  ]
