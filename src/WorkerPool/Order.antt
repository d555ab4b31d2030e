-- ===== src/WorkerPool/Order.antt =====
-- worker_pool/pool.go: requests are answered in the order in which they were submitted.
use skyhookml.Prelude.{
  Dict, insert, keys, Distinct, contains-append, Text, nat_eq, text_eq, pair_eq, ℕ, zero, suc, ◌≡◌,
  refl, sym, ap, subst, ◌∙◌, ◌⊎◌, inl, inr, true, none, some, List, [], ◌∷◌, ◌++◌, append-nil,
  append_assoc, arith, Option-cases, get_elem?, drop,
}
use skyhookml.Prelude.Int.{ℤ}
use skyhookml.WorkerPool.{
  ContainerRequest, Worker, Request, AllocationResult, allocated, failed, Dispatcher, waiting,
  forwarding, Pool, Event, request, pick, refuse, allocate, end_begin, end_error, end_done,
  satisfies, set_worker, add_request, finish, step, run,
}
use skyhookml.WorkerPool.Steps.{
  uuids, order, submitted_by, submitted, uuids_append, keys-insert_new, not_in_front, Dispatches,
  get_available_worker_lem, forwarded, step_request, step_pick, step_refuse, step_allocate, IsEnd,
  step_end_begin, step_end_error, step_end_done,
}

set_worker_idle :
    (ws : List Worker) (i j : ℕ) (w : Worker)
    → get_elem? ws i ≡ some w
    → w.container_uuid ≡ []
    → (v : Worker) × (get_elem? (set_worker ws j [] []) i ≡ some v)
      × (v.container_uuid ≡ [])
      × (v.resources ≡ w.resources)
unfolding set_worker
set_worker_idle [] i j w e c = cc
set_worker_idle (v ∷ ws) zero zero w e c =
    let v≡ : v ≡ w = cc in
    (record v { container_uuid = []; allocation_uuid = [] }, refl, refl, ap (λ u. u.resources) v≡)
set_worker_idle (v ∷ ws) zero (suc j) w e c = (w, e, c, refl)
set_worker_idle (v ∷ ws) (suc i) zero w e c = (w, e, c, refl)
set_worker_idle (v ∷ ws) (suc i) (suc j) w e c = set_worker_idle ws i j w e c

satisfies-resources :
    (v w : Worker) (r : Dict Text ℤ)
    → v.resources ≡ w.resources
    → satisfies w r ≡ true
    → satisfies v r ≡ true
unfolding satisfies
satisfies-resources v w r e h = rw e h

order-finish :
    (s : Pool) (uuid : Text) (r : ContainerRequest) (rest : List Request)
    (result : AllocationResult)
    → s.q ≡ record { container_request = r; uuid = uuid } ∷ rest
    → Distinct (order s)
    → order (finish uuid result s) ≡ order s
unfolding finish
order-finish s uuid r rest result q≡ d =
    let order≡ : order s ≡ keys s.results ++ uuid ∷ uuids rest =
      ap (λ q. keys s.results ++ uuids q) q≡ in
    let absent = not_in_front (keys s.results) (uuids rest) uuid (subst Distinct order≡ d) in
    ap (λ q. keys (insert uuid result s.results) ++ uuids (drop 1 q)) q≡
    ∙ ap (λ ks. ks ++ uuids rest) (keys-insert_new uuid result s.results absent)
    ∙ append_assoc (keys s.results) (uuid ∷ []) (uuids rest)
    ∙ sym order≡

Distinct-front : (xs ys : List Text) → Distinct (xs ++ ys) → Distinct xs
Distinct-front [] ys d = tt
Distinct-front (x ∷ xs) ys d = (ground (arith, contains-append xs ys x), Distinct-front xs ys d.1)

module _ (requirements : ContainerRequest → Dict Text ℤ) where
  abbrev Sound : Pool → Type 0
  Sound s = Dispatches requirements s.dispatcher s

  -- What a step does to the order, and that what is forwarded stays as it should be.
  abbrev Follows : Pool → List Text → Pool → Type 0
  Follows s new s' = (order s' ≡ order s ++ new) × Sound s'

  sound_request :
      (d : Dispatcher) (s : Pool) (uuid : Text) (r : ContainerRequest)
      → Dispatches requirements d s
      → Dispatches requirements d (add_request uuid r s)
  unfolding add_request
  sound_request waiting s uuid r h = tt
  sound_request (forwarding u i) s uuid r (r', rest, w, q≡, found, idle, fits) =
      let new = record { container_request = r; uuid = uuid } ∷ [] in
      (r', rest ++ new, w, ap (λ q. q ++ new) q≡, found, idle, fits)

  sound_end :
      (d : Dispatcher) (s s' : Pool)
      → s.q ≡ s'.q
      → (s.workers ≡ s'.workers) ⊎ ((i : ℕ) × (set_worker s.workers i [] [] ≡ s'.workers))
      → Dispatches requirements d s
      → Dispatches requirements d s'
  sound_end waiting s s' same workers h = tt
  sound_end (forwarding u i) s s' same (inl workers) (r, rest, w, q≡, found, idle, fits) =
      (r, rest, w, sym same ∙ q≡, ap (λ ws. get_elem? ws i) (sym workers) ∙ found, idle, fits)
  sound_end (forwarding u i) s s' same (inr (j, workers)) (r, rest, w, q≡, found, idle, fits) =
      let (v, found', idle', resources) = set_worker_idle s.workers i j w found idle in
      (
        r,
        rest,
        v,
        sym same ∙ q≡,
        ap (λ ws. get_elem? ws i) (sym workers) ∙ found',
        idle',
        satisfies-resources v w (requirements r) resources fits,
      )

  end-Follows : (s s' : Pool) → IsEnd requirements s s' → Sound s → Follows s [] s'
  end-Follows s s' (q≡, results≡, dispatcher≡, workers) h = (
    ap (λ (m : Dict Text AllocationResult). keys m ++ uuids s'.q) (sym results≡)
        ∙ ap (λ q. keys s.results ++ uuids q) (sym q≡)
        ∙ sym (append-nil (order s)),
    subst (λ d. Dispatches requirements d s') dispatcher≡
        (sound_end s.dispatcher s s' q≡ workers h),
  )

  step-Follows :
      (s s' : Pool) (e : Event)
      → Sound s
      → Distinct (order s)
      → step requirements s e ≡ some s'
      → Follows s (submitted_by e) s'
  unfolding add_request finish
  step-Follows s s' (request uuid r) h d e =
      subst (Follows s (uuid ∷ [])) (step_request requirements s s' uuid r e) (
        ap (λ ks. keys s.results ++ ks) (uuids_append s.q _)
            ∙ sym (append_assoc (keys s.results) (uuids s.q) (uuid ∷ [])),
        sound_request s.dispatcher s uuid r h,
      )
  step-Follows s s' pick h d e =
      let (req, rest, i, q≡, found, s≡) = step_pick requirements s s' e in
      let (w, at_i, idle, fits) =
        get_available_worker_lem requirements (requirements req.container_request) s.workers i
          found in
      subst (Follows s []) s≡
        (sym (append-nil (order s)), (req.container_request, rest, w, q≡, at_i, idle, fits))
  step-Follows s s' (refuse message) h d e =
      let (uuid, i, busy, s≡) = step_refuse requirements s s' message e in
      let (r, rest, w, q≡, found, idle, fits) = forwarded requirements s uuid i busy h in
      subst (Follows s []) s≡
        (order-finish s uuid r rest (failed message) q≡ d ∙ sym (append-nil (order s)), tt)
  step-Follows s s' (allocate c parallelism base_url) h d e =
      let (uuid, i, busy, s≡) = step_allocate requirements s s' c parallelism base_url e in
      let (r, rest, w, q≡, found, idle, fits) = forwarded requirements s uuid i busy h in
      subst (Follows s []) s≡ (
        order-finish s uuid r rest (allocated parallelism base_url) q≡ d
            ∙ sym (append-nil (order s)),
        tt,
      )
  step-Follows s s' (end_begin uuid) h d e =
      end-Follows s s' (step_end_begin requirements s s' uuid e) h
  step-Follows s s' (end_error i) h d e = end-Follows s s' (step_end_error requirements s s' i e) h
  step-Follows s s' (end_done i) h d e = end-Follows s s' (step_end_done requirements s s' i e) h

  run-Follows :
      (s s' : Pool) (es : List Event)
      → Sound s
      → Distinct (order s ++ submitted es)
      → run requirements s es ≡ some s'
      → Follows s (submitted es) s'
  unfolding run
  run-Follows s s' [] h d e =
      let s≡ : s ≡ s' = cc in subst (Follows s []) s≡ (sym (append-nil (order s)), h)
  run-Follows s s' (e ∷ es) h d all = elim (Option-cases (step requirements s e)) [
    | inl impossible ↦ no_run (rw (impossible, run) at all)
    | inr (t, stepped) ↦
        let rest : run requirements t es ≡ some s' = rw (stepped, run) at all in
        let (order_t, sound_t) =
          step-Follows s t e h (Distinct-front (order s) (submitted (e ∷ es)) d) stepped in
        let joined = append_assoc (order s) (submitted_by e) (submitted es) in
        let order_rest : order t ++ submitted es ≡ order s ++ submitted (e ∷ es) =
          ap (λ ks. ks ++ submitted es) order_t ∙ joined in
        let (order_s', sound_s') =
          run-Follows t s' es sound_t (subst Distinct (sym order_rest) d) rest in
        (order_s' ∙ order_rest, sound_s')
  ]
    where
      no_run : none ≡ some s' → Follows s (submitted (e ∷ es)) s'
      no_run h = absurd cc

  -- The pool when it starts: no container is allocated, and nothing is queued.
  abbrev pub start : List Worker → Pool
  start workers = record {
    workers = workers;
    q = [];
    results = [];
    dispatcher = waiting;
    endings = [];
  }

  -- Whatever the threads do, and in which order: if the UUIDs of the submitted requests differ, the
  -- requests with a result, in the order in which they got it, and then those in the queue, are all
  -- the submitted requests in the order of their submission.
  pub order-run :
      (workers : List Worker) (es : List Event) (s : Pool)
      → Distinct (submitted es)
      → run requirements (start workers) es ≡ some s
      → keys s.results ++ uuids s.q ≡ submitted es
  order-run workers es s d e = (run-Follows (start workers) s es tt d e).0

  -- A request that the pool is forwarding is the first one in the queue; the worker that it is forwarded
  -- to has no container and satisfies its requirements, also after others have been ended meanwhile.
  -- It holds after any steps of the threads, if the UUIDs of the submitted requests differ.
  pub run-IsForwarding :
      (workers : List Worker) (es : List Event) (s : Pool) (uuid : Text) (i : ℕ)
      → Distinct (submitted es)
      → run requirements (start workers) es ≡ some s
      → s.dispatcher ≡ forwarding uuid i
      → (r : ContainerRequest) × (rest : List Request) × (w : Worker) × (s.q
          ≡ record { container_request = r; uuid = uuid } ∷ rest)
        × (get_elem? s.workers i ≡ some w)
        × (w.container_uuid ≡ [])
        × (satisfies w (requirements r) ≡ true)
  run-IsForwarding workers es s uuid i d e busy =
      forwarded requirements s uuid i busy (run-Follows (start workers) s es tt d e).1
