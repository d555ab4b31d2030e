-- ===== src/WorkerPool/Answers.antt =====
-- worker_pool/pool.go: the answers of /container/status.
use skyhookml.Prelude.{
  Dict, lookup, keys, contains, Distinct, contains-append, ◌==◌, Text, nat_eq, text_eq, pair_eq, ℕ,
  suc, ◌+◌, ◌≡◌, refl, sym, ap, ◌∙◌, ◌⊎◌, inl, inr, true, false, none, some, List, [], ◌∷◌, ◌++◌,
  arith, Bool-cases, Option-cases, length, get_elem?,
}
use skyhookml.WorkerPool.{
  ContainerRequest, Worker, Request, AllocationResult, Pool, Event, run, in_queue, index_in_queue,
  of_result, status, ℤ,
}
use skyhookml.WorkerPool.Steps.{uuids, submitted}
use skyhookml.WorkerPool.Order.{start, order-run}

index_in_queue_lem :
    (q : List Request) (uuid : Text)
    → contains (uuids q) uuid ≡ true
    → (i : ℕ) × (index_in_queue uuid q ≡ some i) × (get_elem? (uuids q) i ≡ some uuid)
unfolding index_in_queue
index_in_queue_lem [] uuid c = cc
index_in_queue_lem (req ∷ q) uuid c = elim (Bool-cases (req.uuid == uuid)) [
  | inl same ↦ (0, rw same refl, ap some ((text_eq.test_iff req.uuid uuid).0 same))
  | inr other ↦
      let (i, found, at_i) = index_in_queue_lem q uuid (rw other at c) in
      (suc i, rw (other, found) refl, at_i)
]

some_none {ℓ κ} : {V : Type ℓ} {B : Type κ} (v : V) → some v ≡ none → B
some_none v e = absurd cc

contains-lookup {ℓ} :
    {V : Type ℓ} (m : Dict Text V) (k : Text) → lookup k m ≡ none → contains (keys m) k ≡ false
contains-lookup [] k absent = refl
contains-lookup ((j, v) ∷ m) k absent = elim (Bool-cases (j == k)) [
  | inl same ↦ some_none v (rw same at absent)
  | inr other ↦ rw other (contains-lookup m k (rw other at absent))
]

get_elem?-keys_append {ℓ} :
    {V : Type ℓ} (m : Dict Text V) (ks : List Text) (i : ℕ)
    → get_elem? (keys m ++ ks) (length m + i) ≡ get_elem? ks i
get_elem?-keys_append [] ks i = ap (get_elem? ks) {y = i} (omega arith)
get_elem?-keys_append ((j, v) ∷ m) ks i =
    ap (get_elem? (j ∷ keys m ++ ks)) {y = suc (length m + i)} (omega arith)
    ∙ get_elem?-keys_append m ks i

module _ (requirements : ContainerRequest → Dict Text ℤ) where
  -- A submitted request is never unknown: whatever the threads did, if the UUIDs of the submitted
  -- requests differ, its status is its result if it has one, and otherwise its place in the
  -- queue, which is the number of the unanswered requests that were submitted before it.
  pub status-run :
      (workers : List Worker) (es : List Event) (s : Pool) (uuid : Text)
      → Distinct (submitted es)
      → run requirements (start requirements workers) es ≡ some s
      → contains (submitted es) uuid ≡ true
      → ((res : AllocationResult) × (lookup uuid s.results ≡ some res)
          × (status uuid s ≡ of_result res))
        ⊎ ((i : ℕ) × (status uuid s ≡ in_queue i)
            × (get_elem? (submitted es) (length s.results + i) ≡ some uuid))
  unfolding status
  status-run workers es s uuid d e c = elim (Option-cases (lookup uuid s.results)) [
    | inr (res, found) ↦ inl (res, found, rw (found, status) refl)
    | inl absent ↦
        let order≡ = order-run requirements workers es s d e in
        let somewhere : contains (keys s.results ++ uuids s.q) uuid ≡ true =
          ap (λ ks. contains ks uuid) order≡ ∙ c in
        let queued : contains (uuids s.q) uuid ≡ true = ground (
          arith,
          contains-append (keys s.results) (uuids s.q) uuid,
          contains-lookup s.results uuid absent,
          somewhere,
        ) in
        let (i, index, at_i) = index_in_queue_lem s.q uuid queued in
        inr (
          i,
          rw (absent, index, status) refl,
          ap (λ ks. get_elem? ks (length s.results + i)) (sym order≡)
              ∙ get_elem?-keys_append s.results (uuids s.q) i
              ∙ at_i,
        )
  ]
