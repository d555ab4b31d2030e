-- ===== src/App/Jobs/Laws.antt =====
-- app/job.go: the histories of an AppJobOp.
use skyhookml.Prelude.{
  Distinct, contains-append, Text, codes, nat_eq, text_eq, pair_eq, ℕ, ◌≤◌, ◌≡◌, refl, sym, ap,
  subst, ◌∙◌, Bool, true, Option, none, some, List, [], ◌∷◌, ◌++◌, append_assoc, arith,
  if◌then◌else◌, ◌>>=◌, length, rtake,
}
use skyhookml.Job.Tail.Laws.{update-eq-rtake, capacity, length-rtake-le}
use skyhookml.Job.Tail.{TailJobOp}
use skyhookml.App.Jobs.{
  EndStep, write, record_end, AppJobOp, Event, set_cleanup_func, update, cleanup, set_done,
  continue_end, stop, update_op, run_cleanup, run_end, continue_job, end_job, stop_job, step, steps,
  start,
}

abbrev pub pending : Option ℕ → List ℕ
pending none = []
pending (some f) = f ∷ []

abbrev pub funcs_of : Event → List ℕ
funcs_of (set_cleanup_func f) = pending f
funcs_of (update lines) = []
funcs_of cleanup = []
funcs_of (set_done err) = []
funcs_of continue_end = []
funcs_of stop = []

-- The cleanup functions that are set in a history.
abbrev pub funcs : List Event → List ℕ
funcs [] = []
funcs (e ∷ es) = funcs_of e ++ funcs es

abbrev pub Fits : AppJobOp → Type 0
Fits op = length op.tail_op.lines ≤ op.tail_op.num_lines

-- An operation that only writes lines.
abbrev pub Same : AppJobOp → AppJobOp → Type 0
Same op op' =
    Fits op'
    × (op.ran ≡ op'.ran)
    × (op.cleanup_func ≡ op'.cleanup_func)
    × (op.stopping ≡ op'.stopping)
    × (op.ending ≡ op'.ending)
    × (op.job_error ≡ op'.job_error)

Distinct-drop_middle : (xs ys zs : List ℕ) → Distinct (xs ++ (ys ++ zs)) → Distinct (xs ++ zs)
Distinct-drop_middle [] [] zs d = d
Distinct-drop_middle [] (y ∷ ys) zs d = Distinct-drop_middle [] ys zs d.1
Distinct-drop_middle (x ∷ xs) ys zs d = (
  ground (arith, contains-append xs (ys ++ zs) x, contains-append ys zs x, contains-append xs zs x),
  Distinct-drop_middle xs ys zs d.1,
)

-- What has run, what is to run, and what is still to be set.
abbrev pub Once : AppJobOp → List ℕ → Type 0
Once op rest = Fits op × Distinct (op.ran ++ (pending op.cleanup_func ++ rest))

Once-Same : (op op' : AppJobOp) (rest : List ℕ) → Same op op' → Once op rest → Once op' rest
Once-Same op op' rest (fits, ran, func, stopping, ending, error) once = (
  fits,
  subst Distinct
      (ap (λ r. r ++ (pending op.cleanup_func ++ rest)) ran
        ∙ ap (λ f. op'.ran ++ (pending f ++ rest)) func)
      once.1,
)

run_cleanup-Once :
    (f : Option ℕ) (op : AppJobOp) (rest : List ℕ)
    → Fits op
    → Distinct (op.ran ++ (pending f ++ rest))
    → Once (run_cleanup f op) rest
unfolding run_cleanup
run_cleanup-Once none op rest fits d = (fits, d)
run_cleanup-Once (some f) op rest fits d =
    (fits, subst Distinct (sym (append_assoc op.ran (f ∷ []) rest)) d)

pub stop_job-some :
    (op : AppJobOp)
    → Fits (run_cleanup op.cleanup_func op)
    → (op' : AppJobOp) × (stop_job op ≡ some op')
      × (op'.stopping ≡ true)
      × Same (record (run_cleanup op.cleanup_func op) { stopping = true }) op'
unfolding stop_job
stop_job-some op fits =
    let cleaned = run_cleanup op.cleanup_func op in
    let line = codes "TERMINATING JOB: user requested to stop this job." ∷ [] in
    (
      _,
      ap (λ t. t >>= λ tail. some (record cleaned { stopping = true; tail_op = tail }))
          (update-eq-rtake cleaned.tail_op line fits),
      refl,
      (
        length-rtake-le (capacity cleaned.tail_op) (cleaned.tail_op.lines ++ line),
        refl,
        refl,
        refl,
        refl,
        refl,
      ),
    )

Distinct-take : (xs ys : List ℕ) → Distinct (xs ++ ys) → Distinct xs
Distinct-take [] ys d = tt
Distinct-take (x ∷ xs) ys d = (ground (arith, contains-append xs ys x), Distinct-take xs ys d.1)

module _ (accepts : List (List Text) → List Text → Bool)
    (takes : (updates : List (List Text)) (lines : List Text) → accepts updates lines ≡ true) where
  pub update_op-some :
      (lines : List Text) (op : AppJobOp)
      → Fits op
      → (op' : AppJobOp) × (update_op accepts lines op ≡ some op') × Same op op'
  unfolding update_op
  update_op-some lines op fits =
      let updated : TailJobOp → AppJobOp =
        λ tail. record op { tail_op = tail; updates = op.updates ++ lines ∷ [] } in
      let tail : TailJobOp = record {
        lines = rtake (capacity op.tail_op) (op.tail_op.lines ++ lines);
        num_lines = capacity op.tail_op;
      } in
      (
        updated tail,
        ap (λ t. t >>= λ u. if accepts op.updates lines then some (updated u) else none)
              (update-eq-rtake op.tail_op lines fits)
            ∙ ap (λ b. if b then some (updated tail) else none) (takes op.updates lines),
        (
          length-rtake-le (capacity op.tail_op) (op.tail_op.lines ++ lines),
          refl,
          refl,
          refl,
          refl,
          refl,
        ),
      )

  -- A step of the end of a job.
  continue_job-Once :
      (ending : List EndStep) (op : AppJobOp) (rest : List ℕ)
      → Once op rest
      → (op' : AppJobOp) × (continue_job accepts ending op ≡ some op') × Once op' rest
  unfolding continue_job run_end
  continue_job-Once [] op rest once = (op, refl, once)
  continue_job-Once (record_end message ∷ ending) op rest once =
      (record op { ending = ending; job_error = some message }, refl, once)
  continue_job-Once (write lines ∷ ending) op rest once =
      let (op', e, same) = update_op-some lines (record op { ending = ending }) once.0 in
      (op', e, Once-Same (record op { ending = ending }) op' rest same once)

  step-Once :
      (op : AppJobOp) (e : Event) (rest : List ℕ)
      → Once op (funcs_of e ++ rest)
      → (op' : AppJobOp) × (step accepts op e ≡ some op') × Once op' rest
  unfolding step end_job
  step-Once op (set_cleanup_func f) rest once = (
    record op { cleanup_func = f },
    refl,
    (once.0, Distinct-drop_middle op.ran (pending op.cleanup_func) (pending f ++ rest) once.1),
  )
  step-Once op (update lines) rest once =
      let (op', e, same) = update_op-some lines op once.0 in
      (op', e, Once-Same op op' rest same once)
  step-Once op cleanup rest once = (_, refl, run_cleanup-Once op.cleanup_func op rest once.0 once.1)
  step-Once op (set_done err) rest once =
      (_, refl, run_cleanup-Once op.cleanup_func op rest once.0 once.1)
  step-Once op continue_end rest once = continue_job-Once op.ending op rest once
  step-Once op stop rest once =
      let cleaned = run_cleanup op.cleanup_func op in
      let once' = run_cleanup-Once op.cleanup_func op rest once.0 once.1 in
      let (op', e, stopping, same) = stop_job-some op once'.0 in
      (op', e, Once-Same (record cleaned { stopping = true }) op' rest same once')

  steps-Once :
      (op : AppJobOp) (es : List Event)
      → Once op (funcs es)
      → (op' : AppJobOp) × (steps accepts op es ≡ some op') × Once op' []
  unfolding steps
  steps-Once op [] once = (op, refl, once)
  steps-Once op (e ∷ es) once =
      let (t, stepped, once_t) = step-Once op e (funcs es) once in
      let (op', rest, once') = steps-Once t es once_t in
      (op', ap (λ o. o >>= λ p. steps accepts p es) stepped ∙ rest, once')

  -- If no wrapped job op panics on the lines of an update, no history of calls of AppJobOp's
  -- methods panics, and in none does a cleanup function run twice, if no function is set twice.
  pub cleanup_once :
      (es : List Event)
      → Distinct (funcs es)
      → (op : AppJobOp) × (steps accepts start es ≡ some op) × Distinct op.ran
  cleanup_once es d =
      let (op, run, once) = steps-Once start es (omega arith, d) in
      (op, run, Distinct-take op.ran (pending op.cleanup_func ++ []) once.1)
