-- ===== src/App/Threads/Complete.antt =====
-- app/exec.go: the outcome of RunData.Run when its threads are through.
use skyhookml.Prelude.{
  Text, nat_eq, text_eq, pair_eq, ℕ, zero, suc, ◌<◌, ◌≡◌, refl, ap, ◌∙◌, inl, inr, Bool, true,
  false, none, some, List, [], ◌∷◌, arith, Option-cases, length, take, replicate,
}
use skyhookml.Item.{ExecTask}
use skyhookml.App.Threads.{
  Thread, idle, polled, applying, finished, holding, Run, Event, steps, start, all_finished,
  outcome,
}
use skyhookml.App.Threads.Totals.{total, posts, count, held, one_finished}
use skyhookml.App.Threads.Laws.{IsSound, steps-IsSound}

take-length : (xs : List ExecTask) → take (length xs) xs ≡ xs
take-length [] = refl
take-length (x ∷ xs) = ap (◌∷◌ x) (take-length xs)

total-replicate : (w : Thread → ℕ) (n : ℕ) → w idle ≡ 0 → total w (replicate n idle) ≡ 0
total-replicate w zero h = refl
total-replicate w (suc n) h = omega (arith, total-replicate w n h, h)

one_finished-replicate : (n : ℕ) → one_finished (replicate n idle) ≡ false
one_finished-replicate zero = refl
one_finished-replicate (suc n) = one_finished-replicate n

length-replicate : (n : ℕ) → length (replicate n idle) ≡ n
length-replicate zero = refl
length-replicate (suc n) = ap suc (length-replicate n)

start-IsSound : (n : ℕ) (tasks : List ExecTask) → IsSound n tasks (start n tasks)
start-IsSound n tasks = record {
  same = refl;
  crew = length-replicate n;
  posted_eq = λ p. omega (arith, total-replicate (held p) n refl);
  bounded = omega arith;
  counted = λ none≡. omega (arith, total-replicate posts n refl);
  ended = λ f go none≡. ground (arith, one_finished-replicate n, f);
}

all_finished-total :
    (w : Thread → ℕ) (ts : List Thread) → w finished ≡ 0 → all_finished ts ≡ true → total w ts ≡ 0
unfolding all_finished
all_finished-total w [] f h = refl
all_finished-total w (finished ∷ ts) f h = omega (arith, all_finished-total w ts f h, f)
all_finished-total w (idle ∷ ts) f h = cc
all_finished-total w (polled ∷ ts) f h = cc
all_finished-total w (applying ∷ ts) f h = cc
all_finished-total w (holding task ∷ ts) f h = cc

all_finished-one_finished :
    (ts : List Thread) → 0 < length ts → all_finished ts ≡ true → one_finished ts ≡ true
unfolding all_finished
all_finished-one_finished [] h f = absurd (omega (arith, h))
all_finished-one_finished (finished ∷ ts) h f = refl
all_finished-one_finished (idle ∷ ts) h f = cc
all_finished-one_finished (polled ∷ ts) h f = cc
all_finished-one_finished (applying ∷ ts) h f = cc
all_finished-one_finished (holding task ∷ ts) h f = cc

no_error : (b : Bool) (s : Run) → (outcome b s).0 ≡ none → s.apply_err ≡ none
unfolding outcome
no_error b s e = elim (Option-cases s.apply_err) [
  | inl nothing ↦ nothing
  | inr (err, failed) ↦ some_none err (rw (failed, outcome) at e)
]
  where
    some_none : (err : Text) → some err ≡ none → s.apply_err ≡ none
    some_none err h = cc

-- However the threads of RunData.Run interleave and whatever the posts give: when there is a
-- thread, all are through, Run returns no error and the job was not stopped, the tasks that were
-- posted are, in some order, the given ones, each as often as it is given (as many pass any
-- test), and as many posts succeeded as there are tasks.
pub outcome-steps :
    (n : ℕ) (tasks : List ExecTask) (es : List Event) (s : Run) (will_be_done : Bool)
    (p : ExecTask → Bool)
    → 0 < n
    → steps (start n tasks) es ≡ some s
    → all_finished s.threads ≡ true
    → s.stopping ≡ false
    → (outcome will_be_done s).0 ≡ none
    → (count p s.posted ≡ count p tasks) × (s.progress ≡ length tasks)
outcome-steps n tasks es s will_be_done p some_thread run through going ok = (
  omega (
    arith,
    sound.posted_eq p,
    all_finished-total (held p) s.threads refl through,
    ap (count p) (ap (λ k. take k s.tasks) all ∙ take-length s.tasks ∙ sound.same),
  ),
  omega (
    arith,
    sound.counted none≡,
    all_finished-total posts s.threads refl through,
    all,
    ap length sound.same,
  ),
)
  where
    sound : IsSound n tasks s
    sound = steps-IsSound n tasks (start n tasks) s es (start-IsSound n tasks) run

    none≡ : s.apply_err ≡ none
    none≡ = no_error will_be_done s ok

    all : s.counter ≡ length s.tasks
    all =
        sound.ended
          (all_finished-one_finished s.threads (omega (arith, sound.crew, some_thread)) through)
          going none≡
