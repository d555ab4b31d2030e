-- ===== src/App/Threads/Bound.antt =====
-- app/exec.go: RunData.Run's threads come to an end.
use skyhookml.Prelude.{
  Text, nat_eq, text_eq, pair_eq, ℕ, zero, suc, ◌+◌, ◌-◌, ◌*◌, ◌≤◌, ◌<◌, ◌≡◌, refl, subst, inl, inr,
  Bool, true, false, Option, none, some, List, [], ◌∷◌, arith, if◌then◌else◌, Option-cases, length,
  get_elem?, replicate,
}
use skyhookml.Item.{ExecTask}
use skyhookml.App.Threads.{
  Thread, idle, polled, applying, finished, holding, Run, Event, stop, check, take_task, post,
  succeed, fail, move, check_at, next_task, take_at, post_at, succeed_at, fail_at, step, steps,
  start,
}
use skyhookml.App.Threads.Totals.{total, total-set}

abbrev pub cost : Event → ℕ
cost stop = 0
cost (check i) = 1
cost (take_task i) = 1
cost (post i) = 1
cost (succeed i) = 1
cost (fail i err) = 1

-- The steps of the threads in a history.
abbrev pub thread_steps : List Event → ℕ
thread_steps [] = 0
thread_steps (e ∷ es) = cost e + thread_steps es

-- The steps that a thread still has before it, but for those with a further task.
abbrev left : Thread → ℕ
left idle = 2
left polled = 1
left applying = 3
left finished = 0
left (holding task) = 4

abbrev potential : Run → ℕ
potential s = total left s.threads + 4 * (length s.tasks - s.counter)

in_range : (xs : List ExecTask) (n : ℕ) (x : ExecTask) → get_elem? xs n ≡ some x → n < length xs
in_range [] n x e = cc
in_range (y ∷ ys) zero x e = omega arith
in_range (y ∷ ys) (suc n) x e = omega (arith, in_range ys n x e)

no_run {ℓ} : {A : Type ℓ} (s' : Run) → none ≡ some s' → A
no_run s' h = absurd cc

less :
    (s s' t : Run) (k : ℕ)
    → potential s + k ≤ potential t
    → some s ≡ some s'
    → potential s' + k ≤ potential t
less s s' t k h e = let s≡ : s ≡ s' = cc in subst (λ u. potential u + k ≤ potential t) s≡ h

next_task-less :
    (err : Option Text) (task : Option ExecTask) (s : Run) (i : ℕ)
    → get_elem? s.tasks s.counter ≡ task
    → get_elem? s.threads i ≡ some polled
    → potential (next_task err task i s) + 1 ≤ potential s
unfolding next_task
next_task-less (some err) task s i task≡ e =
    omega (arith, total-set left s.threads i polled finished e)
next_task-less none none s i task≡ e = omega (arith, total-set left s.threads i polled finished e)
next_task-less none (some task) s i task≡ e = omega (
  arith,
  total-set left s.threads i polled (holding task) e,
  in_range s.tasks s.counter task task≡,
)

check_at-less :
    (t : Option Thread) (i : ℕ) (s s' : Run)
    → get_elem? s.threads i ≡ t
    → check_at t i s ≡ some s'
    → potential s' + 1 ≤ potential s
unfolding check_at
check_at-less none i s s' t≡ e = no_run s' e
check_at-less (some polled) i s s' t≡ e = no_run s' e
check_at-less (some applying) i s s' t≡ e = no_run s' e
check_at-less (some finished) i s s' t≡ e = no_run s' e
check_at-less (some (holding task)) i s s' t≡ e = no_run s' e
check_at-less (some idle) i s s' t≡ e = less _ s' s 1 (either s.stopping) e
  where
    either : (b : Bool) → potential (move i (if b then finished else polled) s) + 1 ≤ potential s
    either true = omega (arith, total-set left s.threads i idle finished t≡)
    either false = omega (arith, total-set left s.threads i idle polled t≡)

take_at-less :
    (t : Option Thread) (i : ℕ) (s s' : Run)
    → get_elem? s.threads i ≡ t
    → take_at t i s ≡ some s'
    → potential s' + 1 ≤ potential s
unfolding take_at
take_at-less none i s s' t≡ e = no_run s' e
take_at-less (some idle) i s s' t≡ e = no_run s' e
take_at-less (some applying) i s s' t≡ e = no_run s' e
take_at-less (some finished) i s s' t≡ e = no_run s' e
take_at-less (some (holding task)) i s s' t≡ e = no_run s' e
take_at-less (some polled) i s s' t≡ e =
    less _ s' s 1 (next_task-less s.apply_err (get_elem? s.tasks s.counter) s i refl t≡) e

post_at-less :
    (t : Option Thread) (i : ℕ) (s s' : Run)
    → get_elem? s.threads i ≡ t
    → post_at t i s ≡ some s'
    → potential s' + 1 ≤ potential s
unfolding post_at
post_at-less none i s s' t≡ e = no_run s' e
post_at-less (some idle) i s s' t≡ e = no_run s' e
post_at-less (some polled) i s s' t≡ e = no_run s' e
post_at-less (some applying) i s s' t≡ e = no_run s' e
post_at-less (some finished) i s s' t≡ e = no_run s' e
post_at-less (some (holding task)) i s s' t≡ e =
    less _ s' s 1 (omega (arith, total-set left s.threads i (holding task) applying t≡)) e

succeed_at-less :
    (t : Option Thread) (i : ℕ) (s s' : Run)
    → get_elem? s.threads i ≡ t
    → succeed_at t i s ≡ some s'
    → potential s' + 1 ≤ potential s
unfolding succeed_at
succeed_at-less none i s s' t≡ e = no_run s' e
succeed_at-less (some idle) i s s' t≡ e = no_run s' e
succeed_at-less (some polled) i s s' t≡ e = no_run s' e
succeed_at-less (some finished) i s s' t≡ e = no_run s' e
succeed_at-less (some (holding task)) i s s' t≡ e = no_run s' e
succeed_at-less (some applying) i s s' t≡ e =
    less _ s' s 1 (omega (arith, total-set left s.threads i applying idle t≡)) e

fail_at-less :
    (t : Option Thread) (err : Text) (i : ℕ) (s s' : Run)
    → get_elem? s.threads i ≡ t
    → fail_at t err i s ≡ some s'
    → potential s' + 1 ≤ potential s
unfolding fail_at
fail_at-less none err i s s' t≡ e = no_run s' e
fail_at-less (some idle) err i s s' t≡ e = no_run s' e
fail_at-less (some polled) err i s s' t≡ e = no_run s' e
fail_at-less (some finished) err i s s' t≡ e = no_run s' e
fail_at-less (some (holding task)) err i s s' t≡ e = no_run s' e
fail_at-less (some applying) err i s s' t≡ e =
    less _ s' s 1 (omega (arith, total-set left s.threads i applying finished t≡)) e

step-less : (s s' : Run) (e : Event) → step s e ≡ some s' → potential s' + cost e ≤ potential s
unfolding step
step-less s s' stop e = less (record s { stopping = true }) s' s 0 (omega arith) e
step-less s s' (check i) e = check_at-less (get_elem? s.threads i) i s s' refl e
step-less s s' (take_task i) e = take_at-less (get_elem? s.threads i) i s s' refl e
step-less s s' (post i) e = post_at-less (get_elem? s.threads i) i s s' refl e
step-less s s' (succeed i) e = succeed_at-less (get_elem? s.threads i) i s s' refl e
step-less s s' (fail i err) e = fail_at-less (get_elem? s.threads i) err i s s' refl e

steps-less :
    (s s' : Run) (es : List Event)
    → steps s es ≡ some s'
    → potential s' + thread_steps es ≤ potential s
unfolding steps
steps-less s s' [] e = less s s' s 0 (omega arith) e
steps-less s s' (e ∷ es) all = elim (Option-cases (step s e)) [
  | inl impossible ↦ no_run s' (rw (impossible, steps) at all)
  | inr (t, stepped) ↦
      omega (arith, step-less s t e stepped, steps-less t s' es (rw (stepped, steps) at all))
]

total-replicate : (n : ℕ) → total left (replicate n idle) ≡ 2 * n
total-replicate zero = refl
total-replicate (suc n) = omega (arith, total-replicate n)

-- However they interleave, n threads over some tasks make at most 2 * n + 4 * (number of tasks)
-- steps, where the taking of a task and its sending are two steps.
pub thread_steps-le :
    (n : ℕ) (tasks : List ExecTask) (es : List Event) (s : Run)
    → steps (start n tasks) es ≡ some s
    → thread_steps es ≤ 2 * n + 4 * length tasks
thread_steps-le n tasks es s run =
    omega (arith, steps-less (start n tasks) s es run, total-replicate n)
