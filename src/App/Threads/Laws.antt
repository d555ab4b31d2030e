-- ===== src/App/Threads/Laws.antt =====
-- app/exec.go: what holds while RunData.Run's threads run, and when they are through.
use skyhookml.Prelude.{
  Text, nat_eq, text_eq, pair_eq, ℕ, suc, ◌+◌, ◌≤◌, ◌≡◌, refl, sym, ap, subst, ◌∙◌, inl, inr, Bool,
  true, false, Option, none, some, List, [], ◌∷◌, ◌++◌, arith, if◌then◌else◌, Bool-cases,
  Option-cases, length, get_elem?, take, length-set,
}
use skyhookml.Item.{ExecTask}
use skyhookml.App.Threads.{
  Thread, idle, polled, applying, finished, holding, Run, Event, stop, check, take_task, post,
  succeed, fail, move, check_at, next_task, take_at, post_at, succeed_at, fail_at, step, steps,
}
use skyhookml.App.Threads.Totals.{
  total, total-set, posts, count, held, one_finished, one_finished-set, count-take_next, count-snoc,
  get_elem?-some_less, get_elem?-none_le,
}

-- Of a run of `n` threads over `tasks`.
pub record IsSound (n : ℕ) (tasks : List ExecTask) (s : Run) : Type 0 where
  pub same : s.tasks ≡ tasks
  pub crew : length s.threads ≡ n
  pub posted_eq :
      (p : ExecTask → Bool)
      → count p s.posted + total (held p) s.threads ≡ count p (take s.counter s.tasks)
  pub bounded : s.counter ≤ length s.tasks
  pub counted : s.apply_err ≡ none → s.progress + total posts s.threads ≡ s.counter
  -- A thread ends for one of these reasons.
  pub ended :
      one_finished s.threads ≡ true
      → s.stopping ≡ false
      → s.apply_err ≡ none
      → s.counter ≡ length s.tasks

module _ (n : ℕ) (tasks : List ExecTask) where
  finish-IsSound :
      (s : Run) (i : ℕ) (old : Thread)
      → get_elem? s.threads i ≡ some old
      → posts old ≡ 0
      → ((p : ExecTask → Bool) → held p old ≡ 0)
      → (s.stopping ≡ false → s.apply_err ≡ none → s.counter ≡ length s.tasks)
      → IsSound n tasks s
      → IsSound n tasks (move i finished s)
  finish-IsSound s i old e none_posted none_held why h = record {
    same = h.same;
    crew = length-set s.threads i finished ∙ h.crew;
    posted_eq = λ p.
        omega (arith, h.posted_eq p, total-set (held p) s.threads i old finished e, none_held p);
    bounded = h.bounded;
    counted = λ none≡. omega (arith, h.counted none≡, total-set posts s.threads i old finished e);
    ended = λ f. why;
  }

  next_task-IsSound :
      (err : Option Text) (task : Option ExecTask) (s : Run) (i : ℕ)
      → s.apply_err ≡ err
      → get_elem? s.tasks s.counter ≡ task
      → get_elem? s.threads i ≡ some polled
      → IsSound n tasks s
      → IsSound n tasks (next_task err task i s)
  unfolding next_task
  next_task-IsSound (some err) task s i err≡ task≡ e h =
      finish-IsSound s i polled e refl (λ p. refl) (λ go none≡. cc) h
  next_task-IsSound none none s i err≡ task≡ e h =
      finish-IsSound s i polled e refl (λ p. refl)
        (λ go none≡. omega (arith, h.bounded, get_elem?-none_le s.tasks s.counter task≡)) h
  next_task-IsSound none (some task) s i err≡ task≡ e h = record {
    same = h.same;
    crew = length-set s.threads i (holding task) ∙ h.crew;
    posted_eq = λ p. omega (
      arith,
      h.posted_eq p,
      total-set (held p) s.threads i polled (holding task) e,
      count-take_next p s.tasks s.counter task task≡,
      next_count p,
    );
    bounded = omega (arith, get_elem?-some_less s.tasks s.counter task task≡);
    counted = λ none≡.
        omega (arith, h.counted none≡, total-set posts s.threads i polled (holding task) e);
    ended = λ f go none≡.
        let less = get_elem?-some_less s.tasks s.counter task task≡ in
        let all = h.ended (one_finished-set s.threads i (holding task) refl f) go none≡ in
        absurd (omega (arith, less, all));
  }
    where
      next_count :
          (p : ExecTask → Bool)
          → count p (take (s.counter + 1) s.tasks) ≡ count p (take (suc s.counter) s.tasks)
      next_count p =
          ap (λ m. count p (take m s.tasks)) {x = s.counter + 1} {y = suc s.counter} (omega arith)

  no_run {ℓ} : {A : Type ℓ} (s' : Run) → none ≡ some s' → A
  no_run s' h = absurd cc

  -- To show something of the state that a step leads to.
  of_some {ℓ} : (P : Run → Type ℓ) (s s' : Run) → P s → some s ≡ some s' → P s'
  of_some P s s' p e = let s≡ : s ≡ s' = cc in subst P s≡ p

  check_at-IsSound :
      (t : Option Thread) (i : ℕ) (s s' : Run)
      → get_elem? s.threads i ≡ t
      → IsSound n tasks s
      → check_at t i s ≡ some s'
      → IsSound n tasks s'
  unfolding check_at
  check_at-IsSound none i s s' t≡ h e = no_run s' e
  check_at-IsSound (some polled) i s s' t≡ h e = no_run s' e
  check_at-IsSound (some applying) i s s' t≡ h e = no_run s' e
  check_at-IsSound (some finished) i s s' t≡ h e = no_run s' e
  check_at-IsSound (some (holding task)) i s s' t≡ h e = no_run s' e
  check_at-IsSound (some idle) i s s' t≡ h e = elim (Bool-cases s.stopping) [
    | inl stopped ↦
        of_some (IsSound n tasks) (move i finished s) s'
          (finish-IsSound s i idle t≡ refl (λ p. refl) (λ go none≡. cc) h)
          (ap (λ b. some (move i (if b then finished else polled) s)) (sym stopped) ∙ e)
    | inr going ↦
        of_some (IsSound n tasks) (move i polled s) s'
          (record {
            same = h.same;
            crew = length-set s.threads i polled ∙ h.crew;
            posted_eq =
                λ p. omega (arith, h.posted_eq p, total-set (held p) s.threads i idle polled t≡);
            bounded = h.bounded;
            counted =
                λ none≡. omega (arith, h.counted none≡, total-set posts s.threads i idle polled t≡);
            ended = λ f. h.ended (one_finished-set s.threads i polled refl f);
          })
          (ap (λ b. some (move i (if b then finished else polled) s)) (sym going) ∙ e)
  ]

  take_at-IsSound :
      (t : Option Thread) (i : ℕ) (s s' : Run)
      → get_elem? s.threads i ≡ t
      → IsSound n tasks s
      → take_at t i s ≡ some s'
      → IsSound n tasks s'
  unfolding take_at
  take_at-IsSound none i s s' t≡ h e = no_run s' e
  take_at-IsSound (some idle) i s s' t≡ h e = no_run s' e
  take_at-IsSound (some applying) i s s' t≡ h e = no_run s' e
  take_at-IsSound (some finished) i s s' t≡ h e = no_run s' e
  take_at-IsSound (some (holding task)) i s s' t≡ h e = no_run s' e
  take_at-IsSound (some polled) i s s' t≡ h e =
      of_some (IsSound n tasks) _ s'
        (next_task-IsSound s.apply_err (get_elem? s.tasks s.counter) s i refl refl t≡ h) e

  post_at-IsSound :
      (t : Option Thread) (i : ℕ) (s s' : Run)
      → get_elem? s.threads i ≡ t
      → IsSound n tasks s
      → post_at t i s ≡ some s'
      → IsSound n tasks s'
  unfolding post_at
  post_at-IsSound none i s s' t≡ h e = no_run s' e
  post_at-IsSound (some idle) i s s' t≡ h e = no_run s' e
  post_at-IsSound (some polled) i s s' t≡ h e = no_run s' e
  post_at-IsSound (some applying) i s s' t≡ h e = no_run s' e
  post_at-IsSound (some finished) i s s' t≡ h e = no_run s' e
  post_at-IsSound (some (holding task)) i s s' t≡ h e =
      of_some (IsSound n tasks) (record (move i applying s) { posted = s.posted ++ task ∷ [] }) s'
        (record {
          same = h.same;
          crew = length-set s.threads i applying ∙ h.crew;
          posted_eq = λ p. omega (
            arith,
            h.posted_eq p,
            total-set (held p) s.threads i (holding task) applying t≡,
            count-snoc p s.posted task,
          );
          bounded = h.bounded;
          counted = λ none≡.
              omega
                (arith, h.counted none≡, total-set posts s.threads i (holding task) applying t≡);
          ended = λ f. h.ended (one_finished-set s.threads i applying refl f);
        })
        e

  succeed_at-IsSound :
      (t : Option Thread) (i : ℕ) (s s' : Run)
      → get_elem? s.threads i ≡ t
      → IsSound n tasks s
      → succeed_at t i s ≡ some s'
      → IsSound n tasks s'
  unfolding succeed_at
  succeed_at-IsSound none i s s' t≡ h e = no_run s' e
  succeed_at-IsSound (some idle) i s s' t≡ h e = no_run s' e
  succeed_at-IsSound (some polled) i s s' t≡ h e = no_run s' e
  succeed_at-IsSound (some finished) i s s' t≡ h e = no_run s' e
  succeed_at-IsSound (some (holding task)) i s s' t≡ h e = no_run s' e
  succeed_at-IsSound (some applying) i s s' t≡ h e =
      of_some (IsSound n tasks) (record (move i idle s) { progress = s.progress + 1 }) s'
        (record {
          same = h.same;
          crew = length-set s.threads i idle ∙ h.crew;
          posted_eq =
              λ p. omega (arith, h.posted_eq p, total-set (held p) s.threads i applying idle t≡);
          bounded = h.bounded;
          counted =
              λ none≡. omega (arith, h.counted none≡, total-set posts s.threads i applying idle t≡);
          ended = λ f. h.ended (one_finished-set s.threads i idle refl f);
        })
        e

  fail_at-IsSound :
      (t : Option Thread) (err : Text) (i : ℕ) (s s' : Run)
      → get_elem? s.threads i ≡ t
      → IsSound n tasks s
      → fail_at t err i s ≡ some s'
      → IsSound n tasks s'
  unfolding fail_at
  fail_at-IsSound none err i s s' t≡ h e = no_run s' e
  fail_at-IsSound (some idle) err i s s' t≡ h e = no_run s' e
  fail_at-IsSound (some polled) err i s s' t≡ h e = no_run s' e
  fail_at-IsSound (some finished) err i s s' t≡ h e = no_run s' e
  fail_at-IsSound (some (holding task)) err i s s' t≡ h e = no_run s' e
  fail_at-IsSound (some applying) err i s s' t≡ h e =
      of_some (IsSound n tasks) (record (move i finished s) { apply_err = some err }) s'
        (record {
          same = h.same;
          crew = length-set s.threads i finished ∙ h.crew;
          posted_eq = λ p.
              omega (arith, h.posted_eq p, total-set (held p) s.threads i applying finished t≡);
          bounded = h.bounded;
          counted = λ none≡. cc;
          ended = λ f go none≡. cc;
        })
        e

  step-IsSound :
      (s s' : Run) (e : Event) → IsSound n tasks s → step s e ≡ some s' → IsSound n tasks s'
  unfolding step
  step-IsSound s s' stop h e =
      of_some (IsSound n tasks) (record s { stopping = true }) s'
        (record {
          same = h.same;
          crew = h.crew;
          posted_eq = h.posted_eq;
          bounded = h.bounded;
          counted = h.counted;
          ended = λ f go none≡. cc;
        })
        e
  step-IsSound s s' (check i) h e = check_at-IsSound (get_elem? s.threads i) i s s' refl h e
  step-IsSound s s' (take_task i) h e = take_at-IsSound (get_elem? s.threads i) i s s' refl h e
  step-IsSound s s' (post i) h e = post_at-IsSound (get_elem? s.threads i) i s s' refl h e
  step-IsSound s s' (succeed i) h e = succeed_at-IsSound (get_elem? s.threads i) i s s' refl h e
  step-IsSound s s' (fail i err) h e = fail_at-IsSound (get_elem? s.threads i) err i s s' refl h e

  pub steps-IsSound :
      (s s' : Run) (es : List Event) → IsSound n tasks s → steps s es ≡ some s' → IsSound n tasks s'
  unfolding steps
  steps-IsSound s s' [] h e = of_some (IsSound n tasks) s s' h e
  steps-IsSound s s' (e ∷ es) h all = elim (Option-cases (step s e)) [
    | inl impossible ↦ no_run s' (rw (impossible, steps) at all)
    | inr (t, stepped) ↦
        steps-IsSound t s' es (step-IsSound s t e h stepped) (rw (stepped, steps) at all)
  ]
