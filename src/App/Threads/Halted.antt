-- ===== src/App/Threads/Halted.antt =====
-- app/exec.go: the threads of RunData.Run when the job is stopped before they test IsStopping.
use skyhookml.Prelude.{
  Text, nat_eq, text_eq, pair_eq, ℕ, zero, suc, ◌≡◌, refl, sym, ap, subst, ◌∙◌, inl, inr, Bool,
  true, false, ◌&&◌, Option, none, some, List, [], ◌∷◌, arith, if◌then◌else◌, Option-cases,
  get_elem?, set, replicate,
}
use skyhookml.App.Threads.{
  Thread, idle, polled, applying, finished, holding, Run, Event, stop, check, take_task, post,
  succeed, fail, move, check_at, take_at, post_at, succeed_at, fail_at, step, steps,
}

-- A thread that does nothing but test IsStopping.
abbrev pub is_quiet : Thread → Bool
is_quiet idle = true
is_quiet finished = true
is_quiet polled = false
is_quiet applying = false
is_quiet (holding task) = false

abbrev pub all_quiet : List Thread → Bool
all_quiet [] = true
all_quiet (t ∷ ts) = is_quiet t && all_quiet ts

pub all_quiet-replicate : (n : ℕ) → all_quiet (replicate n idle) ≡ true
all_quiet-replicate zero = refl
all_quiet-replicate (suc n) = all_quiet-replicate n

all_quiet-get :
    (ts : List Thread) (i : ℕ) (t : Thread)
    → all_quiet ts ≡ true
    → get_elem? ts i ≡ some t
    → is_quiet t ≡ true
all_quiet-get [] i t q e = cc
all_quiet-get (u ∷ ts) zero t q e =
    let u≡ : u ≡ t = cc in subst (λ x. is_quiet x ≡ true) u≡ (ground (arith, q))
all_quiet-get (u ∷ ts) (suc i) t q e = all_quiet-get ts i t (ground (arith, q)) e

all_quiet-set :
    (ts : List Thread) (i : ℕ) → all_quiet ts ≡ true → all_quiet (set ts i finished) ≡ true
all_quiet-set [] i q = refl
all_quiet-set (u ∷ ts) zero q = ground (arith, q)
all_quiet-set (u ∷ ts) (suc i) q = ground (arith, q, all_quiet-set ts i (ground (arith, q)))

-- The job is stopped, and no thread is past the test.
pub record Halted (s : Run) : Type 0 where
  pub stopped : s.stopping ≡ true
  pub no_error : s.apply_err ≡ none
  pub none_posted : s.posted ≡ []
  pub quiet : all_quiet s.threads ≡ true

no_run {ℓ} : {A : Type ℓ} (s' : Run) → none ≡ some s' → A
no_run s' h = absurd cc

-- A step of a thread that does something else.
not_quiet {ℓ} :
    {A : Type ℓ} (s : Run) (i : ℕ) (t : Thread)
    → Halted s
    → get_elem? s.threads i ≡ some t
    → is_quiet t ≡ false
    → A
not_quiet s i t h e q = let r = all_quiet-get s.threads i t h.quiet e in absurd cc

of_some : (s s' : Run) → Halted s → some s ≡ some s' → Halted s'
of_some s s' h e = let s≡ : s ≡ s' = cc in subst Halted s≡ h

check_at-Halted :
    (t : Option Thread) (i : ℕ) (s s' : Run) → Halted s → check_at t i s ≡ some s' → Halted s'
unfolding check_at
check_at-Halted none i s s' h e = no_run s' e
check_at-Halted (some polled) i s s' h e = no_run s' e
check_at-Halted (some applying) i s s' h e = no_run s' e
check_at-Halted (some finished) i s s' h e = no_run s' e
check_at-Halted (some (holding task)) i s s' h e = no_run s' e
check_at-Halted (some idle) i s s' h e =
    of_some (move i finished s) s'
      (record {
        stopped = h.stopped;
        no_error = h.no_error;
        none_posted = h.none_posted;
        quiet = all_quiet-set s.threads i h.quiet;
      })
      (ap (λ b. some (move i (if b then finished else polled) s)) (sym h.stopped) ∙ e)

take_at-Halted :
    (t : Option Thread) (i : ℕ) (s s' : Run)
    → get_elem? s.threads i ≡ t
    → Halted s
    → take_at t i s ≡ some s'
    → Halted s'
unfolding take_at
take_at-Halted none i s s' t≡ h e = no_run s' e
take_at-Halted (some idle) i s s' t≡ h e = no_run s' e
take_at-Halted (some applying) i s s' t≡ h e = no_run s' e
take_at-Halted (some finished) i s s' t≡ h e = no_run s' e
take_at-Halted (some (holding task)) i s s' t≡ h e = no_run s' e
take_at-Halted (some polled) i s s' t≡ h e = not_quiet s i polled h t≡ refl

post_at-Halted :
    (t : Option Thread) (i : ℕ) (s s' : Run)
    → get_elem? s.threads i ≡ t
    → Halted s
    → post_at t i s ≡ some s'
    → Halted s'
unfolding post_at
post_at-Halted none i s s' t≡ h e = no_run s' e
post_at-Halted (some idle) i s s' t≡ h e = no_run s' e
post_at-Halted (some polled) i s s' t≡ h e = no_run s' e
post_at-Halted (some applying) i s s' t≡ h e = no_run s' e
post_at-Halted (some finished) i s s' t≡ h e = no_run s' e
post_at-Halted (some (holding task)) i s s' t≡ h e = not_quiet s i (holding task) h t≡ refl

succeed_at-Halted :
    (t : Option Thread) (i : ℕ) (s s' : Run)
    → get_elem? s.threads i ≡ t
    → Halted s
    → succeed_at t i s ≡ some s'
    → Halted s'
unfolding succeed_at
succeed_at-Halted none i s s' t≡ h e = no_run s' e
succeed_at-Halted (some idle) i s s' t≡ h e = no_run s' e
succeed_at-Halted (some polled) i s s' t≡ h e = no_run s' e
succeed_at-Halted (some finished) i s s' t≡ h e = no_run s' e
succeed_at-Halted (some (holding task)) i s s' t≡ h e = no_run s' e
succeed_at-Halted (some applying) i s s' t≡ h e = not_quiet s i applying h t≡ refl

fail_at-Halted :
    (t : Option Thread) (err : Text) (i : ℕ) (s s' : Run)
    → get_elem? s.threads i ≡ t
    → Halted s
    → fail_at t err i s ≡ some s'
    → Halted s'
unfolding fail_at
fail_at-Halted none err i s s' t≡ h e = no_run s' e
fail_at-Halted (some idle) err i s s' t≡ h e = no_run s' e
fail_at-Halted (some polled) err i s s' t≡ h e = no_run s' e
fail_at-Halted (some finished) err i s s' t≡ h e = no_run s' e
fail_at-Halted (some (holding task)) err i s s' t≡ h e = no_run s' e
fail_at-Halted (some applying) err i s s' t≡ h e = not_quiet s i applying h t≡ refl

step-Halted : (s s' : Run) (e : Event) → Halted s → step s e ≡ some s' → Halted s'
unfolding step
step-Halted s s' stop h e =
    of_some (record s { stopping = true }) s'
      (record {
        stopped = refl;
        no_error = h.no_error;
        none_posted = h.none_posted;
        quiet = h.quiet;
      })
      e
step-Halted s s' (check i) h e = check_at-Halted (get_elem? s.threads i) i s s' h e
step-Halted s s' (take_task i) h e = take_at-Halted (get_elem? s.threads i) i s s' refl h e
step-Halted s s' (post i) h e = post_at-Halted (get_elem? s.threads i) i s s' refl h e
step-Halted s s' (succeed i) h e = succeed_at-Halted (get_elem? s.threads i) i s s' refl h e
step-Halted s s' (fail i err) h e = fail_at-Halted (get_elem? s.threads i) err i s s' refl h e

pub steps-Halted : (s s' : Run) (es : List Event) → Halted s → steps s es ≡ some s' → Halted s'
unfolding steps
steps-Halted s s' [] h e = of_some s s' h e
steps-Halted s s' (e ∷ es) h all = elim (Option-cases (step s e)) [
  | inl impossible ↦ no_run s' (rw (impossible, steps) at all)
  | inr (t, stepped) ↦
      steps-Halted t s' es (step-Halted s t e h stepped) (rw (stepped, steps) at all)
]
