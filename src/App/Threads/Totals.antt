-- ===== src/App/Threads/Totals.antt =====
-- app/exec.go: sums over the threads and the tasks of RunData.Run.
use skyhookml.Prelude.{
  nat_eq, text_eq, pair_eq, ℕ, zero, suc, ◌+◌, ◌≤◌, ◌<◌, ◌≡◌, Bool, true, false, ◌||◌, none, some,
  List, [], ◌∷◌, ◌++◌, arith, if◌then◌else◌, length, get_elem?, set, take,
}
use skyhookml.Item.{ExecTask}
use skyhookml.App.Threads.{Thread, idle, polled, applying, finished, holding}

-- A number for each thread, summed.
abbrev pub total : (Thread → ℕ) → List Thread → ℕ
total w [] = 0
total w (t ∷ ts) = w t + total w ts

pub total-set :
    (w : Thread → ℕ) (ts : List Thread) (i : ℕ) (old new : Thread)
    → get_elem? ts i ≡ some old
    → total w (set ts i new) + w old ≡ total w ts + w new
total-set w [] i old new e = cc
total-set w (t ∷ ts) zero old new e = let t≡ : t ≡ old = cc in rw t≡ (omega arith)
total-set w (t ∷ ts) (suc i) old new e = omega (arith, total-set w ts i old new e)

-- The tasks that are taken and not yet applied.
abbrev pub posts : Thread → ℕ
posts idle = 0
posts polled = 0
posts applying = 1
posts finished = 0
posts (holding task) = 1

-- How many tasks pass a test.
abbrev pub count : (ExecTask → Bool) → List ExecTask → ℕ
count p [] = 0
count p (t ∷ ts) = (if p t then 1 else 0) + count p ts

-- Those that are taken and not yet sent.
abbrev pub held : (ExecTask → Bool) → Thread → ℕ
held p idle = 0
held p polled = 0
held p applying = 0
held p finished = 0
held p (holding task) = if p task then 1 else 0

abbrev pub is_finished : Thread → Bool
is_finished idle = false
is_finished polled = false
is_finished applying = false
is_finished (holding task) = false
is_finished finished = true

abbrev pub one_finished : List Thread → Bool
one_finished [] = false
one_finished (t ∷ ts) = is_finished t || one_finished ts

pub one_finished-set :
    (ts : List Thread) (i : ℕ) (new : Thread)
    → is_finished new ≡ false
    → one_finished (set ts i new) ≡ true
    → one_finished ts ≡ true
one_finished-set [] i new h e = cc
one_finished-set (t ∷ ts) zero new h e = ground (arith, h, e)
one_finished-set (t ∷ ts) (suc i) new h e = ground (arith, one_finished-set ts i new h, e)

pub count-take_next :
    (p : ExecTask → Bool) (xs : List ExecTask) (n : ℕ) (x : ExecTask)
    → get_elem? xs n ≡ some x
    → count p (take (suc n) xs) ≡ count p (take n xs) + (if p x then 1 else 0)
count-take_next p [] n x e = cc
count-take_next p (y ∷ ys) zero x e = let y≡ : y ≡ x = cc in rw y≡ (omega arith)
count-take_next p (y ∷ ys) (suc n) x e = omega (arith, count-take_next p ys n x e)

pub count-snoc :
    (p : ExecTask → Bool) (xs : List ExecTask) (x : ExecTask)
    → count p (xs ++ x ∷ []) ≡ count p xs + (if p x then 1 else 0)
count-snoc p [] x = omega arith
count-snoc p (y ∷ ys) x = omega (arith, count-snoc p ys x)

pub get_elem?-some_less :
    (xs : List ExecTask) (n : ℕ) (x : ExecTask) → get_elem? xs n ≡ some x → n < length xs
get_elem?-some_less [] n x e = cc
get_elem?-some_less (y ∷ ys) zero x e = omega arith
get_elem?-some_less (y ∷ ys) (suc n) x e = omega (arith, get_elem?-some_less ys n x e)

pub get_elem?-none_le : (xs : List ExecTask) (n : ℕ) → get_elem? xs n ≡ none → length xs ≤ n
get_elem?-none_le [] n e = omega arith
get_elem?-none_le (y ∷ ys) zero e = cc
get_elem?-none_le (y ∷ ys) (suc n) e = omega (arith, get_elem?-none_le ys n e)
