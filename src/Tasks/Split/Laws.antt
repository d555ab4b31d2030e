-- ===== src/Tasks/Split/Laws.antt =====
-- exec_ops/split/split.go: which task goes to which split.
use skyhookml.Prelude.{
  Dict, Text, nat_eq, text_eq, pair_eq, ℕ, suc, ◌+◌, ◌-◌, ◌*◌, ◌/◌, ◌≤◌, ◌≡◌, refl, sym, ap, subst,
  ◌∙◌, Option, some, List, [], ◌∷◌, ◌++◌, map, arith, length, take, drop, replicate, length-append,
  length-take, length-drop, drop-drop, drop-append_le, take-append_le, take_add, slice, slice_lem,
}
use mathlib.Core.List.{map-append}
use mathlib.Core.Path.{ap₂}
use skyhookml.Prelude.Decimal.{atoi, atoi-itoa}
use skyhookml.Item.{Item, ExecTask}
use skyhookml.Tasks.Split.{Split, take_splits, tag, tag_all, get_tasks}

-- The sum of the percentages.
abbrev pub total : List Split → ℕ
total [] = 0
total (split ∷ splits) = split.percentage + total splits

-- The position in `n` tasks at which a sum of percentages ends.
abbrev pub cut : ℕ → ℕ → ℕ
cut n percentage = percentage * n / 100

cut_mono : (n p q : ℕ) → p ≤ q → cut n p ≤ cut n q
cut_mono n p q h = grind arith

cut_le : (n p : ℕ) → p ≤ 100 → cut n p ≤ n
cut_le n p h = grind arith

-- The split indices of the tasks in order, for the splits from the one of index `i` on.
abbrev pub indices : ℕ → ℕ → ℕ → List Split → List (Option ℕ)
indices n i sum [] = []
indices n i sum (split ∷ splits) =
    replicate (cut n (sum + split.percentage) - cut n sum) (some i)
    ++ indices n (suc i) (sum + split.percentage) splits

abbrev pub read_index : ExecTask → Option ℕ
read_index task = atoi task.metadata

-- A task but for its metadata.
abbrev pub content : ExecTask → Text × Dict Text (List (List Item))
content task = (task.key, task.items)

tag_index :
    (i : ℕ) (tasks : List ExecTask)
    → map read_index (tag i tasks) ≡ replicate (length tasks) (some i)
unfolding tag
tag_index i [] = refl
tag_index i (task ∷ tasks) = ap₂ (λ (a : Option ℕ) as'. a ∷ as') (atoi-itoa i) (tag_index i tasks)

tag-content : (i : ℕ) (tasks : List ExecTask) → map content (tag i tasks) ≡ map content tasks
unfolding tag
tag-content i [] = refl
tag-content i (task ∷ tasks) = ap (◌∷◌ (content task)) (tag-content i tasks)

module _ (tasks spare : List ExecTask) where
  abbrev segment : ℕ → ℕ → List ExecTask
  segment p q =
      take (cut (length tasks) q - cut (length tasks) p) (drop (cut (length tasks) p) tasks)

  slice-segment :
      (p q : ℕ)
      → p ≤ q
      → q ≤ 100
      → slice (tasks ++ spare) (cut (length tasks) p) (cut (length tasks) q) ≡ some (segment p q)
  slice-segment p q h k =
      let n = length tasks in
      let i≤j = cut_mono n p q h in
      let j≤n = cut_le n q k in
      slice_lem (tasks ++ spare) (cut n p) (cut n q) i≤j (omega (arith, length-append tasks spare))
      ∙ ap some (
          ap (take (cut n q - cut n p)) (drop-append_le (cut n p) tasks spare (omega arith))
          ∙ take-append_le (cut n q - cut n p) (drop (cut n p) tasks) spare
              (omega (arith, length-drop (cut n p) tasks)))

  length-segment :
      (p q : ℕ) → q ≤ 100 → length (segment p q) ≡ cut (length tasks) q - cut (length tasks) p
  length-segment p q k =
      let n = length tasks in
      omega (
        arith,
        length-take (cut n q - cut n p) (drop (cut n p) tasks),
        length-drop (cut n p) tasks,
        cut_le n q k,
      )

  segment_append : (p q r : ℕ) → p ≤ q → q ≤ r → segment p q ++ segment q r ≡ segment p r
  segment_append p q r h k =
      let n = length tasks in
      let a = cut n p in
      let b = cut n q in
      let c = cut n r in
      let ys = drop a tasks in
      let a≤b = cut_mono n p q h in
      let b≤c = cut_mono n q r k in
      let again : drop b tasks ≡ drop (b - a) ys =
        ap (λ j. drop j tasks) (omega arith) ∙ sym (drop-drop (b - a) a tasks) in
      ap (λ l. take (b - a) ys ++ take (c - b) l) again
      ∙ take_add (b - a) (c - b) ys
      ∙ ap (λ j. take j ys) (omega arith)

  abbrev segments : ℕ → List Split → List (List ExecTask)
  segments sum [] = []
  segments sum (split ∷ splits) =
      segment sum (sum + split.percentage) ∷ segments (sum + split.percentage) splits

  take_splits_lem :
      (splits : List Split) (sum : ℕ)
      → sum + total splits ≤ 100
      → take_splits splits tasks spare sum (cut (length tasks) sum) ≡ some (segments sum splits)
  unfolding take_splits
  take_splits_lem [] sum h = refl
  take_splits_lem (split ∷ splits) sum h = rw (
    slice-segment sum (sum + split.percentage) (omega arith) (omega arith),
    take_splits_lem splits (sum + split.percentage) (omega arith),
  )

  tag_all_index :
      (splits : List Split) (sum i : ℕ)
      → sum + total splits ≤ 100
      → map read_index (tag_all i (segments sum splits)) ≡ indices (length tasks) i sum splits
  unfolding tag_all
  tag_all_index [] sum i h = refl
  tag_all_index (split ∷ splits) sum i h =
      let part = segment sum (sum + split.percentage) in
      map-append read_index (tag i part)
        (tag_all (suc i) (segments (sum + split.percentage) splits))
      ∙ ap₂ (λ (xs : List (Option ℕ)) ys. xs ++ ys)
          (tag_index i part
            ∙ ap (λ k. replicate k (some i))
                (length-segment sum (sum + split.percentage) (omega arith)))
          (tag_all_index splits (sum + split.percentage) (suc i) (omega arith))

  tag_all-content :
      (splits : List Split) (sum i : ℕ)
      → map content (tag_all i (segments sum splits))
        ≡ map content (segment sum (sum + total splits))
  unfolding tag_all
  tag_all-content [] sum i =
      let n = length tasks in
      ap (λ k. map content (take k (drop (cut n sum) tasks))) (sym (none_left n sum))
    where
      none_left : (n p : ℕ) → cut n (p + 0) - cut n p ≡ 0
      none_left n p = let e : p ≡ p + 0 = omega arith in rw (← e) (omega arith)
  tag_all-content (split ∷ splits) sum i =
      let next = sum + split.percentage in
      map-append content (tag i (segment sum next)) (tag_all (suc i) (segments next splits))
      ∙ ap₂ (λ (xs : List (Text × Dict Text (List (List Item)))) ys. xs ++ ys)
          (tag-content i (segment sum next)) (tag_all-content splits next (suc i))
      ∙ sym (map-append content (segment sum next) (segment next (next + total splits)))
      ∙ ap (map content) (segment_append sum next (next + total splits) (omega arith) (omega arith))
      ∙ ap (λ q. map content (segment sum q)) (omega arith)

-- Where the percentages add up to at most 100, no slice is out of range, and what the backing array
-- holds beyond the tasks does not matter: the tasks up to the last cut come out in order, each once
-- and unchanged but for the metadata, from which each task's split index is read back; the split that
-- ends at the percentage q (summed up) and starts at p gets the tasks from ⌊p * n / 100⌋ to
-- ⌊q * n / 100⌋ of n.
pub get_tasks_lem :
    (splits : List Split) (tasks spare : List ExecTask)
    → total splits ≤ 100
    → (out : List ExecTask) × (get_tasks splits tasks spare ≡ some out)
      × (map content out ≡ map content (take (cut (length tasks) (total splits)) tasks))
      × (map read_index out ≡ indices (length tasks) 0 0 splits)
unfolding get_tasks
get_tasks_lem splits tasks spare h = (
  tag_all 0 (segments tasks spare 0 splits),
  rw (
      subst (λ k. take_splits splits tasks spare 0 k ≡ some (segments tasks spare 0 splits))
        from_zero (take_splits_lem tasks spare splits 0 (omega arith))),
  tag_all-content tasks spare splits 0 0
      ∙ ap (λ q. map content (segment tasks spare 0 q)) (omega arith)
      ∙ ap (λ k. map content (take (cut n (total splits) - k) (drop k tasks))) from_zero
      ∙ ap (λ k. map content (take k tasks)) (omega arith),
  tag_all_index tasks spare splits 0 0 (omega arith),
)
  where
    n : ℕ
    n = length tasks

    from_zero : cut n 0 ≡ 0
    from_zero = omega arith
