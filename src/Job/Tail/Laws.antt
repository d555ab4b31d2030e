-- ===== src/Job/Tail/Laws.antt =====
-- skyhook/job.go: TailJobOp.Update keeps the latest lines.
use skyhookml.Prelude.{
  Text, nat_eq, text_eq, pair_eq, ℕ, suc, ◌+◌, ◌-◌, ◌≤◌, ◌<◌, min, ◌≡◌, refl, sym, ap, ◌∙◌, inl,
  inr, true, Option, some, List, [], ◌∷◌, ◌++◌, append-nil, append_assoc, arith, ltb, leb, eqb,
  if◌then◌else◌, ltb→lt, lt→ltb, ltb→le, le→leb, Bool-cases, ◌>>=◌, length, take, drop,
  length-append, length-take, length-drop, take-append-drop, take-all, drop-all, drop-append_le,
  take-append_exact, drop-append_exact, rtake, rtake-all, rtake-append_ge,
}
use mathlib.Core.List.{flatten}
use skyhookml.Job.Tail.{
  TailJobOp, tail_job_op_num_lines, copy, slice_from, overwrite_end, set_capacity, room, fill,
  shift, latest, insert, update,
}

copy_lem {ℓ} :
    {A : Type ℓ} (dst src : List A)
    → length src ≤ length dst
    → copy dst src ≡ src ++ drop (length src) dst
unfolding copy
copy_lem [] [] h = refl
copy_lem [] (s ∷ ss) h = absurd (omega arith)
copy_lem (d ∷ ds) [] h = refl
copy_lem (d ∷ ds) (s ∷ ss) h = ap (◌∷◌ s) (copy_lem ds ss (omega arith))

-- The first copy: the lines that stay, with a rest that is overwritten next.
moved_lem :
    (ls : List Text) (m : ℕ)
    → m ≤ length ls
    → copy ls (drop m ls) ≡ drop m ls ++ drop (length ls - m) ls
moved_lem ls m h =
    copy_lem ls (drop m ls) (omega (arith, length-drop m ls))
    ∙ ap (λ k. drop m ls ++ drop k ls) (length-drop m ls)

overwrite_end_lem :
    (xs ys new : List Text)
    → length ys ≡ length new
    → overwrite_end (xs ++ ys) new ≡ some (xs ++ new)
unfolding overwrite_end
overwrite_end_lem xs ys new h =
    let fits : leb (length new) (length (xs ++ ys)) ≡ true =
      le→leb _ _ (omega (arith, length-append xs ys)) in
    let start : length (xs ++ ys) - length new ≡ length xs = omega (arith, length-append xs ys) in
    rw
      (
        fits,
        start,
        take-append_exact (length xs) xs ys refl,
        drop-append_exact (length xs) xs ys refl,
      )
      (ap (λ l. some (xs ++ l))
        (copy_lem ys new (omega arith)
          ∙ ap (◌++◌ new) (drop-all (length new) ys (omega arith))
          ∙ append-nil new))

shift_lem :
    (op : TailJobOp) (new : List Text)
    → length new ≤ length op.lines
    → shift op new ≡ some (record op { lines = drop (length new) op.lines ++ new })
unfolding shift slice_from
shift_lem op new h = rw (
  le→leb _ _ h,
  moved_lem op.lines (length new) h,
  overwrite_end_lem (drop (length new) op.lines) (drop (length op.lines - length new) op.lines) new
      (omega (arith, length-drop (length op.lines - length new) op.lines)),
)

latest-eq-rtake : (op : TailJobOp) (new : List Text) → latest op new ≡ rtake op.num_lines new
unfolding latest
latest-eq-rtake op new = elim (Bool-cases (ltb op.num_lines (length new))) [
  | inl more ↦ rw more
  | inr fits ↦ rw fits (sym (rtake-all op.num_lines new (ground arith)))
]

pub length-rtake-le : (n : ℕ) (xs : List Text) → length (rtake n xs) ≤ n
length-rtake-le n xs = omega (arith, length-drop (length xs - n) xs)

-- Shifting by the latest new lines is to keep the last of all lines, once the buffer is full.
full_lem :
    (n : ℕ) (ls new : List Text)
    → length ls ≡ n
    → drop (length (rtake n new)) ls ++ rtake n new ≡ rtake n (ls ++ new)
full_lem n ls new h = elim (Bool-cases (ltb n (length new))) [
  | inl more ↦
      ap (λ l. l ++ rtake n new)
        (drop-all (length (rtake n new)) ls (ground (arith, length-drop (length new - n) new)))
      ∙ sym (rtake-append_ge n ls new (ground arith))
  | inr fits ↦ rw (rtake-all n new (ground arith)) (
      sym (drop-append_le (length new) ls new (ground arith))
      ∙ ap (λ k. drop k (ls ++ new)) (omega (arith, length-append ls new)))
]

shift_or_keep :
    (op : TailJobOp) (k : List Text)
    → length k ≤ length op.lines
    → (if ltb 0 (length k) then shift op k else some op)
      ≡ some (record op { lines = drop (length k) op.lines ++ k })
shift_or_keep op [] h = ap (λ l. some (record op { lines = l })) (sym (append-nil op.lines))
shift_or_keep op (x ∷ k) h = rw (lt→ltb 0 (suc (length k)) (omega arith)) (shift_lem op (x ∷ k) h)

insert_full :
    (op : TailJobOp) (new : List Text)
    → length op.lines ≡ op.num_lines
    → insert op new ≡ some (record op { lines = rtake op.num_lines (op.lines ++ new) })
unfolding insert
insert_full op new h =
    rw (latest-eq-rtake op new, ← full_lem op.num_lines op.lines new h)
      (shift_or_keep op (rtake op.num_lines new) (omega (arith, length-rtake-le op.num_lines new)))

insert_none : (op : TailJobOp) → length op.lines ≤ op.num_lines → insert op [] ≡ some op
unfolding insert latest
insert_none op h = ground arith

-- The capacity that a call works with.
abbrev pub capacity : TailJobOp → ℕ
capacity op = if eqb op.num_lines 0 then tail_job_op_num_lines else op.num_lines

room_lem :
    (op : TailJobOp) (new : List Text)
    → length op.lines ≤ op.num_lines
    → room op new ≡ min (length new) (op.num_lines - length op.lines)
unfolding room
room_lem op new h = ground arith

fill_lem :
    (op : TailJobOp) (new : List Text) (n : ℕ)
    → room op new ≡ n
    → fill op new ≡ record op { lines = op.lines ++ take n new }
unfolding fill
fill_lem op new n h = ap (λ k. record op { lines = op.lines ++ take k new }) h

insert-fill :
    (op : TailJobOp) (new : List Text)
    → length op.lines ≤ op.num_lines
    → insert (fill op new) (drop (room op new) new)
      ≡ some (record op { lines = rtake op.num_lines (op.lines ++ new) })
insert-fill op new h = elim (Bool-cases (ltb (length op.lines + length new) op.num_lines)) [
  | inl below ↦
      let n : room op new ≡ length new = omega (arith, room_lem op new h, ltb→lt _ _ below) in
      rw (fill_lem op new (length new) n, n, take-all (length new) new (omega arith))
        (rw (drop-all (length new) new (omega arith)) (
          insert_none _ (omega (arith, length-append op.lines new, ltb→lt _ _ below))
          ∙ ap (λ l. some (record op { lines = l }))
              (sym (
                rtake-all op.num_lines (op.lines ++ new)
                  (omega (arith, length-append op.lines new, ltb→lt _ _ below))))))
  | inr over ↦
      let r : ℕ = op.num_lines - length op.lines in
      let n : room op new ≡ r = omega (arith, room_lem op new h, ltb→le _ _ over) in
      rw (fill_lem op new r n, n)
        (insert_full (record op { lines = op.lines ++ take r new }) (drop r new)
            (omega (arith, length-append op.lines (take r new), length-take r new, ltb→le _ _ over))
          ∙ ap (λ l. some (record op { lines = rtake op.num_lines l }))
              (append_assoc op.lines (take r new) (drop r new)
                ∙ ap (◌++◌ op.lines) (take-append-drop r new)))
]

-- One call never panics, and leaves the last `capacity op` lines of all that was written; the
-- capacity is 1000 unless it is set.
pub update-eq-rtake :
    (op : TailJobOp) (new : List Text)
    → length op.lines ≤ op.num_lines
    → update op new
      ≡ some (record { lines = rtake (capacity op) (op.lines ++ new); num_lines = capacity op })
unfolding update set_capacity
update-eq-rtake op new h = elim (Bool-cases (eqb op.num_lines 0)) [
  | inl unset ↦
      rw unset (insert-fill (record op { num_lines = tail_job_op_num_lines }) new (ground arith))
  | inr is_set ↦ rw is_set (insert-fill op new h)
]

-- The calls of a history, one after the other.
pub updates : TailJobOp → List (List Text) → Option TailJobOp
updates op [] = some op
updates op (new ∷ rest) = update op new >>= λ op'. updates op' rest

rtake-rtake-append : (n : ℕ) (xs ys : List Text) → rtake n (rtake n xs ++ ys) ≡ rtake n (xs ++ ys)
rtake-rtake-append n xs ys = elim (Bool-cases (ltb n (length xs))) [
  | inl more ↦
      let k : ℕ = length xs - n in
      sym (
        rtake-append_ge n (take k xs) (drop k xs ++ ys)
          (omega (arith, length-append (drop k xs) ys, length-drop k xs, ltb→lt _ _ more)))
      ∙ ap (rtake n) (
          sym (append_assoc (take k xs) (drop k xs) ys) ∙ ap (λ l. l ++ ys) (take-append-drop k xs))
  | inr few ↦ ap (λ l. rtake n (l ++ ys)) (rtake-all n xs (ltb→le _ _ few))
]

capacity_pos : (op : TailJobOp) → 0 < capacity op
capacity_pos op = ground arith

abbrev tail_of : ℕ → List Text → TailJobOp
tail_of n xs = record { lines = rtake n xs; num_lines = n }

update_tail :
    (n : ℕ) (xs new : List Text) → 0 < n → update (tail_of n xs) new ≡ some (tail_of n (xs ++ new))
update_tail n xs new h =
    let c : capacity (tail_of n xs) ≡ n = ground arith in
    update-eq-rtake (tail_of n xs) new (length-rtake-le n xs)
    ∙ ap (λ k. some (record { lines = rtake k (rtake n xs ++ new); num_lines = k })) c
    ∙ ap (λ l. some (record { lines = l; num_lines = n })) (rtake-rtake-append n xs new)

updates_tail :
    (n : ℕ) (xs : List Text) (rest : List (List Text))
    → 0 < n
    → updates (tail_of n xs) rest ≡ some (tail_of n (xs ++ flatten rest))
unfolding updates flatten
updates_tail n xs [] h = rw (append-nil xs)
updates_tail n xs (new ∷ rest) h = rw (update_tail n xs new h) (
    updates_tail n (xs ++ new) rest h
    ∙ ap (λ l. some (tail_of n l)) (append_assoc xs new (flatten rest)))

-- From a buffer with no more lines than `numLines` (a new one has none), no history of calls ever
-- panics, and after one or more of them the buffer holds the last `capacity op` of all lines, the old
-- and the written ones in order; the capacity is 1000 unless it is set.
pub updates-eq-rtake :
    (op : TailJobOp) (new : List Text) (rest : List (List Text))
    → length op.lines ≤ op.num_lines
    → updates op (new ∷ rest)
      ≡ some (record {
        lines = rtake (capacity op) (op.lines ++ flatten (new ∷ rest));
        num_lines = capacity op;
      })
unfolding updates flatten
updates-eq-rtake op new rest h = rw (update-eq-rtake op new h) (
    updates_tail (capacity op) (op.lines ++ new) rest (capacity_pos op)
    ∙ ap (λ l. some (tail_of (capacity op) l)) (append_assoc op.lines new (flatten rest)))
