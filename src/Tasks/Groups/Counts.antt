-- ===== src/Tasks/Groups/Counts.antt =====
-- exec_ops/util.go: how often a key is counted.
use skyhookml.Prelude.{
  ℕ, ◌+◌, ◌≤◌, ◌<◌, ◌≡◌, refl, ◌∷◌, [], List, Text, Dict, Bool, lookup_or, insert, keys, contains,
  Distinct, leb, length, if◌then◌else◌, true, ◌&&◌, ◌||◌, text_eq, arith, filter-Distinct,
  lookup_or-insert, contains-filter, contains-keys-insert, keys-insert-Distinct,
}
use skyhookml.Tasks.Groups.{
  num_datasets, count_keys, retained, distinct_keys, count_key_lists, count_inputs,
  map_get_output_keys,
}

abbrev pub one_if : Bool → ℕ
one_if b = if b then 1 else 0

pub count_keys_lem :
    (s : List Text) (hits : Dict Text ℕ) (k : Text)
    → Distinct s
    → lookup_or 0 k (count_keys s hits) ≡ lookup_or 0 k hits + one_if (contains s k)
unfolding count_keys
count_keys_lem [] hits k d = omega arith
count_keys_lem (j ∷ s) hits k d = ground (
  arith,
  count_keys_lem s (insert j (lookup_or 0 j hits + 1) hits) k d.1,
  lookup_or-insert 0 j k (lookup_or 0 j hits + 1) hits,
  text_eq.test_iff j k,
)

pub contains-keys-count_keys :
    (s : List Text) (hits : Dict Text ℕ) (k : Text)
    → contains (keys (count_keys s hits)) k ≡ (contains s k || contains (keys hits) k)
unfolding count_keys
contains-keys-count_keys [] hits k = refl
contains-keys-count_keys (j ∷ s) hits k = ground (
  arith,
  contains-keys-count_keys s (insert j (lookup_or 0 j hits + 1) hits) k,
  contains-keys-insert j k (lookup_or 0 j hits + 1) hits,
)

pub keys-count_keys-Distinct :
    (s : List Text) (hits : Dict Text ℕ)
    → Distinct (keys hits)
    → Distinct (keys (count_keys s hits))
unfolding count_keys
keys-count_keys-Distinct [] hits d = d
keys-count_keys-Distinct (j ∷ s) hits d =
    keys-count_keys-Distinct s (insert j (lookup_or 0 j hits + 1) hits)
      (keys-insert-Distinct j (lookup_or 0 j hits + 1) hits d)

-- A key with a count has an entry.
pub contains_of_pos :
    (hits : Dict Text ℕ) (k : Text) → 0 < lookup_or 0 k hits → contains (keys hits) k ≡ true
contains_of_pos [] k h = absurd (omega arith)
contains_of_pos ((j, n) ∷ hits) k h = ground (arith, contains_of_pos hits k)

-- The retained keys are those that are counted often enough, each once.
pub contains-retained :
    (num : ℕ) (hits : Dict Text ℕ) (k : Text)
    → 0 < num
    → contains (retained num hits) k ≡ leb num (lookup_or 0 k hits)
unfolding retained
contains-retained num hits k h = ground (
  arith,
  contains-filter (λ key. leb num (lookup_or 0 key hits)) (keys hits) k,
  contains_of_pos hits k,
)

pub retained-Distinct :
    (num : ℕ) (hits : Dict Text ℕ) → Distinct (keys hits) → Distinct (retained num hits)
unfolding retained
retained-Distinct num hits d = filter-Distinct (λ key. leb num (lookup_or 0 key hits)) (keys hits) d

-- In how many of the lists a key is, and whether it is in all of them.
abbrev pub lists_with : Text → List (List Text) → ℕ
lists_with k [] = 0
lists_with k (l ∷ ls) = one_if (contains l k) + lists_with k ls

abbrev pub in_all_lists : Text → List (List Text) → Bool
in_all_lists k [] = true
in_all_lists k (l ∷ ls) = contains l k && in_all_lists k ls

abbrev pub inputs_with : Text → Dict Text (List (List Text)) → ℕ
inputs_with k [] = 0
inputs_with k ((name, ls) ∷ inputs) = lists_with k ls + inputs_with k inputs

-- The key is in every list of every input.
abbrev pub in_all : Text → Dict Text (List (List Text)) → Bool
in_all k [] = true
in_all k ((name, ls) ∷ inputs) = in_all_lists k ls && in_all k inputs

lists_with-in_all :
    (k : Text) (ls : List (List Text))
    → (lists_with k ls ≤ length ls) × (in_all_lists k ls ≡ leb (length ls) (lists_with k ls))
lists_with-in_all k [] = (omega arith, refl)
lists_with-in_all k (l ∷ ls) = ground (arith, lists_with-in_all k ls)

pub inputs_with-in_all :
    (k : Text) (inputs : Dict Text (List (List Text)))
    → (inputs_with k inputs ≤ num_datasets inputs)
      × (in_all k inputs ≡ leb (num_datasets inputs) (inputs_with k inputs))
unfolding num_datasets
inputs_with-in_all k [] = (omega arith, refl)
inputs_with-in_all k ((name, ls) ∷ inputs) =
    ground (arith, lists_with-in_all k ls, inputs_with-in_all k inputs)

distinct_keys_lem :
    (l s : List Text) (k : Text) → contains (distinct_keys l s) k ≡ (contains s k || contains l k)
unfolding distinct_keys
distinct_keys_lem [] s k = ground arith
distinct_keys_lem (j ∷ l) s k =
    ground (arith, distinct_keys_lem l (if contains s j then s else j ∷ s) k, text_eq.test_iff j k)

distinct_keys-Distinct : (l s : List Text) → Distinct s → Distinct (distinct_keys l s)
unfolding distinct_keys
distinct_keys-Distinct [] s d = d
distinct_keys-Distinct (j ∷ l) s d =
    distinct_keys-Distinct l (if contains s j then s else j ∷ s) (ground arith)

count_key_lists_lem :
    (ls : List (List Text)) (hits : Dict Text ℕ) (k : Text)
    → lookup_or 0 k (count_key_lists ls hits) ≡ lookup_or 0 k hits + lists_with k ls
unfolding count_key_lists
count_key_lists_lem [] hits k = omega arith
count_key_lists_lem (l ∷ ls) hits k = ground (
  arith,
  count_key_lists_lem ls (count_keys (distinct_keys l []) hits) k,
  count_keys_lem (distinct_keys l []) hits k (distinct_keys-Distinct l [] tt),
  distinct_keys_lem l [] k,
)

count_inputs_lem :
    (inputs : Dict Text (List (List Text))) (hits : Dict Text ℕ) (k : Text)
    → lookup_or 0 k (count_inputs inputs hits) ≡ lookup_or 0 k hits + inputs_with k inputs
unfolding count_inputs
count_inputs_lem [] hits k = omega arith
count_inputs_lem ((name, ls) ∷ inputs) hits k =
    ground
      (arith, count_inputs_lem inputs (count_key_lists ls hits) k, count_key_lists_lem ls hits k)

-- The output keys of a node with at least one parent are exactly the keys that are in all the lists.
pub contains-map_get_output_keys :
    (inputs : Dict Text (List (List Text))) (k : Text)
    → 0 < num_datasets inputs
    → contains (map_get_output_keys inputs) k ≡ in_all k inputs
unfolding map_get_output_keys
contains-map_get_output_keys inputs k h = ground (
  arith,
  contains-retained (num_datasets inputs) (count_inputs inputs []) k h,
  count_inputs_lem inputs [] k,
  inputs_with-in_all k inputs,
)
