-- ===== src/App/Prepare/Parents.antt =====
-- app/exec.go: the parents that DBExecNode.PrepareRun reads, without its loops.
use skyhookml.Prelude.{
  Dict, Text, nat_eq, text_eq, pair_eq, ◌≡◌, refl, sym, ap, ◌∙◌, ◌⊎◌, inl, inr, Bool, true, false,
  not, ◌&&◌, ◌||◌, none, some, List, [], ◌∷◌, arith, Bool-cases,
}
use skyhookml.Item.{Item}
use skyhookml.App.Prepare.{
  Parent, node_output, source, Result, ok, error, parent_items, list_items, input_items,
}

-- The items of a parent's dataset.
abbrev pub contents : Parent → List Item
contents (source ds) = ds.items
contents (node_output node output none) = []
contents (node_output node output (some ds)) = ds.items

abbrev pub list_contents : List Parent → List (List Item)
list_contents [] = []
list_contents (p ∷ plist) = contents p ∷ list_contents plist

abbrev pub all_contents : Dict Text (List Parent) → Dict Text (List (List Item))
all_contents [] = []
all_contents ((name, plist) ∷ parents) = (name, list_contents plist) ∷ all_contents parents

-- The output of a node is there, and done unless the run is incremental. A dataset that is no output is
-- taken as it is.
abbrev pub IsReadable : Bool → Parent → Type 0
IsReadable incremental (source ds) = Unit
IsReadable incremental (node_output node output none) = ⊥
IsReadable incremental (node_output node output (some ds)) = (incremental || ds.done) ≡ true

abbrev pub AllReadable : Bool → List Parent → Type 0
AllReadable incremental [] = Unit
AllReadable incremental (p ∷ plist) = IsReadable incremental p × AllReadable incremental plist

abbrev pub CanRead : Bool → Dict Text (List Parent) → Type 0
CanRead incremental [] = Unit
CanRead incremental ((name, plist) ∷ parents) =
    AllReadable incremental plist × CanRead incremental parents

-- The outputs of nodes are done.
abbrev pub outputs_done : List Parent → Bool
outputs_done [] = true
outputs_done (source ds ∷ plist) = outputs_done plist
outputs_done (node_output node output none ∷ plist) = false
outputs_done (node_output node output (some ds) ∷ plist) = ds.done && outputs_done plist

abbrev pub parents_done : Dict Text (List Parent) → Bool
parents_done [] = true
parents_done ((name, plist) ∷ parents) = outputs_done plist && parents_done parents

pub Result-cases :
    {A : Type 0} (r : Result A) → ((message : Text) × (r ≡ error message)) ⊎ ((x : A) × (r ≡ ok x))
Result-cases (error message) = inl (message, refl)
Result-cases (ok x) = inr (x, refl)

not_ok {ℓ} : {A : Type 0} {B : Type ℓ} (message : Text) (x : A) → error message ≡ ok x → B
not_ok message x h = absurd cc

parent_items-ok :
    (incremental : Bool) (p : Parent) (items : List Item) (done : Bool)
    → parent_items incremental p ≡ ok (items, done)
    → IsReadable incremental p × (items ≡ contents p) × (done ≡ outputs_done (p ∷ []))
unfolding parent_items
parent_items-ok incremental (source ds) items done e = (tt, cc, cc)
parent_items-ok incremental (node_output node output none) items done e = not_ok _ (items, done) e
parent_items-ok incremental (node_output node output (some ds)) items done e =
    elim (Bool-cases (not ds.done && not incremental)) [
      | inl waits ↦ not_ok _ (items, done) (rw (waits, parent_items) at e)
      | inr go ↦
          let same : ok (ds.items, ds.done) ≡ ok (items, done) = rw (go, parent_items) at e in
          let items≡ : items ≡ ds.items = cc in
          let done≡ : done ≡ ds.done = cc in (ground (arith, go), items≡, ground (arith, done≡))
    ]

outputs_done-cons :
    (p : Parent) (plist : List Parent)
    → outputs_done (p ∷ plist) ≡ (outputs_done (p ∷ []) && outputs_done plist)
outputs_done-cons (source ds) plist = refl
outputs_done-cons (node_output node output none) plist = refl
outputs_done-cons (node_output node output (some ds)) plist = ground arith

list_items-ok :
    (incremental : Bool) (plist : List Parent) (items : List (List Item)) (done : Bool)
    → list_items incremental plist ≡ ok (items, done)
    → AllReadable incremental plist × (items ≡ list_contents plist) × (done ≡ outputs_done plist)
unfolding list_items
list_items-ok incremental [] items done e = (tt, cc, cc)
list_items-ok incremental (p ∷ plist) items done e =
    elim (Result-cases (parent_items incremental p)) [
      | inl (message, failed) ↦ not_ok message (items, done) (rw (failed, list_items) at e)
      | inr ((xs, d), found) ↦ elim (Result-cases (list_items incremental plist)) [
        | inl (message, failed) ↦ not_ok message (items, done) (rw (found, failed, list_items) at e)
        | inr ((others, all), rest) ↦
            let same : ok (xs ∷ others, d && all) ≡ ok (items, done) =
              rw (found, rest, list_items) at e in
            let items≡ : items ≡ xs ∷ others = cc in
            let done≡ : done ≡ (d && all) = cc in
            let (can, xs≡, d≡) = parent_items-ok incremental p xs d found in
            let (can_all, others≡, all≡) = list_items-ok incremental plist others all rest in
            (
              (can, can_all),
              items≡ ∙ ap (λ x. x ∷ others) xs≡ ∙ ap (◌∷◌ (contents p)) others≡,
              done≡
                  ∙ ap (λ b. b && all) d≡
                  ∙ ap (λ b. outputs_done (p ∷ []) && b) all≡
                  ∙ sym (outputs_done-cons p plist),
            )
      ]
    ]

-- What PrepareRun reads: the items of the parents, if they can be read, and whether they are done.
pub input_items-ok :
    (incremental : Bool) (parents : Dict Text (List Parent)) (items : Dict Text (List (List Item)))
    (done : Bool)
    → input_items incremental parents ≡ ok (items, done)
    → CanRead incremental parents × (items ≡ all_contents parents) × (done ≡ parents_done parents)
unfolding input_items
input_items-ok incremental [] items done e = (tt, cc, cc)
input_items-ok incremental ((name, plist) ∷ parents) items done e =
    elim (Result-cases (list_items incremental plist)) [
      | inl (message, failed) ↦ not_ok message (items, done) (rw (failed, input_items) at e)
      | inr ((xs, d), found) ↦ elim (Result-cases (input_items incremental parents)) [
        | inl (message, failed) ↦
            not_ok message (items, done) (rw (found, failed, input_items) at e)
        | inr ((others, all), rest) ↦
            let same : ok ((name, xs) ∷ others, d && all) ≡ ok (items, done) =
              rw (found, rest, input_items) at e in
            let items≡ : items ≡ (name, xs) ∷ others = cc in
            let done≡ : done ≡ (d && all) = cc in
            let (can, xs≡, d≡) = list_items-ok incremental plist xs d found in
            let (can_all, others≡, all≡) = input_items-ok incremental parents others all rest in
            (
              (can, can_all),
              items≡
                  ∙ ap (λ x. (name, x) ∷ others) xs≡
                  ∙ ap (◌∷◌ (name, list_contents plist)) others≡,
              done≡ ∙ ap (λ b. b && all) d≡ ∙ ap (λ b. outputs_done plist && b) all≡,
            )
      ]
    ]

-- Without incremental execution all outputs of nodes that are parents are done.
pub parents_done-CanRead :
    (parents : Dict Text (List Parent)) → CanRead false parents → parents_done parents ≡ true
parents_done-CanRead [] can = refl
parents_done-CanRead ((name, plist) ∷ parents) can =
    ground (arith, list_done plist can.0, parents_done-CanRead parents can.1)
  where
    list_done : (ps : List Parent) → AllReadable false ps → outputs_done ps ≡ true
    list_done [] can = refl
    list_done (source ds ∷ ps) can = list_done ps can.1
    list_done (node_output node output none ∷ ps) can = absurd can.0
    list_done (node_output node output (some ds) ∷ ps) can =
        ground (arith, can.0, list_done ps can.1)
