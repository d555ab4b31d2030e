-- ===== src/App/RunNode/Needed.antt =====
-- app/graph.go: one round of recomputeNeeded, the loop over the parents of a node.
use skyhookml.Prelude.{
  Dict, lookup, insert, keys, contains, Distinct, lookup-insert, contains-keys-insert,
  keys-insert-Distinct, ◌==◌, nat_eq, text_eq, pair_eq, ◌+◌, ◌≤◌, ◌≡◌, sym, ap, subst, ◌∙◌, ◌⊎◌,
  inl, inr, true, ◌||◌, none, some, List, [], ◌∷◌, arith, Bool-cases, Option-cases, length,
}
use skyhookml.Graph.Node.{GraphId, graph_id_eq, Node}
use skyhookml.Graph.Hash.Order.{lookup-contains}
use skyhookml.App.Incorporate.Parents.{
  Grows, Grows-contains, Grows-insert, lookup-absent, absent, absent-insert,
}
use skyhookml.App.RunNode.{add_missing}

-- Of the ids, those that are missing are needed.
abbrev pub IsCovered : Dict GraphId Node → Dict GraphId Node → List GraphId → Type 0
IsCovered missing needed [] = Unit
IsCovered missing needed (p ∷ ids) =
    (contains (keys missing) p ≡ true → contains (keys needed) p ≡ true)
    × IsCovered missing needed ids

pub IsCovered-Grows :
    (missing needed needed' : Dict GraphId Node) (ids : List GraphId)
    → Grows needed needed'
    → IsCovered missing needed ids
    → IsCovered missing needed' ids
IsCovered-Grows missing needed needed' [] grows all = tt
IsCovered-Grows missing needed needed' (p ∷ ids) grows all = (
  λ c. Grows-contains needed needed' p grows (all.0 c),
  IsCovered-Grows missing needed needed' ids grows all.1,
)

-- What the loop has done when it ends.
pub record Collected (missing : Dict GraphId Node) (ids : List GraphId) (needed : Dict GraphId Node)
    (q : List GraphId) (needed' : Dict GraphId Node) (q' : List GraphId) : Type 0 where
  pub grows : Grows needed needed'
  pub covered : IsCovered missing needed' ids
  -- A node that is new is a parent that is missing, and is to be searched.
  pub fresh :
      (id : GraphId) (node : Node)
      → lookup id needed' ≡ some node
      → (lookup id needed ≡ some node)
        ⊎ ((lookup id missing ≡ some node) × (contains ids id ≡ true) × (contains q' id ≡ true))
  pub keeps : (id : GraphId) → contains q id ≡ true → contains q' id ≡ true
  pub queued :
      (id : GraphId) → contains q' id ≡ true → (contains q id || contains (keys needed') id) ≡ true
  pub distinct : Distinct (keys needed) → Distinct (keys needed')
  pub less : length q' + absent (keys missing) needed' ≤ length q + absent (keys missing) needed

module _ (missing : Dict GraphId Node) where
  Collected-nil :
      (needed : Dict GraphId Node) (q : List GraphId) → Collected missing [] needed q needed q
  Collected-nil needed q = record {
    grows = λ id n e. e;
    covered = tt;
    fresh = λ id n e. inl e;
    keeps = λ id c. c;
    queued = λ id c. ground (arith, c);
    distinct = λ d. d;
    less = omega arith;
  }

  -- A parent that needs no entry.
  Collected-skip :
      (p : GraphId) (ids : List GraphId) (needed : Dict GraphId Node) (q : List GraphId)
      (needed' : Dict GraphId Node) (q' : List GraphId)
      → (contains (keys missing) p ≡ true → contains (keys needed) p ≡ true)
      → Collected missing ids needed q needed' q'
      → Collected missing (p ∷ ids) needed q needed' q'
  Collected-skip p ids needed q needed' q' there c = record {
    grows = c.grows;
    covered = (λ m. Grows-contains needed needed' p c.grows (there m), c.covered);
    fresh = λ id n e. elim (c.fresh id n e) [
      | inl old ↦ inl old
      | inr (found, parent, queued) ↦ inr (found, ground (arith, parent), queued)
    ];
    keeps = c.keeps;
    queued = c.queued;
    distinct = c.distinct;
    less = c.less;
  }

  -- A parent that is missing and new.
  Collected-add :
      (p : GraphId) (node : Node) (ids : List GraphId) (needed : Dict GraphId Node)
      (q : List GraphId) (needed' : Dict GraphId Node) (q' : List GraphId)
      → lookup p missing ≡ some node
      → lookup p needed ≡ none
      → Collected missing ids (insert p node needed) (p ∷ q) needed' q'
      → Collected missing (p ∷ ids) needed q needed' q'
  Collected-add p node ids needed q needed' q' found outside c =
      let added = insert p node needed in
      let there : contains (keys added) p ≡ true =
        ground (arith, contains-keys-insert p p node needed, graph_id_eq.test_iff p p) in
      record {
        grows = λ id n e. c.grows id n (Grows-insert needed p node outside id n e);
        covered = (λ m. Grows-contains added needed' p c.grows there, c.covered);
        fresh = λ id n e. elim (c.fresh id n e) [
          | inr (from, parent, queued) ↦ inr (from, ground (arith, parent), queued)
          | inl old ↦ elim (Bool-cases (p == id)) [
            | inr other ↦ inl (ground (arith, lookup-insert p id node needed))
            | inl same ↦
                let id≡ = (graph_id_eq.test_iff p id).0 same in
                let n≡ : node ≡ n = ground (arith, lookup-insert p id node needed) in
                inr (
                  ap (λ i. lookup i missing) (sym id≡) ∙ found ∙ ap some n≡,
                  ground (arith, same),
                  c.keeps id (ground (arith, same)),
                )
          ]
        ];
        keeps = λ id h. c.keeps id (ground (arith, h));
        queued = λ id h. elim (Bool-cases (p == id)) [
          | inr other ↦ ground (arith, c.queued id h, other)
          | inl same ↦
              let id≡ = (graph_id_eq.test_iff p id).0 same in
              let inside = Grows-contains added needed' p c.grows there in
              let inside' : contains (keys needed') id ≡ true =
                subst (λ i. contains (keys needed') i ≡ true) id≡ inside in
              ground (arith, inside')
        ];
        distinct = λ d. c.distinct (keys-insert-Distinct p node needed d);
        less = omega (
          arith,
          c.less,
          absent-insert (keys missing) needed p node (lookup-contains missing p node found)
              (lookup-absent needed p outside),
        );
      }

  pub add_missing-Collected :
      (ids : List GraphId) (needed : Dict GraphId Node) (q : List GraphId)
      → Collected missing ids needed q
          (add_missing missing ids needed q).0
          (add_missing missing ids needed q).1
  unfolding add_missing
  add_missing-Collected [] needed q = Collected-nil needed q
  add_missing-Collected (p ∷ ids) needed q = elim (Option-cases (lookup p missing)) [
    | inl e ↦
        rw (e, add_missing)
          (Collected-skip p ids needed q _ _
            (λ c. absurd (ground (arith, c, lookup-absent missing p e)))
            (add_missing-Collected ids needed q))
    | inr (node, e) ↦ elim (Option-cases (lookup p needed)) [
      | inr (old, f) ↦
          rw (e, f, add_missing)
            (Collected-skip p ids needed q _ _ (λ c. lookup-contains needed p old f)
              (add_missing-Collected ids needed q))
      | inl f ↦
          rw (e, f, add_missing)
            (Collected-add p node ids needed q _ _ e f
              (add_missing-Collected ids (insert p node needed) (p ∷ q)))
    ]
  ]
