-- ===== src/App/Prepare/Runs.antt =====
-- app/exec.go: the runs that DBExecNode.PrepareRun prepares.
use skyhookml.Prelude.{
  Dict, keys, Distinct, Text, nat_eq, text_eq, pair_eq, ◌≡◌, sym, ap, subst, ◌∙◌, inl, inr, Bool,
  true, false, ◌&&◌, none, List, arith, if◌then◌else◌,
}
use skyhookml.Item.{Item, ExecTask}
use skyhookml.App.Prepare.{
  ExecRunOptions, DbDataset, Parent, Result, ok, RunData, Prepared, already_done, refused, prepared,
  all_done, clear_outputs, input_items, pending_tasks, limit_tasks, get_computed_keys,
  prepare_tasks, prepare_inputs, prepare_run,
}
use skyhookml.App.Prepare.Parents.{
  CanRead, all_contents, parents_done, Result-cases, input_items-ok, parents_done-CanRead,
}
use skyhookml.App.Prepare.Computed.{
  computed_after, contains-computed_after, kept_tasks, none_left, without, kept_tasks-without,
}
use skyhookml.App.Prepare.Laws.{
  Selects, limit_tasks-Selects, all_within, all_within-none, tasks_within, tasks_within-all,
}

no_run {ℓ} : {A : Type ℓ} (rd : RunData) → already_done ≡ prepared rd → A
no_run rd h = absurd cc

module _ (get_tasks : Dict Text (List (List Item)) → Result (List ExecTask)) where
  -- A run, and what it is made from.
  abbrev Made : ExecRunOptions → Dict Text DbDataset → Dict Text (List Parent) → RunData → Type 0
  Made opts outputs parents rd =
      (items : Dict Text (List (List Item))) × (parents_done : Bool) × (tasks : List ExecTask)
      × (input_items opts.incremental parents ≡ ok (items, parents_done))
      × (get_tasks items ≡ ok tasks)
      × Selects opts.limit_output_keys parents_done
          (pending_tasks opts (get_computed_keys outputs) tasks) rd

  refused_run {ℓ} : {A : Type ℓ} (message : Text) (rd : RunData) → refused message ≡ prepared rd → A
  refused_run message rd h = absurd cc

  prepare_inputs-Made :
      (opts : ExecRunOptions) (outputs : Dict Text DbDataset) (parents : Dict Text (List Parent))
      (rd : RunData)
      → prepare_inputs get_tasks opts outputs parents ≡ prepared rd
      → Made opts outputs parents rd
  unfolding prepare_inputs prepare_tasks
  prepare_inputs-Made opts outputs parents rd e =
      elim (Result-cases (input_items opts.incremental parents)) [
        | inl (message, failed) ↦ refused_run message rd (rw (failed, prepare_inputs) at e)
        | inr ((items, parents_done), found) ↦ elim (Result-cases (get_tasks items)) [
          | inl (message, failed) ↦
              refused_run message rd (rw (found, failed, prepare_inputs, prepare_tasks) at e)
          | inr (tasks, made) ↦
              let same : prepared (
                    limit_tasks opts.limit_output_keys parents_done
                      (pending_tasks opts (get_computed_keys outputs) tasks))
                  ≡ prepared rd =
                rw (found, made, prepare_inputs, prepare_tasks) at e in
              let rd≡ : limit_tasks opts.limit_output_keys parents_done
                    (pending_tasks opts (get_computed_keys outputs) tasks)
                  ≡ rd =
                cc in
              (
                items,
                parents_done,
                tasks,
                found,
                made,
                subst
                    (Selects opts.limit_output_keys parents_done
                      (pending_tasks opts (get_computed_keys outputs) tasks))
                    rd≡ (limit_tasks-Selects _ _ _),
              )
        ]
      ]

  prepare_run-Made :
      (opts : ExecRunOptions) (outputs : Dict Text DbDataset) (parents : Dict Text (List Parent))
      (rd : RunData)
      → (prepare_run get_tasks opts outputs parents).1 ≡ prepared rd
      → Made opts (if opts.force then clear_outputs outputs else outputs) parents rd
  unfolding prepare_run
  prepare_run-Made opts outputs parents rd = by opts.force (all_done outputs)
    where
      cleared : Dict Text DbDataset × Prepared
      cleared =
          (clear_outputs outputs, prepare_inputs get_tasks opts (clear_outputs outputs) parents)

      skipped : Dict Text DbDataset × Prepared
      skipped = (outputs, already_done)

      kept : Dict Text DbDataset × Prepared
      kept = (outputs, prepare_inputs get_tasks opts outputs parents)

      by :
          (force done : Bool)
          → (if force then cleared else (if done then skipped else kept)).1 ≡ prepared rd
          → Made opts (if force then clear_outputs outputs else outputs) parents rd
      by true done = prepare_inputs-Made opts (clear_outputs outputs) parents rd
      by false true = no_run rd
      by false false = prepare_inputs-Made opts outputs parents rd

  -- What PrepareRun prepares, when the output datasets have distinct names: every parent that is
  -- a node's output is there, and done unless the run is incremental. The tasks are those that
  -- GetTasks makes of the items of the parents' datasets, in their order, each kept exactly if
  -- its key is within the limit and is not, in an incremental run that does not clear the
  -- outputs, a key that every output dataset has an item of. The node will be done exactly if
  -- all parents that are node outputs are done and every task that is left out for the limit is
  -- also left out as computed.
  pub prepare_run_lem :
      (opts : ExecRunOptions) (outputs : Dict Text DbDataset) (parents : Dict Text (List Parent))
      (rd : RunData)
      → Distinct (keys outputs)
      → (prepare_run get_tasks opts outputs parents).1 ≡ prepared rd
      → CanRead opts.incremental parents
        × (tasks : List ExecTask) × (get_tasks (all_contents parents) ≡ ok tasks)
        × (rd.tasks
            ≡ kept_tasks opts.limit_output_keys
                (λ key. opts.incremental && computed_after opts.force outputs key)
                tasks)
        × (rd.will_be_done ≡ (
            parents_done parents
            && none_left opts.limit_output_keys
                (λ key. opts.incremental && computed_after opts.force outputs key)
                tasks))
  unfolding pending_tasks
  prepare_run_lem opts outputs parents rd distinct e =
      let (items, done, tasks, found, made, (rd_tasks, rd_done)) =
        prepare_run-Made opts outputs parents rd e in
      let (can, items≡, done≡) = input_items-ok opts.incremental parents items done found in
      let dropped : Text → Bool =
        λ key. opts.incremental && computed_after opts.force outputs key in
      let completed = get_computed_keys (if opts.force then clear_outputs outputs else outputs) in
      let (kept, left) =
        kept_tasks-without opts.limit_output_keys completed dropped opts.incremental tasks (λ key.
          ap (λ b. opts.incremental && b)
            (contains-computed_after opts.force outputs key distinct)) in
      (
        can,
        tasks,
        ap get_tasks (sym items≡) ∙ made,
        rd_tasks ∙ kept,
        rd_done
            ∙ ap (λ b. b && all_within opts.limit_output_keys (pending_tasks opts completed tasks))
                done≡
            ∙ ap (λ b. parents_done parents && b) left,
      )

  -- In a run that is neither incremental nor limited, all parents that are node outputs are
  -- there and done, the tasks are all that GetTasks makes of the items of the parents' datasets,
  -- and the node will be done after it.
  pub prepare_run_full :
      (opts : ExecRunOptions) (outputs : Dict Text DbDataset) (parents : Dict Text (List Parent))
      (rd : RunData)
      → opts.incremental ≡ false
      → opts.limit_output_keys ≡ none
      → (prepare_run get_tasks opts outputs parents).1 ≡ prepared rd
      → (parents_done parents ≡ true)
        × (get_tasks (all_contents parents) ≡ ok rd.tasks)
        × (rd.will_be_done ≡ true)
  unfolding pending_tasks
  prepare_run_full opts outputs parents rd whole unlimited e =
      let (items, done, tasks, found, made, (rd_tasks, rd_done)) =
        prepare_run-Made opts outputs parents rd e in
      let (can, items≡, done≡) = input_items-ok opts.incremental parents items done found in
      let all_parents = parents_done-CanRead parents (subst (λ b. CanRead b parents) whole can) in
      let completed = get_computed_keys (if opts.force then clear_outputs outputs else outputs) in
      let pending = pending_tasks opts completed tasks in
      let all : pending ≡ tasks = ap (λ b. without b completed tasks) whole in
      let rd≡ : rd.tasks ≡ tasks =
        rd_tasks
        ∙ ap (λ l. tasks_within l pending) unlimited
        ∙ tasks_within-all none pending (all_within-none pending)
        ∙ all in
      let will : rd.will_be_done ≡ true =
        rd_done
        ∙ ap (λ l. done && all_within l pending) unlimited
        ∙ ground (arith, done≡, all_parents, all_within-none pending) in
      (all_parents, ap get_tasks (sym items≡) ∙ made ∙ ap ok (sym rd≡), will)
