-- ===== src/App/Jobs/Stops.antt =====
-- app/job.go: jobs that are stopped.
use skyhookml.Prelude.{
  Text, nat_eq, text_eq, pair_eq, ℕ, ◌≡◌, refl, sym, ap, ◌∙◌, Bool, true, Option, none, some, List,
  [], ◌∷◌, ◌++◌, arith, ◌>>=◌, length, replicate,
}
use skyhookml.App.Jobs.{
  JobError, EndStep, write, record_end, AppJobOp, Event, set_cleanup_func, update, cleanup,
  set_done, continue_end, stop, run_cleanup, terminated, end_steps, end_job, stop_job, run_end,
  continue_job, step, steps, start,
}
use skyhookml.App.Jobs.Laws.{Fits, Same, update_op-some, stop_job-some}

-- The end that is recorded when the steps that are left have been made.
abbrev final_error : List EndStep → Option Text → Option Text
final_error [] err = err
final_error (write lines ∷ ending) err = final_error ending err
final_error (record_end message ∷ ending) err = final_error ending (some message)

final_error-snoc :
    (ending : List EndStep) (message : Text) (err : Option Text)
    → final_error (ending ++ record_end message ∷ []) err ≡ some message
final_error-snoc [] message err = refl
final_error-snoc (write lines ∷ ending) message err = final_error-snoc ending message err
final_error-snoc (record_end m ∷ ending) message err = final_error-snoc ending message (some m)

abbrev Terminates : AppJobOp → Type 0
Terminates op = final_error op.ending op.job_error ≡ some terminated

-- A job that has been stopped stays so, and ends as terminated if it was to.
abbrev Keeps : AppJobOp → AppJobOp → Type 0
Keeps op op' =
    Fits op'
    × (op.stopping ≡ true → op'.stopping ≡ true)
    × (op.stopping ≡ true → Terminates op → Terminates op')

Keeps-Same : (op op' : AppJobOp) → Same op op' → Keeps op op'
Keeps-Same op op' (fits, ran, func, stopping, ending, error) = (
  fits,
  λ h. sym stopping ∙ h,
  λ h t.
      sym (ap (λ l. final_error l op'.job_error) ending)
      ∙ sym (ap (final_error op.ending) error)
      ∙ t,
)

run_cleanup-Keeps :
    (f : Option ℕ) (op : AppJobOp)
    → Fits op
    → Fits (run_cleanup f op)
      × (op.stopping ≡ (run_cleanup f op).stopping)
      × (op.ending ≡ (run_cleanup f op).ending)
      × (op.job_error ≡ (run_cleanup f op).job_error)
unfolding run_cleanup
run_cleanup-Keeps none op fits = (fits, refl, refl, refl)
run_cleanup-Keeps (some f) op fits = (fits, refl, refl, refl)

run_cleanup-clears : (f : Option ℕ) (op : AppJobOp) → (run_cleanup f op).cleanup_func ≡ none
unfolding run_cleanup
run_cleanup-clears none op = refl
run_cleanup-clears (some f) op = refl

-- After SetDone on a job that has been stopped.
end_job-Terminates :
    (op : AppJobOp) (err : Option JobError)
    → Fits op
    → op.stopping ≡ true
    → Fits (end_job err op)
      × ((end_job err op).stopping ≡ true)
      × Terminates (end_job err op)
      × ((end_job err op).cleanup_func ≡ none)
      × ((end_job err op).stopped ≡ true)
unfolding end_job end_steps
end_job-Terminates op err fits h =
    let (fits', stopping, ending, error) = run_cleanup-Keeps op.cleanup_func op fits in
    let cleaned = run_cleanup op.cleanup_func op in
    (
      fits',
      sym stopping ∙ h,
      ap (λ b. final_error (cleaned.ending ++ end_steps b err) cleaned.job_error) (sym stopping ∙ h)
          ∙ final_error-snoc cleaned.ending terminated cleaned.job_error,
      run_cleanup-clears op.cleanup_func op,
      refl,
    )

end_job-Keeps : (op : AppJobOp) (err : Option JobError) → Fits op → Keeps op (end_job err op)
unfolding end_job
end_job-Keeps op err fits =
    let (fits', stopping, ending, error) = run_cleanup-Keeps op.cleanup_func op fits in
    (fits', λ h. sym stopping ∙ h, λ h t. (end_job-Terminates op err fits h).2)

stop_job-Keeps :
    (op : AppJobOp)
    → Fits op
    → (op' : AppJobOp) × (stop_job op ≡ some op') × (op'.stopping ≡ true) × Keeps op op'
stop_job-Keeps op fits =
    let (fits', stopping, ending, error) = run_cleanup-Keeps op.cleanup_func op fits in
    let (op', e, stopped, (fits'', ran, func, stopping', ending', error')) =
      stop_job-some op fits' in
    (
      op',
      e,
      stopped,
      (
        fits'',
        λ h. stopped,
        λ h t.
            sym (ap (λ l. final_error l op'.job_error) (ending ∙ ending'))
            ∙ sym (ap (final_error op.ending) (error ∙ error'))
            ∙ t,
      ),
    )

bind_append :
    (o : Option AppJobOp) (f g h : AppJobOp → Option AppJobOp)
    → ((p : AppJobOp) → f p ≡ (g p >>= h))
    → (o >>= f) ≡ ((o >>= g) >>= h)
bind_append none f g h same = refl
bind_append (some p) f g h same = same p

module _ (accepts : List (List Text) → List Text → Bool)
    (takes : (updates : List (List Text)) (lines : List Text) → accepts updates lines ≡ true) where
  -- A step of the end of a job.
  continue_job-Keeps :
      (ending : List EndStep) (op : AppJobOp)
      → op.ending ≡ ending
      → Fits op
      → (op' : AppJobOp) × (continue_job accepts ending op ≡ some op') × Keeps op op'
  unfolding continue_job run_end
  continue_job-Keeps [] op e fits = (op, refl, (fits, λ h. h, λ h t. t))
  continue_job-Keeps (record_end message ∷ ending) op e fits = (
    record op { ending = ending; job_error = some message },
    refl,
    (fits, λ h. h, λ h t. sym (ap (λ l. final_error l op.job_error) e) ∙ t),
  )
  continue_job-Keeps (write lines ∷ ending) op e fits =
      let next = record op { ending = ending } in
      let (op', run, same) = update_op-some accepts takes lines next fits in
      let (fits', stopping, terminates) = Keeps-Same next op' same in
      (
        op',
        run,
        (fits', stopping, λ h t. terminates h (sym (ap (λ l. final_error l op.job_error) e) ∙ t)),
      )

  step-Keeps :
      (op : AppJobOp) (e : Event)
      → Fits op
      → (op' : AppJobOp) × (step accepts op e ≡ some op') × Keeps op op'
  unfolding step
  step-Keeps op (set_cleanup_func f) fits =
      (record op { cleanup_func = f }, refl, (fits, λ h. h, λ h t. t))
  step-Keeps op (update lines) fits =
      let (op', e, same) = update_op-some accepts takes lines op fits in
      (op', e, Keeps-Same op op' same)
  step-Keeps op cleanup fits =
      let (fits', stopping, ending, error) = run_cleanup-Keeps op.cleanup_func op fits in
      let cleaned = run_cleanup op.cleanup_func op in
      (
        cleaned,
        refl,
        (
          fits',
          λ h. sym stopping ∙ h,
          λ h t.
              sym (ap (λ l. final_error l cleaned.job_error) ending)
              ∙ sym (ap (final_error op.ending) error)
              ∙ t,
        ),
      )
  step-Keeps op (set_done err) fits = (end_job err op, refl, end_job-Keeps op err fits)
  step-Keeps op continue_end fits = continue_job-Keeps op.ending op refl fits
  step-Keeps op stop fits = let (op', e, stopped, keeps) = stop_job-Keeps op fits in (op', e, keeps)

  steps-Keeps :
      (op : AppJobOp) (es : List Event)
      → Fits op
      → (op' : AppJobOp) × (steps accepts op es ≡ some op') × Keeps op op'
  unfolding steps
  steps-Keeps op [] fits = (op, refl, (fits, λ h. h, λ h t. t))
  steps-Keeps op (e ∷ es) fits =
      let (t, stepped, (fits_t, keeps, ends)) = step-Keeps op e fits in
      let (op', rest, (fits', keeps', ends')) = steps-Keeps t es fits_t in
      (
        op',
        ap (λ o. o >>= λ p. steps accepts p es) stepped ∙ rest,
        (fits', λ h. keeps' (keeps h), λ h q. ends' (keeps h) (ends h q)),
      )

  steps-append :
      (op : AppJobOp) (es fs : List Event)
      → steps accepts op (es ++ fs) ≡ (steps accepts op es >>= λ p. steps accepts p fs)
  unfolding steps
  steps-append op [] fs = refl
  steps-append op (e ∷ es) fs =
      bind_append (step accepts op e) (λ p. steps accepts p (es ++ fs)) (λ p. steps accepts p es)
        (λ p. steps accepts p fs) (λ p. steps-append p es fs)

  -- The steps that are left can be made.
  ends :
      (ending : List EndStep) (op : AppJobOp)
      → op.ending ≡ ending
      → Fits op
      → (op' : AppJobOp) × (steps accepts op (replicate (length ending) continue_end) ≡ some op')
        × (op'.ending ≡ [])
        × (op'.job_error ≡ final_error ending op.job_error)
  unfolding steps step continue_job run_end
  ends [] op e fits = (op, refl, e, refl)
  ends (record_end message ∷ ending) op e fits =
      let next = record op { ending = ending; job_error = some message } in
      let (op', run, none_left, error) = ends ending next refl fits in
      (
        op',
        ap
              (λ l. continue_job accepts l op >>= λ p.
                steps accepts p (replicate (length ending) continue_end))
              e
            ∙ run,
        none_left,
        error,
      )
  ends (write lines ∷ ending) op e fits =
      let next = record op { ending = ending } in
      let (p, written, (fits_p, ran, func, stopping, ending', error')) =
        update_op-some accepts takes lines next fits in
      let (op', run, none_left, error) = ends ending p (sym ending') fits_p in
      (
        op',
        ap
              (λ l. continue_job accepts l op >>= λ q.
                steps accepts q (replicate (length ending) continue_end))
              e
            ∙ ap (λ o. o >>= λ q. steps accepts q (replicate (length ending) continue_end)) written
            ∙ run,
        none_left,
        error ∙ ap (final_error ending) (sym error'),
      )

  -- If no wrapped job op panics on the lines of an update: once a job has been stopped, then
  -- after SetDone no cleanup function is left and the job counts as stopped; and when, whatever
  -- calls come between, the steps that SetDone makes after it has released the mutex have been
  -- made, the end that is recorded is "terminated by user", with or without an error.
  pub set_done_terminated :
      (before after later : List Event) (err : Option JobError)
      → (op : AppJobOp) × (steps accepts start (before ++ (stop ∷ (after ++ (set_done err ∷ []))))
          ≡ some op)
        × (op.cleanup_func ≡ none)
        × (op.stopped ≡ true)
        × (op' : AppJobOp) × (steps accepts op later ≡ some op')
        × (last : AppJobOp) × (steps accepts op' (replicate (length op'.ending) continue_end)
            ≡ some last)
        × (last.ending ≡ [])
        × (last.job_error ≡ some terminated)
  unfolding steps step
  set_done_terminated before after later err =
      let (p, run_p, (fits_p, keeps_p, ends_p)) = steps-Keeps start before (omega arith) in
      let (q, run_q, stopping, (fits_q, keeps_q, ends_q)) = stop_job-Keeps p fits_p in
      let (r, run_r, (fits_r, keeps_r, ends_r)) = steps-Keeps q after fits_q in
      let (fits, still, terminates, func, stopped) =
        end_job-Terminates r err fits_r (keeps_r stopping) in
      let (op', run_op, (fits', keeps', ends')) = steps-Keeps (end_job err r) later fits in
      let (last, run_last, none_left, error) = ends op'.ending op' refl fits' in
      (
        end_job err r,
        steps-append start before (stop ∷ (after ++ (set_done err ∷ [])))
            ∙ ap (λ o. o >>= λ s. steps accepts s (stop ∷ (after ++ (set_done err ∷ [])))) run_p
            ∙ ap (λ o. o >>= λ s. steps accepts s (after ++ (set_done err ∷ []))) run_q
            ∙ steps-append q after (set_done err ∷ [])
            ∙ ap (λ o. o >>= λ s. steps accepts s (set_done err ∷ [])) run_r,
        func,
        stopped,
        op',
        run_op,
        last,
        run_last,
        none_left,
        error ∙ ends' still terminates,
      )
