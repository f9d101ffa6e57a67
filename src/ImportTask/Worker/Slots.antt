-- ===== src/ImportTask/Worker/Slots.antt =====
-- The slots of the worker: at most as many jobs at once as the queue allows, whatever happens.
use openviking_admin.Prelude.{
  ℕ, zero, suc, ◌≤◌, ◌≡◌, refl, inl, inr, Bool, true, false, ◌||◌, Option, none, some, List, [],
  ◌∷◌, arith, if◌then◌else◌, Bool-cases, length, length-append, ltb, leb,
}
use openviking_admin.ImportTask.{ImportTask}
use openviking_admin.ImportTask.Worker.{
  Phase, Job, WorkerState, global_max_concurrency, Event, polls, reads, read_fails, goes_on, marks,
  imports, breaks, vanishes, requests, is_working, handle, run, poll, finish_poll, start_task,
  start_tasks, pending_tasks, job_at, without_job, with_working, end_job,
}

-- `currentConcurrency` counts the jobs, and stays within the limit.
pub record HasSlots (w : WorkerState) : Type 0 where
  pub counted : w.current_concurrency ≡ length w.jobs
  pub bounded : w.current_concurrency ≤ global_max_concurrency

start_tasks-HasSlots :
    (tasks : List ImportTask) (w : WorkerState) → HasSlots w → HasSlots (start_tasks tasks w)
unfolding start_tasks
start_tasks-HasSlots [] w h = h
start_tasks-HasSlots (task ∷ tasks) w h =
    elim (Bool-cases (ltb w.current_concurrency global_max_concurrency)) [
      | inl free ↦ rw free (
          start_tasks-HasSlots tasks (start_task task w) (record {
            counted = omega (
              arith,
              h.counted,
              length-append w.jobs (record { task = task; phase = Phase.found } ∷ []),
            );
            bounded = ground (arith, free);
          }))
      | inr full ↦ rw full (start_tasks-HasSlots tasks w h)
    ]

length-without_job :
    (n : ℕ) (job : Job) (jobs : List Job)
    → job_at n jobs ≡ some job
    → length jobs ≡ suc (length (without_job n jobs))
length-without_job n job [] h = absurd (cc)
length-without_job zero job (x ∷ jobs) h = refl
length-without_job (suc n) job (x ∷ jobs) h = omega (arith, length-without_job n job jobs h)

length-with_working : (n : ℕ) (jobs : List Job) → length (with_working n jobs) ≡ length jobs
length-with_working n [] = refl
length-with_working zero (x ∷ jobs) = refl
length-with_working (suc n) (x ∷ jobs) = omega (arith, length-with_working n jobs)

end_job-HasSlots :
    (n : ℕ) (change : ImportTask → ImportTask) (job : Job) (w : WorkerState)
    → job_at n w.jobs ≡ some job
    → HasSlots w
    → HasSlots (end_job n change job w)
end_job-HasSlots n change job w at_n h = record {
  counted = omega (arith, h.counted, length-without_job n job w.jobs at_n);
  bounded = omega (arith, h.bounded);
}

if-HasSlots :
    (b : Bool) (v w : WorkerState) → HasSlots v → HasSlots w → HasSlots (if b then v else w)
if-HasSlots true v w h k = h
if-HasSlots false v w h k = k

job-HasSlots :
    (n : ℕ) (w : WorkerState) (next : Job → WorkerState) (o : Option Job)
    → job_at n w.jobs ≡ o
    → HasSlots w
    → ((job : Job) → job_at n w.jobs ≡ some job → HasSlots (next job))
    → HasSlots (elim o as (λ _. WorkerState) [ none ↦ w | some job ↦ next job ])
job-HasSlots n w next none e h each = h
job-HasSlots n w next (some job) e h each = each job e

started-HasSlots :
    (w : WorkerState) (o : Option (List ImportTask))
    → HasSlots w
    → HasSlots (elim o as (λ _. WorkerState) [
      | none ↦ w
      | some tasks ↦ record (start_tasks (pending_tasks tasks w.current_concurrency) w) {
        is_polling = false;
        read = none;
      }
    ])
started-HasSlots w none h = h
started-HasSlots w (some tasks) h =
    let done = start_tasks-HasSlots (pending_tasks tasks w.current_concurrency) w h in
    record { counted = done.counted; bounded = done.bounded }

finish_poll-HasSlots : (w : WorkerState) → HasSlots w → HasSlots (finish_poll w)
unfolding finish_poll
finish_poll-HasSlots w h = started-HasSlots w w.read h

handle-HasSlots : (event : Event) (w : WorkerState) → HasSlots w → HasSlots (handle event w)
unfolding handle poll
handle-HasSlots polls w h =
    if-HasSlots (w.is_polling || leb global_max_concurrency w.current_concurrency) w _ h
      (record { counted = h.counted; bounded = h.bounded })
handle-HasSlots (reads tenants) w h =
    if-HasSlots w.is_polling _ w (record { counted = h.counted; bounded = h.bounded }) h
handle-HasSlots read_fails w h =
    if-HasSlots w.is_polling _ w (record { counted = h.counted; bounded = h.bounded }) h
handle-HasSlots goes_on w h = finish_poll-HasSlots w h
handle-HasSlots (marks n now) w h = job-HasSlots n w _ (job_at n w.jobs) refl h (λ job e. record {
  counted = omega (arith, h.counted, length-with_working n w.jobs);
  bounded = h.bounded;
})
handle-HasSlots (imports n now stats) w h =
    job-HasSlots n w _ (job_at n w.jobs) refl h
      (λ job e. if-HasSlots (is_working job.phase) _ w (end_job-HasSlots n _ job w e h) h)
handle-HasSlots (breaks n now message) w h =
    job-HasSlots n w _ (job_at n w.jobs) refl h (λ job e. end_job-HasSlots n _ job w e h)
handle-HasSlots (vanishes n) w h =
    job-HasSlots n w _ (job_at n w.jobs) refl h (λ job e. end_job-HasSlots n _ job w e h)
handle-HasSlots (requests change) w h = record { counted = h.counted; bounded = h.bounded }

-- Whatever polls, jobs and requests interleave, the counter is the number of jobs that run, and it
-- never exceeds the limit of the queue.
pub run-HasSlots : (events : List Event) (w : WorkerState) → HasSlots w → HasSlots (run events w)
run-HasSlots [] w h = h
run-HasSlots (event ∷ events) w h = run-HasSlots events (handle event w) (handle-HasSlots event w h)
