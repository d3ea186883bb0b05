-- ===== src/Worker/Trace.antt =====
-- The worker of app/worker.c with what happened to each job: every interleaving of its thread and of
-- the calls from the others.
use graceful_music.Common.{
  ℕ, ◌+◌, ◌≡◌, refl, Bool, false, Option, none, some, List, [], ◌∷◌, ◌++◌, arith, if◌then◌else◌,
}
use graceful_music.Worker.{
  WorkerState, worker_paused, Job, Worker, starts, take_job, turn, finish, worker_set_state,
  worker_add_job, remove_loop, worker_remove_jobs_by_cb,
}

-- The jobs that were added, in their order, those that were started, and those that were freed.
pub record Log : Type 0 where
  pub worker : Worker
  pub added : List Job
  pub started : List Job
  pub freed : List Job

pub data Step (s t : Log) : Type 0 where
  adds :
      (j : Job)
      → t ≡ record s { worker = worker_add_job j s.worker; added = s.added ++ j ∷ [] }
      → Step s t
  removes :
      (cb : Job → Bool)
      → t ≡ record s {
        worker = (worker_remove_jobs_by_cb cb s.worker).1;
        freed = s.freed ++ (worker_remove_jobs_by_cb cb s.worker).0;
      }
      → Step s t
  sets : (st : WorkerState) → t ≡ record s { worker = worker_set_state st s.worker } → Step s t
  -- The thread takes the lock again only behind the job that it runs.
  takes :
      (j : Job) (w : Worker)
      → s.worker.cur_job ≡ none
      → turn s.worker ≡ starts j w
      → t ≡ record s { worker = w; started = s.started ++ j ∷ [] }
      → Step s t
  ends :
      (j : Job) (w : Worker)
      → finish s.worker ≡ some (j, w)
      → t ≡ record s { worker = w; freed = s.freed ++ j ∷ [] }
      → Step s t

pub data Reach (s : Log) : Log → Type 0 where
  here : Reach s s
  next : {t u : Log} → Reach s t → Step t u → Reach s u

-- The static variables as they are initialised, before `worker_init`.
abbrev pub initial : Log
initial = record {
  worker = record { jobs = []; state = worker_paused; cancel_current = false; cur_job = none };
  added = [];
  started = [];
  freed = [];
}

-- How many jobs of a list `p` is true of.
unfoldable pub count : (Job → Bool) → List Job → ℕ
count p [] = 0
count p (j ∷ js) = (if p j then 1 else 0) + count p js

-- The same for the current job.
unfoldable pub count_current : (Job → Bool) → Option Job → ℕ
count_current p none = 0
count_current p (some j) = if p j then 1 else 0

pub count-append : (p : Job → Bool) (l m : List Job) → count p (l ++ m) ≡ count p l + count p m
unfolding count
count-append p [] m = omega arith
count-append p (j ∷ js) m = omega (arith, count-append p js m)

count-remove_loop :
    (p cb : Job → Bool) (l : List Job)
    → count p l ≡ count p (remove_loop cb l).0 + count p (remove_loop cb l).1
unfolding count remove_loop
count-remove_loop p cb [] = refl
count-remove_loop p cb (j ∷ js) = ground (arith, count-remove_loop p cb js)

-- The number of jobs of any kind that were added is that of those freed, running and waiting.
abbrev pub IsKept : (Job → Bool) → Log → Type 0
IsKept p s =
    count p s.added ≡ count p s.freed + count_current p s.worker.cur_job + count p s.worker.jobs

-- What a job that is taken leaves.
pub turn-starts :
    (w : Worker) {w' : Worker} {j : Job}
    → turn w ≡ starts j w'
    → (w.jobs ≡ j ∷ w'.jobs)
      × (w'.cur_job ≡ some j)
      × (w'.state ≡ w.state)
      × (w'.cancel_current ≡ w.cancel_current)
unfolding turn take_job
turn-starts w e = ground arith

-- What the end of a job leaves.
pub finish-some :
    (w : Worker) {w' : Worker} {j : Job}
    → finish w ≡ some (j, w')
    → (w.cur_job ≡ some j) × (w' ≡ record w { cur_job = none; cancel_current = false })
unfolding finish
finish-some w e = ground arith

Step-IsKept : (p : Job → Bool) {s t : Log} → Step s t → IsKept p s → IsKept p t
unfolding worker_add_job worker_remove_jobs_by_cb worker_set_state count count_current
Step-IsKept p {s} (Step.adds j e) h =
    rw e (omega (arith, count-append p s.added (j ∷ []), count-append p s.worker.jobs (j ∷ [])))
Step-IsKept p {s} (Step.removes cb e) h = rw e (
    omega (
      arith,
      count-append p s.freed (remove_loop cb s.worker.jobs).1,
      count-remove_loop p cb s.worker.jobs,
    ))
Step-IsKept p (Step.sets st e) h = rw e h
Step-IsKept p {s} (Step.takes j w i e e') h =
    let (jobs, cur, _, _) = turn-starts s.worker e in
    rw (e', cur)
      (let h' : count p s.added ≡ count p s.freed + 0 + count p (j ∷ w.jobs) = rw (i, jobs) at h in
        omega (arith, h'))
Step-IsKept p {s} (Step.ends j w e e') h =
    let (cur, after) = finish-some s.worker e in
    rw (e', after)
      (let h' : count p s.added
            ≡ count p s.freed + count_current p (some j) + count p s.worker.jobs =
          rw cur at h in
        omega (arith, h', count-append p s.freed (j ∷ [])))

-- No job is lost and none is freed twice: however the steps of the threads follow each other, of the
-- jobs added so far that a test is true of, as many are freed, running or waiting.
pub Reach-IsKept : (p : Job → Bool) {t : Log} → Reach initial t → IsKept p t
unfolding count count_current
Reach-IsKept p here = refl
Reach-IsKept p (next r s) = Step-IsKept p s (Reach-IsKept p r)
