-- ===== src/Worker/Tests.antt =====
-- The functions of app/worker.c on small runs, and the theorems at concrete inputs.
use graceful_music.Common.{◌+◌, ◌≡◌, refl, true, false, none, some, [], ◌∷◌}
use graceful_music.Worker.{
  worker_running, worker_stopped, Job, Worker, leaves, starts, turn, take_job, finish,
  worker_set_state, worker_add_job, remove_loop, current_matches, worker_remove_jobs_by_cb,
  worker_remove_jobs_by_type, worker_matches_type, shares_bit,
}
use graceful_music.Worker.Trace.{
  Log, Step, Reach, here, next, initial, count, count_current, Reach-IsKept,
}
use graceful_music.Worker.Order.{IsInOrder, Reach-IsInOrder}
use graceful_music.Worker.Remove.{still, further, remove-wait}

-- Jobs of the types JOB_TYPE_LIB | JOB_TYPE_ADD and JOB_TYPE_PL | JOB_TYPE_UPDATE of app/job.h.
abbrev lib_job : Job
lib_job = record { type = 65537; data_id = 1 }

abbrev pl_job : Job
pl_job = record { type = 131074; data_id = 2 }

abbrev both : Worker
both = record {
  jobs = lib_job ∷ pl_job ∷ [];
  state = worker_running;
  cancel_current = false;
  cur_job = none;
}

abbrev first_runs : Worker
first_runs = record both { jobs = pl_job ∷ []; cur_job = some lib_job }

take_first : turn both ≡ starts lib_job first_runs
unfolding turn take_job
take_first = refl

stop_leaves : turn (worker_set_state worker_stopped both) ≡ leaves
unfolding turn worker_set_state
stop_leaves = refl

by_type :
    worker_remove_jobs_by_type 131072 first_runs ≡ (pl_job ∷ [], record first_runs { jobs = [] })
unfolding worker_remove_jobs_by_type worker_remove_jobs_by_cb remove_loop worker_matches_type
    shares_bit current_matches
by_type = refl

-- One job is added, started and cancelled.
abbrev at_start : Log
at_start = record initial { worker = record (initial.worker) { state = worker_running } }

abbrev one_added : Log
one_added = record at_start {
  worker = record (at_start.worker) { jobs = lib_job ∷ [] };
  added = lib_job ∷ [];
}

abbrev one_runs : Log
one_runs = record one_added {
  worker = record (one_added.worker) { jobs = []; cur_job = some lib_job };
  started = lib_job ∷ [];
}

abbrev one_cancelled : Log
one_cancelled = record one_runs { worker = record (one_runs.worker) { cancel_current = true } }

abbrev one_ended : Log
one_ended = record one_runs {
  worker = record (one_runs.worker) { cur_job = none };
  freed = lib_job ∷ [];
}

started_one : Reach initial one_runs
unfolding worker_set_state worker_add_job turn take_job
started_one =
    next (next (next here (Step.sets worker_running refl)) (Step.adds lib_job refl))
      (Step.takes lib_job (one_runs.worker) refl refl refl)

cancelled_one : Reach initial one_cancelled
unfolding worker_remove_jobs_by_cb remove_loop current_matches
cancelled_one = next started_one (Step.removes (λ _. true) refl)

end_Step : Step one_cancelled one_ended
unfolding finish
end_Step = Step.ends lib_job (one_ended.worker) refl refl

Reach-IsKept_example :
    count (λ _. true) one_cancelled.added
    ≡ count (λ _. true) one_cancelled.freed
      + count_current (λ _. true) one_cancelled.worker.cur_job
      + count (λ _. true) one_cancelled.worker.jobs
Reach-IsKept_example = Reach-IsKept (λ _. true) cancelled_one

Reach-IsInOrder_example : IsInOrder one_cancelled
Reach-IsInOrder_example = Reach-IsInOrder cancelled_one

remove-wait_example :
    (count (λ _. true) one_ended.worker.jobs ≡ 0)
    × (current_matches (λ _. true) one_ended.worker ≡ false)
unfolding worker_remove_jobs_by_cb remove_loop current_matches end_Step
remove-wait_example =
    remove-wait (λ _. true) (one_runs.worker) one_cancelled refl (further still end_Step tt) refl
