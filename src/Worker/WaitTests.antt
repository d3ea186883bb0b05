-- ===== src/Worker/WaitTests.antt =====
-- A caller that waits for a job of app/worker.c, and two of them.
use graceful_music.Common.{◌≡◌, refl, true, false, none, some, [], ◌∷◌, inr, arith}
use graceful_music.Worker.{
  worker_running, Job, Worker, turn, take_job, finish, finish_signals, worker_set_state,
  worker_add_job, remove_loop, current_matches, worker_remove_jobs_by_cb,
}
use graceful_music.Worker.Wait.{
  State, Step, to_nobody, to_caller, sent, Reach, here, next, initial, Reach-wakes,
}

abbrev job : Job
job = record { type = 65537; data_id = 1 }

abbrev running : State
running = record initial {
  worker = record (initial.worker) { state = worker_running; cur_job = some job };
}

-- The callers wait while the job runs.
abbrev waiting : State
waiting = record running {
  worker = record (running.worker) { cancel_current = true };
  asleep = record { callers = 1; woken = 0; thread = false };
}

abbrev two_waiting : State
two_waiting = record waiting { asleep = record { callers = 2; woken = 0; thread = false } }

abbrev started : State
started = record initial { worker = record (initial.worker) { state = worker_running } }

abbrev added : State
added = record started { worker = record (started.worker) { jobs = job ∷ [] } }

starts_it : Reach initial started
unfolding worker_set_state
starts_it = next here (Step.sets worker_running refl (to_nobody refl refl refl)) tt

adds_it : Reach initial added
unfolding worker_add_job
adds_it = next starts_it (Step.adds job refl (to_nobody refl refl refl)) tt

runs_it : Reach initial running
unfolding turn take_job
runs_it = next adds_it (Step.takes job refl refl refl refl) tt

waits : Reach initial waiting
unfolding worker_remove_jobs_by_cb remove_loop current_matches
waits = next runs_it (Step.removes (λ _. true) refl refl) (inr refl)

Reach-wakes_example :
    (waiting.worker.cancel_current ≡ true)
    × (j : Job) × (w : Worker) × (finish waiting.worker ≡ some (j, w))
Reach-wakes_example = Reach-wakes waits (omega arith)

-- The end of a job for which two callers wait wakes one; the other sleeps on, with `cancel_current` clear.
lost_wake_up : Step two_waiting (record running {
  worker = record (running.worker) { cur_job = none };
  asleep = record { callers = 1; woken = 1; thread = false };
})
unfolding finish finish_signals
lost_wake_up = Step.ends job refl (sent refl (to_caller 1 refl refl))
