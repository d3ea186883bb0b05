-- ===== src/Worker.antt =====
-- The worker of app/worker.c: a queue of jobs, the thread that runs them, and the calls that wait for
-- it. The functions hold `worker_mutex`, but the thread gives it back while a job runs, so the body of
-- its loop is two steps: `turn` up to the call of `job_cb`, and `finish` behind it.
pub mod Trace
pub mod Order
pub mod Remove
pub mod Query
pub mod Wait
mod Tests
mod WaitTests
use graceful_music.Common.{
  ℕ, zero, suc, ◌+◌, ◌-◌, ◌*◌, ◌/◌, ◌%◌, ◌^◌, ◌≤◌, ◌<◌, min, max, ◌≡◌, refl, sym, ap, ◌∙◌, subst,
  fun_ext, ◌≢◌, ◌↔◌, ◌⊎◌, inl, inr, Bool, true, false, ◌&&◌, ◌||◌, not, Option, none, some, List,
  [], ◌∷◌, ◌++◌, map, append-nil, append_assoc, arith, ltb, leb, ◌==◌, if◌then◌else◌, ltb→lt,
  lt→ltb, ltb→ge, leb→le, ==_iff, ==_refl, Bool-cases, Option-cases, length, get_elem?, get_or,
  take, drop, replicate, length-append, take-append-drop, length-take, length-drop,
  length-replicate, take-all, drop-drop, take-nil, drop-nil, beq_of_ne, ltb_of_ge, if_same,
  some_inj,
}

-- `enum worker_state`
pub data WorkerState : Type 0 where
  worker_paused worker_running worker_stopped : WorkerState

-- `struct worker_job`, with `data` as a number; `free_cb(data)` is that the job is among those freed.
pub record Job : Type 0 where
  pub type : ℕ
  pub data_id : ℕ

-- The static variables: the list `worker_job_head`, `state`, `cancel_current` and `cur_job`.
pub record Worker : Type 0 where
  pub jobs : List Job
  pub state : WorkerState
  pub cancel_current : Bool
  pub cur_job : Option Job

-- What the loop of `worker_loop` does when it holds the lock: it ends, waits for a signal, or takes
-- the first job.
pub data Turn : Type 0 where
  leaves sleeps : Turn
  starts : Job → Worker → Turn

-- The branch of `worker_loop` in which a job may be there.
unfoldable pub take_job : Worker → List Job → Turn
take_job w [] = sleeps
take_job w (j ∷ js) = starts j (record w { jobs = js; cur_job = some j })

-- The body of the loop of `worker_loop` up to the call of `job_cb`.
unfoldable pub turn : Worker → Turn
turn w = elim w.state [
  | worker_running ↦ take_job w w.jobs
  | worker_stopped ↦ leaves
  | worker_paused ↦ sleeps
]

-- The rest of it, behind the call of `job_cb`, with the job that is freed. Without a current job this
-- would follow a null pointer.
unfoldable pub finish : Worker → Option (Job × Worker)
finish w = elim w.cur_job [
  | none ↦ none
  | some j ↦ some (j, record w { cur_job = none; cancel_current = false })
]

-- Whether that part of the loop calls pthread_cond_signal.
unfoldable pub finish_signals : Worker → Bool
finish_signals w = w.cancel_current

-- `worker_set_state`
unfoldable pub worker_set_state : WorkerState → Worker → Worker
worker_set_state st w = record w { state = st }

-- `worker_add_job`
unfoldable pub worker_add_job : Job → Worker → Worker
worker_add_job j w = record w { jobs = w.jobs ++ j ∷ [] }

-- The loop of `worker_remove_jobs_by_cb`, with the jobs that stay and those that are freed.
unfoldable pub remove_loop : (Job → Bool) → List Job → List Job × List Job
remove_loop cb [] = ([], [])
remove_loop cb (j ∷ js) =
    let rest = remove_loop cb js in if cb j then (rest.0, j ∷ rest.1) else (j ∷ rest.0, rest.1)

-- Whether there is a current job of which `cb` is true.
unfoldable pub current_matches : (Job → Bool) → Worker → Bool
current_matches cb w = elim w.cur_job [ none ↦ false | some j ↦ cb j ]

-- `worker_remove_jobs_by_cb` up to its wait, with the jobs that it freed. It returns once
-- `cancel_current` is 0. `cb` stands for the callback together with `opaque`.
unfoldable pub worker_remove_jobs_by_cb : (Job → Bool) → Worker → List Job × Worker
worker_remove_jobs_by_cb cb w =
    let r = remove_loop cb w.jobs in
    (
      r.1,
      record w {
        jobs = r.0;
        cancel_current = if current_matches cb w then true else w.cancel_current;
      },
    )

-- `type & pat` is not 0, for the lowest `bits` bits.
unfoldable pub shares_bit : (bits : ℕ) → ℕ → ℕ → Bool
shares_bit zero type pat = false
shares_bit (suc bits) type pat =
    (type % 2 == 1 && pat % 2 == 1) || shares_bit bits (type / 2) (pat / 2)

-- `worker_matches_type`, of two `uint32_t`
unfoldable pub worker_matches_type : ℕ → Job → Bool
worker_matches_type pat j = shares_bit 32 j.type pat

-- JOB_TYPE_ANY of app/worker.h, as a `uint32_t`
abbrev pub job_type_any : ℕ
job_type_any = 4294967295

-- `worker_remove_jobs_by_type`
unfoldable pub worker_remove_jobs_by_type : ℕ → Worker → List Job × Worker
worker_remove_jobs_by_type pat = worker_remove_jobs_by_cb (worker_matches_type pat)

-- The loop of `worker_has_job_by_cb`, with `has_job` and the job that `job` leads to behind it. When
-- the loop ends at the head of the list, `job` is what lies around the head: `stray`.
unfoldable pub has_loop : (Job → Bool) → Job → List Job → Bool × Job
has_loop cb stray [] = (false, stray)
has_loop cb stray (j ∷ js) = let rest = has_loop cb stray js in if cb j then (true, j) else rest

-- `worker_has_job_by_cb`: the test behind the loop asks `cb` about `job`.
unfoldable pub worker_has_job_by_cb : (Job → Bool) → Job → Worker → Bool
worker_has_job_by_cb cb stray w =
    let r = has_loop cb stray w.jobs in
    elim w.cur_job [ none ↦ r.0 | some j ↦ if cb r.1 then true else r.0 ]

-- `worker_cancelling`
unfoldable pub worker_cancelling : Worker → Bool
worker_cancelling w = w.cancel_current
