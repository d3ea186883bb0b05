-- ===== src/Worker/Query.antt =====
-- The two questions that app/worker.c answers about its jobs, and the types of jobs.
use graceful_music.Common.{
  ℕ, zero, suc, ◌+◌, ◌*◌, ◌/◌, ◌%◌, ◌≤◌, ◌<◌, ◌≡◌, refl, inl, inr, Bool, true, false, ◌&&◌, ◌||◌,
  not, Option, none, some, List, [], ◌∷◌, arith, ltb, leb, ◌==◌, Bool-cases, Option-cases,
}
use graceful_music.Worker.{
  job_type_any, Job, Worker, has_loop, worker_has_job_by_cb, worker_matches_type,
  worker_remove_jobs_by_type, worker_remove_jobs_by_cb, shares_bit, remove_loop, current_matches,
}
use graceful_music.Worker.Trace.{count}

-- Whether there is a current job.
abbrev pub runs : Option Job → Bool
runs none = false
runs (some j) = true

has_loop_lem :
    (cb : Job → Bool) (stray : Job) (l : List Job)
    → ((has_loop cb stray l).0 ≡ ltb 0 (count cb l))
      × (cb (has_loop cb stray l).1 ≡ (ltb 0 (count cb l) || cb stray))
unfolding has_loop count
has_loop_lem cb stray [] = (refl, refl)
has_loop_lem cb stray (j ∷ js) =
    let (has, last) = has_loop_lem cb stray js in (ground (arith, has), ground (arith, last))

-- `worker_has_job_by_cb` with no matching job in the queue: while a job runs, the answer is whether
-- `cb` is true of what lies around the head of the list, whatever job runs.
pub has_job-stray :
    (cb : Job → Bool) (stray : Job) (w : Worker)
    → worker_has_job_by_cb cb stray w ≡ (ltb 0 (count cb w.jobs) || (runs w.cur_job && cb stray))
unfolding worker_has_job_by_cb
has_job-stray cb stray w = ground (arith, has_loop_lem cb stray w.jobs)

-- The number with the lowest `bits` bits set.
abbrev ones : ℕ → ℕ
ones zero = 0
ones (suc bits) = 2 * ones bits + 1

-- A number that is not 0 has one of its lowest bits set.
shares_bit-ones :
    (bits type : ℕ) → 0 < type → type ≤ ones bits → shares_bit bits type (ones bits) ≡ true
unfolding shares_bit
shares_bit-ones zero type pos h = absurd (omega arith)
shares_bit-ones (suc bits) type pos h =
    let half : (2 * ones bits + 1) / 2 ≡ ones bits = omega arith in
    let odd : (2 * ones bits + 1) % 2 ≡ 1 = omega arith in
    elim (Bool-cases (type % 2 == 1)) [
      | inl t ↦ rw (odd, t) refl
      | inr f ↦
          let more : 0 < type / 2 = ground arith in
          rw (f, half) (shares_bit-ones bits (type / 2) more (omega arith))
    ]

-- A job has a type from 1 on that fits 32 bits.
abbrev pub is_typed : Job → Bool
is_typed j = ltb 0 j.type && leb j.type 4294967295

typed-matches : (j : Job) → is_typed j ≡ true → worker_matches_type 4294967295 j ≡ true
unfolding worker_matches_type
typed-matches j h = shares_bit-ones 32 j.type (ground arith) (ground arith)

remove_all :
    (cb : Job → Bool) (l : List Job)
    → ((j : Job) → is_typed j ≡ true → cb j ≡ true)
    → count (λ j. not (is_typed j)) l ≡ 0
    → remove_loop cb l ≡ ([], l)
unfolding remove_loop count
remove_all cb [] m h = refl
remove_all cb (j ∷ js) m h =
    let typed : is_typed j ≡ true = ground arith in
    let rest = remove_all cb js m (ground arith) in rw (m j typed, rest) refl

-- `worker_remove_jobs_by_type` with JOB_TYPE_ANY, if every job that waits or runs has a type: it frees
-- all that wait, and there is one to wait for just if one runs or was to be waited for already.
pub remove_any :
    (w : Worker)
    → count (λ j. not (is_typed j)) w.jobs ≡ 0
    → current_matches (λ j. not (is_typed j)) w ≡ false
    → ((worker_remove_jobs_by_type job_type_any w).0 ≡ w.jobs)
      × ((worker_remove_jobs_by_type job_type_any w).1.jobs ≡ [])
      × ((worker_remove_jobs_by_type job_type_any w).1.cancel_current
          ≡ (runs w.cur_job || w.cancel_current))
unfolding worker_remove_jobs_by_type worker_remove_jobs_by_cb current_matches
remove_any w h h' =
    let all = remove_all (worker_matches_type 4294967295) w.jobs typed-matches h in
    (
      rw all refl,
      rw all refl,
      elim (Option-cases w.cur_job) [
        | inl n ↦ rw n refl
        | inr (j, e) ↦
            let untyped : not (is_typed j) ≡ false = rw e at h' in
            rw (e, typed-matches j (ground arith)) refl
      ],
    )
