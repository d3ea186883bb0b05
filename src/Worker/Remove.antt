-- ===== src/Worker/Remove.antt =====
-- `worker_remove_jobs_by_cb` of app/worker.c, whose callers wait for the job that runs.
use graceful_music.Common.{◌≤◌, ◌≡◌, refl, Bool, true, false, List, [], ◌∷◌, arith}
use graceful_music.Worker.{
  Job, Worker, worker_set_state, worker_add_job, remove_loop, current_matches,
  worker_remove_jobs_by_cb,
}
use graceful_music.Worker.Trace.{Log, Step, turn-starts, finish-some, count, count-append}

-- No job is left that `cb` is true of, except the current one, and then it is to be waited for.
pub record IsLeaving (cb : Job → Bool) (w : Worker) : Type 0 where
  pub queued : count cb w.jobs ≡ 0
  pub current : current_matches cb w ≡ true → w.cancel_current ≡ true

-- A step that does not add a job that `cb` is true of.
abbrev pub IsQuiet : (Job → Bool) → {s t : Log} → Step s t → Type 0
IsQuiet cb (Step.adds j e) = cb j ≡ false
IsQuiet cb _ = Unit

-- Steps of that kind, in any number.
pub data Quietly (cb : Job → Bool) (s : Log) : Log → Type 0 where
  still : Quietly cb s s
  further : {t u : Log} → Quietly cb s t → (x : Step t u) → IsQuiet cb x → Quietly cb s u

count-stays : (cb : Job → Bool) (l : List Job) → count cb (remove_loop cb l).0 ≡ 0
unfolding count remove_loop
count-stays cb [] = refl
count-stays cb (j ∷ js) = ground (arith, count-stays cb js)

-- A removal takes from the waiting jobs, of whatever kind.
count-less : (p cb : Job → Bool) (l : List Job) → count p (remove_loop cb l).0 ≤ count p l
unfolding count remove_loop
count-less p cb [] = omega arith
count-less p cb (j ∷ js) = ground (arith, count-less p cb js)

remove-IsLeaving : (cb : Job → Bool) (w : Worker) → IsLeaving cb (worker_remove_jobs_by_cb cb w).1
unfolding worker_remove_jobs_by_cb current_matches
remove-IsLeaving cb w = record { queued = count-stays cb w.jobs; current = λ h. ground arith }

Step-IsLeaving :
    (cb : Job → Bool) {s t : Log} (x : Step s t)
    → IsQuiet cb x
    → IsLeaving cb s.worker
    → IsLeaving cb t.worker
unfolding worker_add_job worker_remove_jobs_by_cb worker_set_state current_matches count
Step-IsLeaving cb {s} (Step.adds j e) q h =
    let no : cb j ≡ false = q in
    rw e (record {
      queued = ground (arith, count-append cb s.worker.jobs (j ∷ []), h.queued, no);
      current = h.current;
    })
Step-IsLeaving cb {s} (Step.removes cb' e) q h = rw e (record {
  queued = omega (arith, count-less cb cb' s.worker.jobs, h.queued);
  current = λ m. ground (arith, h.current);
})
Step-IsLeaving cb (Step.sets st e) q h = rw e (record { queued = h.queued; current = h.current })
Step-IsLeaving cb {s} (Step.takes j w i e e') q h =
    let (jobs, cur, _, _) = turn-starts s.worker e in
    let queued : count cb (j ∷ w.jobs) ≡ 0 = rw jobs at h.queued in
    rw e' (record { queued = omega (arith, queued); current = λ m. ground arith })
Step-IsLeaving cb {s} (Step.ends j w e e') q h =
    let (_, after) = finish-some s.worker e in
    rw (e', after) (record { queued = h.queued; current = λ m. absurd (cc) })

Quietly-IsLeaving :
    (cb : Job → Bool) {s t : Log} → Quietly cb s t → IsLeaving cb s.worker → IsLeaving cb t.worker
Quietly-IsLeaving cb still h = h
Quietly-IsLeaving cb (further r x q) h = Step-IsLeaving cb x q (Quietly-IsLeaving cb r h)

-- `worker_remove_jobs_by_cb` does what it is for: when its wait ends, that is `cancel_current` is 0
-- after any steps of the threads behind its first part, no job that `cb` is true of waits or runs,
-- unless one was added meanwhile.
pub remove-wait :
    (cb : Job → Bool) (w : Worker) (s : Log) {t : Log}
    → s.worker ≡ (worker_remove_jobs_by_cb cb w).1
    → Quietly cb s t
    → t.worker.cancel_current ≡ false
    → (count cb t.worker.jobs ≡ 0) × (current_matches cb t.worker ≡ false)
remove-wait cb w s {t} e r ended =
    let v = Quietly-IsLeaving cb r (rw e (remove-IsLeaving cb w)) in
    (v.queued, ground (arith, v.current))
