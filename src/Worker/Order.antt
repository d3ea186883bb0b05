-- ===== src/Worker/Order.antt =====
-- The order in which the worker of app/worker.c runs the jobs.
use graceful_music.Common.{refl, sym, inl, inr, Bool, List, [], ◌∷◌, ◌++◌, append_assoc, Bool-cases}
use mathlib.Core.List.Sublistᴰ
use mathlib.Core.List.{Sublistᴰ}
use graceful_music.Worker.{
  Job, worker_set_state, worker_add_job, remove_loop, worker_remove_jobs_by_cb,
}
use graceful_music.Worker.Trace.{Log, Step, Reach, here, next, initial, turn-starts, finish-some}

-- Those that stay are among the old ones, in their order.
Sublistᴰ-remove_loop : (cb : Job → Bool) (l : List Job) → Sublistᴰ (remove_loop cb l).0 l
unfolding remove_loop
Sublistᴰ-remove_loop cb [] = Sublistᴰ.slnil
Sublistᴰ-remove_loop cb (j ∷ js) = elim (Bool-cases (cb j)) [
  | inl t ↦ rw t (Sublistᴰ.cons (Sublistᴰ-remove_loop cb js))
  | inr f ↦ rw f (Sublistᴰ.cons-cons refl (Sublistᴰ-remove_loop cb js))
]

abbrev pub IsInOrder : Log → Type 0
IsInOrder s = Sublistᴰ (s.started ++ s.worker.jobs) s.added

Step-IsInOrder : {s t : Log} → Step s t → IsInOrder s → IsInOrder t
unfolding worker_add_job worker_remove_jobs_by_cb worker_set_state
Step-IsInOrder {s} (Step.adds j e) h =
    rw (e, sym (append_assoc s.started s.worker.jobs (j ∷ [])))
      (Sublistᴰ.append h (Sublistᴰ.refl (j ∷ [])))
Step-IsInOrder {s} (Step.removes cb e) h = rw e (
    Sublistᴰ.trans
      (Sublistᴰ.append (Sublistᴰ.refl s.started) (Sublistᴰ-remove_loop cb s.worker.jobs)) h)
Step-IsInOrder (Step.sets st e) h = rw e h
Step-IsInOrder {s} (Step.takes j w i e e') h =
    let (jobs, _, _, _) = turn-starts s.worker e in
    rw (e', append_assoc s.started (j ∷ []) w.jobs) (rw jobs at h)
Step-IsInOrder {s} (Step.ends j w e e') h =
    let (_, after) = finish-some s.worker e in rw (e', after) h

-- The jobs are run in the order in which they were added: however the steps of the threads follow each
-- other, those started so far and behind them those that wait are among the added ones in their order.
pub Reach-IsInOrder : {t : Log} → Reach initial t → IsInOrder t
Reach-IsInOrder here = Sublistᴰ.slnil
Reach-IsInOrder (next r s) = Step-IsInOrder s (Reach-IsInOrder r)
