-- ===== src/Worker/Wait.antt =====
-- The condition variable of app/worker.c, on which the worker thread sleeps, and the callers of
-- `worker_remove_jobs_by_cb` in their wait.
use graceful_music.Common.{
  ℕ, suc, ◌+◌, ◌≤◌, ◌<◌, ◌≡◌, refl, sym, ap, ◌∙◌, ◌≢◌, ◌⊎◌, inl, inr, Bool, true, false, none, some,
  [], arith, if◌then◌else◌, Bool-cases, Option-cases,
}
use native.Mathlib.Decide.{dec_lt}
use graceful_music.Worker.{
  WorkerState, worker_paused, Job, Worker, sleeps, starts, turn, finish, finish_signals,
  worker_set_state, worker_add_job, worker_remove_jobs_by_cb, current_matches,
}
use graceful_music.Worker.Trace.{turn-starts, finish-some}

-- The callers that sleep in `worker_remove_jobs_by_cb`, those that were woken and do not have the lock yet, and
-- whether the thread sleeps.
pub record Sleepers : Type 0 where
  pub callers : ℕ
  pub woken : ℕ
  pub thread : Bool

-- pthread_cond_signal: one of those that sleep is woken, whichever, and none only if none sleeps.
pub data Signal (s t : Sleepers) : Type 0 where
  to_nobody : s.callers ≡ 0 → s.thread ≡ false → t ≡ s → Signal s t
  to_thread : s.thread ≡ true → t ≡ record s { thread = false } → Signal s t
  to_caller :
      (n : ℕ) → s.callers ≡ suc n → t ≡ record s { callers = n; woken = s.woken + 1 } → Signal s t

-- A signal that is sent if the test is true.
pub data SignalIf (test : Bool) (s t : Sleepers) : Type 0 where
  sent : test ≡ true → Signal s t → SignalIf test s t
  unsent : test ≡ false → t ≡ s → SignalIf test s t

pub record State : Type 0 where
  pub worker : Worker
  pub asleep : Sleepers

-- What the threads do while they have the lock.
pub data Step (s t : State) : Type 0 where
  adds : (j : Job) → t.worker ≡ worker_add_job j s.worker → Signal s.asleep t.asleep → Step s t
  sets :
      (st : WorkerState)
      → t.worker ≡ worker_set_state st s.worker
      → Signal s.asleep t.asleep
      → Step s t
  removes :
      (cb : Job → Bool)
      → t.worker ≡ (worker_remove_jobs_by_cb cb s.worker).1
      → t.asleep ≡ (
          if current_matches cb s.worker
          then record (s.asleep) { callers = s.asleep.callers + 1 }
          else s.asleep)
      → Step s t
  -- A caller that was woken has the lock: it sleeps again while `cancel_current` is set, and else returns.
  rechecks :
      (n : ℕ)
      → s.asleep.woken ≡ suc n
      → t.worker ≡ s.worker
      → t.asleep ≡ (
          if s.worker.cancel_current
          then record (s.asleep) { callers = s.asleep.callers + 1; woken = n }
          else record (s.asleep) { woken = n })
      → Step s t
  takes :
      (j : Job)
      → s.asleep.thread ≡ false
      → s.worker.cur_job ≡ none
      → turn s.worker ≡ starts j t.worker
      → t.asleep ≡ s.asleep
      → Step s t
  dozes :
      s.asleep.thread ≡ false
      → s.worker.cur_job ≡ none
      → turn s.worker ≡ sleeps
      → t.worker ≡ s.worker
      → t.asleep ≡ record (s.asleep) { thread = true }
      → Step s t
  ends :
      (j : Job)
      → finish s.worker ≡ some (j, t.worker)
      → SignalIf (finish_signals s.worker) s.asleep t.asleep
      → Step s t

-- No caller begins to wait while another one does.
abbrev pub IsAlone : {s t : State} → Step s t → Type 0
IsAlone {s} (removes cb e a) =
    (current_matches cb s.worker ≡ false) ⊎ (s.asleep.callers + s.asleep.woken ≡ 0)
IsAlone _ = Unit

pub data Reach (s : State) : State → Type 0 where
  here : Reach s s
  next : {t u : State} → Reach s t → (x : Step t u) → IsAlone x → Reach s u

-- Before `worker_init`: nobody sleeps.
abbrev pub initial : State
initial = record {
  worker = record { jobs = []; state = worker_paused; cancel_current = false; cur_job = none };
  asleep = record { callers = 0; woken = 0; thread = false };
}

record IsAwake (s : State) : Type 0 where
  one : s.asleep.callers + s.asleep.woken ≤ 1
  waits : 0 < s.asleep.callers → s.worker.cancel_current ≡ true
  running : s.worker.cancel_current ≡ true → s.worker.cur_job ≢ none
  thread : s.asleep.thread ≡ true → s.worker.cur_job ≡ none

-- What a signal changes.
Signal-fewer :
    {s t : Sleepers}
    → Signal s t
    → (t.callers + t.woken ≡ s.callers + s.woken)
      × (t.callers ≤ s.callers)
      × (t.thread ≡ true → s.thread ≡ true)
      × (s.thread ≡ false → s.callers ≤ 1 → t.callers ≡ 0)
Signal-fewer {s} {t} (to_nobody n f e) = rw e (refl, omega arith, λ h. h, λ h k. n)
Signal-fewer {s} {t} (to_thread f e) =
    rw e (refl, omega arith, λ h. absurd (cc), λ h k. absurd (cc))
Signal-fewer {s} {t} (to_caller n c e) =
    rw e (omega (arith, c), omega (arith, c), λ h. h, λ h k. omega (arith, c))

-- A signal beside a change that leaves the current job and `cancel_current` alone
Signal-IsAwake :
    {s t : State}
    → IsAwake s
    → t.worker.cancel_current ≡ s.worker.cancel_current
    → t.worker.cur_job ≡ s.worker.cur_job
    → Signal s.asleep t.asleep
    → IsAwake t
Signal-IsAwake {s} {t} h c k g =
    let f = Signal-fewer g in
    record {
      one = omega (arith, f.0, h.one);
      waits = λ n. c ∙ h.waits (omega (arith, f.1, n));
      running = λ u v. h.running (sym c ∙ u) (sym k ∙ v);
      thread = λ u. k ∙ h.thread (f.2 u);
    }

removes-IsAwake :
    {s t : State} (cb : Job → Bool)
    → IsAwake s
    → t.worker ≡ (worker_remove_jobs_by_cb cb s.worker).1
    → t.asleep ≡ (
        if current_matches cb s.worker
        then record (s.asleep) { callers = s.asleep.callers + 1 }
        else s.asleep)
    → (current_matches cb s.worker ≡ false) ⊎ (s.asleep.callers + s.asleep.woken ≡ 0)
    → IsAwake t
unfolding worker_remove_jobs_by_cb
removes-IsAwake {s} {t} cb h e a q =
    let k : t.worker.cur_job ≡ s.worker.cur_job = ap (λ w. w.cur_job) e in
    elim (Bool-cases (current_matches cb s.worker)) [
      | inl m ↦
          let c : t.worker.cancel_current ≡ true = ap (λ w. w.cancel_current) e ∙ rw m refl in
          let b : t.asleep ≡ record (s.asleep) { callers = s.asleep.callers + 1 } = a ∙ rw m refl in
          let z : s.asleep.callers + s.asleep.woken ≡ 0 = elim q [
            | inl f ↦ absurd (cc)
            | inr z ↦ z
          ] in
          record {
            one = rw b (omega (arith, z));
            waits = λ n. c;
            running = λ u v. current_there (sym k ∙ v) m;
            thread = λ u. k ∙ h.thread (sym (ap (λ l. l.thread) b) ∙ u);
          }
      | inr m ↦
          let c : t.worker.cancel_current ≡ s.worker.cancel_current =
            ap (λ w. w.cancel_current) e ∙ rw m refl in
          let b : t.asleep ≡ s.asleep = a ∙ rw m refl in
          record {
            one = rw b h.one;
            waits = λ n. c ∙ h.waits (rw b at n);
            running = λ u v. h.running (sym c ∙ u) (sym k ∙ v);
            thread = λ u. k ∙ h.thread (rw b at u);
          }
    ]
  where
    current_there : s.worker.cur_job ≡ none → current_matches cb s.worker ≡ true → ⊥
    current_there n m = no_current s.worker n m
      where
        no_current : (w : Worker) → w.cur_job ≡ none → current_matches cb w ≡ true → ⊥
        no_current w n m = unfold current_matches in ground (arith, n, m)

Step-IsAwake : {s t : State} (x : Step s t) → IsAlone x → IsAwake s → IsAwake t
unfolding worker_add_job worker_set_state finish_signals
Step-IsAwake {s} {t} (adds j e g) q h =
    Signal-IsAwake h (ap (λ w. w.cancel_current) e) (ap (λ w. w.cur_job) e) g
Step-IsAwake {s} {t} (sets st e g) q h =
    Signal-IsAwake h (ap (λ w. w.cancel_current) e) (ap (λ w. w.cur_job) e) g
Step-IsAwake {s} {t} (removes cb e a) q h = removes-IsAwake cb h e a q
Step-IsAwake {s} {t} (rechecks n w e a) q h = elim (Bool-cases s.worker.cancel_current) [
  | inl c ↦
      let b : t.asleep ≡ record (s.asleep) { callers = s.asleep.callers + 1; woken = n } =
        a ∙ rw c refl in
      record {
        one = rw b (omega (arith, w, h.one));
        waits = λ k. ap (λ w. w.cancel_current) e ∙ c;
        running = λ u v. h.running c (sym (ap (λ w. w.cur_job) e) ∙ v);
        thread = λ u. ap (λ w. w.cur_job) e ∙ h.thread (sym (ap (λ l. l.thread) b) ∙ u);
      }
  | inr c ↦
      let b : t.asleep ≡ record (s.asleep) { woken = n } = a ∙ rw c refl in
      record {
        one = rw b (omega (arith, w, h.one));
        waits = λ k. ap (λ w. w.cancel_current) e ∙ h.waits (rw b at k);
        running = λ u v. absurd (not_both (sym c ∙ sym (ap (λ w. w.cancel_current) e) ∙ u));
        thread = λ u. ap (λ w. w.cur_job) e ∙ h.thread (sym (ap (λ l. l.thread) b) ∙ u);
      }
]
  where
    not_both : false ≡ true → ⊥
    not_both e = cc
Step-IsAwake {s} {t} (takes j f i e a) q h =
    let (_, cur, _, same) = turn-starts s.worker e in
    record {
      one = rw a h.one;
      waits = λ n. same ∙ h.waits (rw a at n);
      running = λ u v. there j (sym cur ∙ v);
      thread = λ u. absurd (clash (sym f ∙ sym (ap (λ l. l.thread) a) ∙ u));
    }
  where
    there : (j : Job) → some j ≡ none → ⊥
    there j e = cc

    clash : false ≡ true → ⊥
    clash e = cc
Step-IsAwake {s} {t} (dozes f i e e' a) q h = record {
  one = rw a h.one;
  waits = λ n. ap (λ w. w.cancel_current) e' ∙ h.waits (rw a at n);
  running =
      λ u v. h.running (sym (ap (λ w. w.cancel_current) e') ∙ u) (sym (ap (λ w. w.cur_job) e') ∙ v);
  thread = λ u. ap (λ w. w.cur_job) e' ∙ i;
}
Step-IsAwake {s} {t} (ends j e g) q h =
    let (cur, after) = finish-some s.worker e in
    let up : s.asleep.thread ≡ false = thread_up s.asleep.thread refl cur in
    record {
      one = one_left g;
      waits = λ n. absurd (omega (arith, none_left up g, n));
      running = λ u v. absurd (clash (sym (ap (λ w. w.cancel_current) after) ∙ u));
      thread = λ u. ap (λ w. w.cur_job) after;
    }
  where
    clash : false ≡ true → ⊥
    clash e = cc

    thread_up :
        (b : Bool) → s.asleep.thread ≡ b → s.worker.cur_job ≡ some j → s.asleep.thread ≡ false
    thread_up true u cur = absurd (let z = h.thread u in cc)
    thread_up false u cur = u

    one_left :
        SignalIf s.worker.cancel_current s.asleep t.asleep → t.asleep.callers + t.asleep.woken ≤ 1
    one_left (sent c g) = omega (arith, (Signal-fewer g).0, h.one)
    one_left (unsent c a) = rw a h.one

    none_left :
        s.asleep.thread ≡ false
        → SignalIf s.worker.cancel_current s.asleep t.asleep
        → t.asleep.callers ≡ 0
    none_left up (sent c g) = (Signal-fewer g).3 up (omega (arith, h.one))
    none_left up (unsent c a) = elim (dec_lt 0 s.asleep.callers) [
      | yes p ↦ absurd (clash (sym c ∙ h.waits p))
      | no p ↦ rw a (omega (arith, p))
    ]

Reach-IsAwake : {t : State} → Reach initial t → IsAwake t
Reach-IsAwake here = record {
  one = omega arith;
  waits = λ n. absurd (omega arith);
  running = λ e. absurd (cc);
  thread = λ e. refl;
}
Reach-IsAwake (next r x q) = Step-IsAwake x q (Reach-IsAwake r)

-- A caller of `worker_remove_jobs_by_cb` misses no wake-up, if no other one waits at the same time: in
-- whatever order the threads get the lock, and whichever of those that sleep a signal wakes, a caller sleeps
-- only while `cancel_current` is set and a job runs. So it does not sleep on when the job has ended and
-- `cancel_current` is clear.
pub Reach-wakes :
    {s : State}
    → Reach initial s
    → 0 < s.asleep.callers
    → (s.worker.cancel_current ≡ true) × (j : Job) × (w : Worker) × (finish s.worker ≡ some (j, w))
unfolding finish
Reach-wakes {s} r n =
    let h = Reach-IsAwake r in
    let c = h.waits n in
    elim (Option-cases s.worker.cur_job) [
      | inl e ↦ absurd (h.running c e)
      | inr (j, e) ↦ (c, j, record (s.worker) { cur_job = none; cancel_current = false }, rw e refl)
    ]
