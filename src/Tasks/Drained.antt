-- ===== src/Tasks/Drained.antt =====
-- launcher/taskManager.py: the monitoring loop ends when the processes have returned.
use smart_sim.Common.{
  ℕ, zero, suc, ◌≤◌, ◌≡◌, refl, inl, inr, true, false, ◌∷◌, [], List, Text, text_eq, text_eq_iff,
  text_eq_refl, Bool-cases, List-cases, arith, All, Option, some, length,
}
use smart_sim.Common.Int.{ℤ}
use smart_sim.Common.Dict.{Dict, get?, set, get?-set}
use smart_sim.Common.Entries.{All-map}
use smart_sim.Tasks.{Task, Processes, History, TaskManager, stop_idle, run_round, run_loop, run}
use smart_sim.Tasks.Rounds.{
  every_other, taken, AreDistinct, Apart, Returned, result_of, record_all, run_round-every_other,
}

module _ {ℓ κ} {A : Type ℓ} (P : A → Type κ) where
  every_other-All : (xs : List A) → All P xs → All P (every_other xs)
  unfolding every_other
  every_other-All [] h = tt
  every_other-All (x ∷ []) h = tt
  every_other-All (x ∷ (y ∷ xs)) h = (h.1.0, every_other-All xs h.1.1)

  -- What holds of the tasks that a round takes and of those that it leaves holds of all.
  taken-every_other : (xs : List A) → All P (taken xs) → All P (every_other xs) → All P xs
  unfolding every_other taken
  taken-every_other [] h k = tt
  taken-every_other (x ∷ []) h k = h
  taken-every_other (x ∷ (y ∷ xs)) h k = (h.0, (k.0, taken-every_other xs h.1 k.1))

every_other-AreDistinct : (ts : List Task) → AreDistinct ts → AreDistinct (every_other ts)
unfolding every_other
every_other-AreDistinct [] h = tt
every_other-AreDistinct (t ∷ []) h = tt
every_other-AreDistinct (t ∷ (u ∷ ts)) h =
    (every_other-All (Apart u) ts h.1.0, every_other-AreDistinct ts h.1.1)

length-every_other {ℓ} :
    {A : Type ℓ} (n : ℕ) (xs : List A) → length xs ≤ suc n → length (every_other xs) ≤ n
unfolding every_other
length-every_other n [] le = omega arith
length-every_other n (x ∷ []) le = omega arith
length-every_other zero (x ∷ (y ∷ xs)) le = absurd (omega arith)
length-every_other (suc n) (x ∷ (y ∷ xs)) le = omega (arith, length-every_other n xs)

stop_idle_none :
    (m : TaskManager) → m.tasks ≡ [] → stop_idle m ≡ record m { actively_monitoring = false }
unfolding stop_idle
stop_idle_none m e = rw e

stop_idle_some : (m : TaskManager) (t : Task) (ts : List Task) → m.tasks ≡ t ∷ ts → stop_idle m ≡ m
unfolding stop_idle
stop_idle_some m t ts e = ground (arith, e)

module _ (code : Text → ℤ) (io : Text → Option Text × Option Text) where
  -- The history has the result of this task.
  abbrev pub IsRecorded : Dict History → Task → Type 0
  IsRecorded h t = get? t.pid h ≡ some (result_of code io t.pid)

  set-IsRecorded :
      (h : Dict History) (t u : Task)
      → IsRecorded h t
      → IsRecorded (set u.pid (result_of code io u.pid) h) t
  set-IsRecorded h t u e = elim (Bool-cases (text_eq u.pid t.pid)) [
    | inl same ↦ rw (get?-set, same, (text_eq_iff u.pid t.pid).0 same) refl
    | inr other ↦ rw (get?-set, other) e
  ]

  record_all-kept :
      (us : List Task) (h : Dict History) (t : Task)
      → IsRecorded h t
      → IsRecorded (record_all code io us h) t
  unfolding record_all
  record_all-kept [] h t e = e
  record_all-kept (u ∷ us) h t e =
      record_all-kept us (set u.pid (result_of code io u.pid) h) t (set-IsRecorded h t u e)

  record_all-IsRecorded :
      (us : List Task) (h : Dict History) → All (IsRecorded (record_all code io us h)) us
  unfolding record_all
  record_all-IsRecorded [] h = tt
  record_all-IsRecorded (u ∷ us) h = (
    record_all-kept us (set u.pid (result_of code io u.pid) h) u (rw (get?-set, text_eq_refl) refl),
    record_all-IsRecorded us (set u.pid (result_of code io u.pid) h),
  )

  -- The processes of these tasks have returned when psutil is asked in each round.
  abbrev pub AllReturned : List Task → List Processes → Type 0
  AllReturned ts [] = Unit
  AllReturned ts (psutil ∷ psutils) = All (Returned code io psutil) ts × AllReturned ts psutils

  every_other-AllReturned :
      (ts : List Task) (psutils : List Processes)
      → AllReturned ts psutils
      → AllReturned (every_other ts) psutils
  every_other-AllReturned ts [] h = tt
  every_other-AllReturned ts (psutil ∷ psutils) h =
      (every_other-All (Returned code io psutil) ts h.0, every_other-AllReturned ts psutils h.1)

  -- The loop has ended, no task is left, and each of these tasks has its result on record.
  abbrev pub IsDrained : List Task → TaskManager → Type 0
  IsDrained ts m =
      (m.actively_monitoring ≡ false) × (m.tasks ≡ []) × All (IsRecorded m.task_history) ts

  run_loop_idle :
      (psutils : List Processes) (m : TaskManager)
      → m.actively_monitoring ≡ false
      → run_loop psutils m ≡ m
  unfolding run_loop
  run_loop_idle [] m idle = refl
  run_loop_idle (psutil ∷ psutils) m idle = rw idle

  run_loop_active :
      (psutil : Processes) (psutils : List Processes) (m : TaskManager)
      → m.actively_monitoring ≡ true
      → run_loop (psutil ∷ psutils) m ≡ run_loop psutils (run_round psutil m)
  unfolding run_loop
  run_loop_active psutil psutils m active = rw active

  -- What is on record stays there.
  abbrev Keeps : TaskManager → TaskManager → Type 0
  Keeps m n = (t : Task) → IsRecorded m.task_history t → IsRecorded n.task_history t

  abbrev EndsWell : List Processes → TaskManager → Type 0
  EndsWell psutils m = IsDrained m.tasks (run_loop psutils m) × Keeps m (run_loop psutils m)

  -- The manager after a round, if tasks are left.
  abbrev left_over : TaskManager → TaskManager
  left_over m = record m {
    task_history = record_all code io (taken m.tasks) m.task_history;
    tasks = every_other m.tasks;
  }

  run_round-EndsWell :
      (psutil : Processes) (psutils : List Processes) (m : TaskManager)
      → m.actively_monitoring ≡ true
      → AreDistinct m.tasks
      → All (Returned code io psutil) m.tasks
      → (1 ≤ length (every_other m.tasks) → EndsWell psutils (left_over m))
      → EndsWell (psutil ∷ psutils) m
  run_round-EndsWell psutil psutils m active distinct done next =
      let left = left_over m in
      let idle : TaskManager = record left { actively_monitoring = false } in
      let still = record_all-kept (taken m.tasks) m.task_history in
      let new = record_all-IsRecorded (taken m.tasks) m.task_history in
      rw
        (
          run_loop_active psutil psutils m active,
          run_round-every_other code io psutil m distinct done,
        )
        (elim (List-cases (every_other m.tasks)) [
          | inl none_left ↦
              rw (stop_idle_none left none_left, run_loop_idle psutils idle refl)
                (
                  (
                    refl,
                    none_left,
                    taken-every_other (IsRecorded left.task_history) m.tasks new (rw none_left tt),
                  ),
                  still,
                )
          | inr (t, ts, e) ↦
              let ((over, empty, recorded), kept) = next (rw e (omega arith)) in
              rw (stop_idle_some left t ts e) (
                (
                  over,
                  empty,
                  taken-every_other (IsRecorded _) m.tasks (All-map kept (taken m.tasks) new)
                      recorded,
                ),
                λ t known. kept t (still t known),
              )
        ])

  run_loop-EndsWell :
      (psutil : Processes) (psutils : List Processes) (m : TaskManager)
      → m.actively_monitoring ≡ true
      → AreDistinct m.tasks
      → AllReturned m.tasks (psutil ∷ psutils)
      → length m.tasks ≤ suc (length psutils)
      → EndsWell (psutil ∷ psutils) m
  run_loop-EndsWell psutil [] m active distinct done enough =
      run_round-EndsWell psutil [] m active distinct done.0
        λ some_left. absurd (omega (arith, length-every_other 0 m.tasks enough))
  run_loop-EndsWell psutil (q ∷ qs) m active distinct done enough =
      run_round-EndsWell psutil (q ∷ qs) m active distinct done.0 λ some_left.
        run_loop-EndsWell q qs (left_over m) active (every_other-AreDistinct m.tasks distinct)
          (every_other-AllReturned m.tasks (q ∷ qs) done.1)
          (length-every_other (suc (length qs)) m.tasks enough)

  -- If the processes of all tasks, each with its own pid, have returned in each round, and psutil
  -- tells the same codes and outputs in each, then the monitoring ends within as many rounds as there
  -- are tasks, and one where there are none; no task is left, and each has its code and its output
  -- on record.
  pub run-IsDrained :
      (psutil : Processes) (psutils : List Processes) (m : TaskManager)
      → AreDistinct m.tasks
      → AllReturned m.tasks (psutil ∷ psutils)
      → length m.tasks ≤ length (psutil ∷ psutils)
      → IsDrained m.tasks (run (psutil ∷ psutils) m)
  unfolding run
  run-IsDrained psutil psutils m distinct done enough =
      (run_loop-EndsWell psutil psutils (record m { actively_monitoring = true }) refl distinct done
        enough).0
