-- ===== src/Control/Job/Runs.antt =====
-- The class History of control/job.py: what is kept of each run of a job.
use smart_sim.Common.{
  ℕ, suc, ◌<◌, ◌≡◌, refl, List, [], ◌∷◌, Option, none, some, Text, if◌then◌else◌, ◌==◌, arith,
}
use smart_sim.Common.Int.{ℤ}
use smart_sim.Status.{SmartSimStatus}

-- A dict with numbers as keys, in insertion order.
abbrev pub RunDict : Type 0 → Type 0
RunDict V = List (ℕ × V)

module _ {V : Type 0} where
  -- d[run] = v
  unfoldable pub put : ℕ → V → RunDict V → RunDict V
  put run v [] = (run, v) ∷ []
  put run v ((i, w) ∷ d) = if i == run then (i, v) ∷ d else (i, w) ∷ put run v d

  -- d.get(run)
  unfoldable pub of_run : ℕ → RunDict V → Option V
  of_run run [] = none
  of_run run ((i, v) ∷ d) = if i == run then some v else of_run run d

  pub of_run-put :
      (i run : ℕ) (v : V) (d : RunDict V)
      → of_run i (put run v d) ≡ (if run == i then some v else of_run i d)
  unfolding put of_run
  of_run-put i run v [] = refl
  of_run-put i run v ((j, w) ∷ d) = ground (arith, of_run-put i run v d)

  pub of_run-put_self : (run : ℕ) (v : V) (d : RunDict V) → of_run run (put run v d) ≡ some v
  of_run-put_self run v d = ground (arith, of_run-put run run v d)

  pub of_run-put_other :
      (i run : ℕ) (v : V) (d : RunDict V) → i < run → of_run i (put run v d) ≡ of_run i d
  of_run-put_other i run v d small = ground (arith, of_run-put i run v d)

pub record History : Type 0 where
  pub runs : ℕ
  pub jids : RunDict (Option Text)
  pub statuses : RunDict SmartSimStatus
  pub returns : RunDict (Option ℤ)
  pub job_times : RunDict ℕ

-- History()
abbrev pub no_runs : History
no_runs = record { runs = 0; jids = []; statuses = []; returns = []; job_times = [] }

-- The method `record`.
abbrev pub record_run : Option Text → SmartSimStatus → Option ℤ → ℕ → History → History
record_run job_id status returncode job_time h = record {
  runs = h.runs;
  jids = put h.runs job_id h.jids;
  statuses = put h.runs status h.statuses;
  returns = put h.runs returncode h.returns;
  job_times = put h.runs job_time h.job_times;
}

abbrev pub new_run : History → History
new_run h = record h { runs = suc h.runs }
