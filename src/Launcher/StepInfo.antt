-- ===== src/Launcher/StepInfo.antt =====
-- launcher/stepInfo.py: from the status of a workload manager to a status of SmartSim.
pub mod Mapping
use smart_sim.Common.{
  ℕ, Bool, true, false, List, [], ◌∷◌, ◌++◌, Option, none, some, Text, codes, text_eq, text_eq_iff,
  if◌then◌else◌, ◌≡◌, refl, arith,
}
use smart_sim.Common.Dict.{Dict, get?}
use smart_sim.Common.Int.{ℤ, pos, negsuc, is_nonzero}
use smart_sim.Status.{
  SmartSimStatus, running, completed, cancelled, failed, new, paused, never_started, queued,
  status_of_value,
}

pub record StepInfo : Type 0 where
  pub status : SmartSimStatus
  pub launcher_status : Text
  pub returncode : Option ℤ
  pub output : Option Text
  pub error : Option Text

-- `returncode in [None, 0]`
abbrev pub no_failure : Option ℤ → Bool
no_failure none = true
no_failure (some code) = if is_nonzero code then false else true

-- `_get_smartsim_status` with the class's `mapping`.
unfoldable pub get_smartsim_status : Dict SmartSimStatus → Text → Option ℤ → SmartSimStatus
unfolding is_nonzero
get_smartsim_status mapping status returncode = elim (status_of_value status) [
  | some s ↦ s
  | none ↦ elim (get? status mapping) [
    | none ↦ failed
    | some s ↦ if no_failure returncode then s else failed
  ]
]

-- The status names of psutil, which is not part of the program.
pub record Psutil : Type 0 where
  pub running : Text
  pub sleeping : Text
  pub waking : Text
  pub disk_sleep : Text
  pub dead : Text
  pub tracing_stop : Text
  pub waiting : Text
  pub stopped : Text
  pub locked : Text
  pub parked : Text
  pub idle : Text
  pub zombie : Text

abbrev pub unmanaged_mapping : Psutil → Dict SmartSimStatus
unmanaged_mapping p =
    (p.running, running)
    ∷ (p.sleeping, running)
    ∷ (p.waking, running)
    ∷ (p.disk_sleep, running)
    ∷ (p.dead, failed)
    ∷ (p.tracing_stop, paused)
    ∷ (p.waiting, paused)
    ∷ (p.stopped, paused)
    ∷ (p.locked, paused)
    ∷ (p.parked, paused)
    ∷ (p.idle, paused)
    ∷ (p.zombie, completed)
    ∷ []

abbrev pub slurm_mapping : Dict SmartSimStatus
slurm_mapping =
    (codes "RUNNING", running)
    ∷ (codes "CONFIGURING", running)
    ∷ (codes "STAGE_OUT", running)
    ∷ (codes "COMPLETED", completed)
    ∷ (codes "DEADLINE", completed)
    ∷ (codes "TIMEOUT", completed)
    ∷ (codes "BOOT_FAIL", failed)
    ∷ (codes "FAILED", failed)
    ∷ (codes "NODE_FAIL", failed)
    ∷ (codes "OUT_OF_MEMORY", failed)
    ∷ (codes "CANCELLED", cancelled)
    ∷ (codes "CANCELLED+", cancelled)
    ∷ (codes "REVOKED", cancelled)
    ∷ (codes "PENDING", paused)
    ∷ (codes "PREEMPTED", paused)
    ∷ (codes "RESV_DEL_HOLD", paused)
    ∷ (codes "REQUEUE_FED", paused)
    ∷ (codes "REQUEUE_HOLD", paused)
    ∷ (codes "REQUEUED", paused)
    ∷ (codes "RESIZING", paused)
    ∷ (codes "SIGNALING", paused)
    ∷ (codes "SPECIAL_EXIT", paused)
    ∷ (codes "STOPPED", paused)
    ∷ (codes "SUSPENDED", paused)
    ∷ []

abbrev pub pbs_mapping : Dict SmartSimStatus
pbs_mapping =
    (codes "R", running)
    ∷ (codes "B", running)
    ∷ (codes "H", paused)
    ∷ (codes "M", paused)
    ∷ (codes "Q", paused)
    ∷ (codes "S", paused)
    ∷ (codes "T", paused)
    ∷ (codes "U", paused)
    ∷ (codes "W", paused)
    ∷ (codes "E", completed)
    ∷ (codes "F", completed)
    ∷ (codes "X", completed)
    ∷ []

abbrev pub lsf_batch_mapping : Dict SmartSimStatus
lsf_batch_mapping =
    (codes "RUN", running)
    ∷ (codes "PSUSP", paused)
    ∷ (codes "USUSP", paused)
    ∷ (codes "SSUSP", paused)
    ∷ (codes "PEND", paused)
    ∷ (codes "DONE", completed)
    ∷ []

abbrev pub lsf_jsrun_mapping : Dict SmartSimStatus
lsf_jsrun_mapping =
    (codes "Killed", completed)
    ∷ (codes "Running", running)
    ∷ (codes "Queued", paused)
    ∷ (codes "Complete", completed)
    ∷ []

abbrev all_of : SmartSimStatus → List Text → Dict SmartSimStatus
all_of s [] = []
all_of s (name ∷ names) = (name, s) ∷ all_of s names

abbrev pub sge_mapping : Dict SmartSimStatus
sge_mapping =
    all_of running (codes "r" ∷ codes "hr" ∷ codes "t" ∷ codes "Rr" ∷ codes "Rt" ∷ [])
    ++ (all_of queued (codes "qw" ∷ codes "Rq" ∷ codes "hqw" ∷ codes "hRwq" ∷ [])
        ++ (all_of paused (
              codes "s"
              ∷ codes "ts"
              ∷ codes "S"
              ∷ codes "tS"
              ∷ codes "T"
              ∷ codes "tT"
              ∷ codes "Rs"
              ∷ codes "Rts"
              ∷ codes "RS"
              ∷ codes "RtS"
              ∷ codes "RT"
              ∷ codes "RtT"
              ∷ [])
            ++ (all_of failed (codes "Eqw" ∷ codes "Ehqw" ∷ codes "EhRqw" ∷ [])
                ++ (all_of completed (codes "z" ∷ [])
                    ++ all_of cancelled (
                        codes "dr"
                        ∷ codes "dt"
                        ∷ codes "dRr"
                        ∷ codes "dRt"
                        ∷ codes "ds"
                        ∷ codes "dS"
                        ∷ codes "dT"
                        ∷ codes "dRs"
                        ∷ codes "dRS"
                        ∷ codes "dRT"
                        ∷ [])))))

-- The constructors: a status text, a return code, and what the step printed.
unfoldable pub plain_step_info :
    Dict SmartSimStatus → Text → Option ℤ → Option Text → Option Text → StepInfo
plain_step_info mapping status returncode output error = record {
  status = get_smartsim_status mapping status none;
  launcher_status = status;
  returncode = returncode;
  output = output;
  error = error;
}

unfoldable pub unmanaged_step_info : Psutil → Text → Option ℤ → Option Text → Option Text → StepInfo
unfolding plain_step_info
unmanaged_step_info p = plain_step_info (unmanaged_mapping p)

unfoldable pub slurm_step_info : Text → Option ℤ → Option Text → Option Text → StepInfo
unfolding plain_step_info
slurm_step_info = plain_step_info slurm_mapping

abbrev pub not_found : Text
not_found = codes "NOTFOUND"

-- A job that the manager does not know any more.
unfoldable pub not_found_info : Option ℤ → Option Text → Option Text → StepInfo
unfolding is_nonzero
not_found_info returncode output error = elim returncode [
  | none ↦ record {
    status = completed;
    launcher_status = not_found;
    returncode = some (pos 0);
    output = output;
    error = error;
  }
  | some code ↦ record {
    status = if is_nonzero code then failed else completed;
    launcher_status = not_found;
    returncode = some code;
    output = output;
    error = error;
  }
]

unfoldable pub pbs_step_info : Text → Option ℤ → Option Text → Option Text → StepInfo
unfolding plain_step_info not_found_info
pbs_step_info status returncode output error =
    if text_eq status not_found
    then not_found_info returncode output error
    else plain_step_info pbs_mapping status returncode output error

unfoldable pub lsf_batch_step_info : Text → Option ℤ → Option Text → Option Text → StepInfo
unfolding plain_step_info not_found_info
lsf_batch_step_info status returncode output error =
    if text_eq status not_found
    then not_found_info returncode output error
    else plain_step_info lsf_batch_mapping status returncode output error

-- The only class that looks at the return code of a known status.
unfoldable pub lsf_jsrun_step_info : Text → Option ℤ → Option Text → Option Text → StepInfo
unfolding plain_step_info not_found_info
lsf_jsrun_step_info status returncode output error =
    if text_eq status not_found
    then not_found_info returncode output error
    else record (plain_step_info lsf_jsrun_mapping status returncode output error) {
      status = get_smartsim_status lsf_jsrun_mapping status returncode;
    }

unfoldable pub sge_step_info : Text → Option ℤ → Option Text → Option Text → StepInfo
unfolding plain_step_info not_found_info
sge_step_info status returncode output error =
    if text_eq status not_found
    then not_found_info returncode output error
    else plain_step_info sge_mapping status returncode output error
