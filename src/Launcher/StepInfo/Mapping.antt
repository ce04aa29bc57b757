-- ===== src/Launcher/StepInfo/Mapping.antt =====
-- The maps of the workload managers in stepInfo.py.
use smart_sim.Common.{
  Bool, true, false, Option, none, Text, ◌≡◌, refl, arith, inl, inr, all, Option-cases, Bool-cases,
}
use smart_sim.Common.Dict.{Dict, get?, get?-all}
use smart_sim.Common.Int.{ℤ}
use smart_sim.Status.{SmartSimStatus, new, never_started, status_of_value}
use smart_sim.Launcher.StepInfo.{
  StepInfo, get_smartsim_status, no_failure, Psutil, unmanaged_mapping, slurm_mapping, pbs_mapping,
  lsf_batch_mapping, lsf_jsrun_mapping, sge_mapping, unmanaged_step_info, slurm_step_info,
  pbs_step_info, lsf_batch_step_info, lsf_jsrun_step_info, sge_step_info,
}

-- The six constructors.
pub data Manager : Type 0 where
  unmanaged : Psutil → Manager
  slurm pbs lsf_batch lsf_jsrun sge : Manager

abbrev pub step_info : Manager → Text → Option ℤ → Option Text → Option Text → StepInfo
step_info (unmanaged p) = unmanaged_step_info p
step_info slurm = slurm_step_info
step_info pbs = pbs_step_info
step_info lsf_batch = lsf_batch_step_info
step_info lsf_jsrun = lsf_jsrun_step_info
step_info sge = sge_step_info

-- A status that a launched step can have.
abbrev pub is_launched : SmartSimStatus → Bool
is_launched new = false
is_launched never_started = false
is_launched _ = true

abbrev AllLaunched : Dict SmartSimStatus → Type 0
AllLaunched mapping = all (λ e. is_launched e.1) mapping ≡ true

get_smartsim_status-launched :
    (mapping : Dict SmartSimStatus) (status : Text) (code : Option ℤ)
    → AllLaunched mapping
    → status_of_value status ≡ none
    → is_launched (get_smartsim_status mapping status code) ≡ true
unfolding get_smartsim_status
get_smartsim_status-launched mapping status code h foreign =
    elim (Option-cases (get? status mapping)) [
      | inl e ↦ rw (foreign, e, get_smartsim_status)
      | inr (s, e) ↦
          let ok = get?-all is_launched status mapping h e in
          elim (Bool-cases (no_failure code)) [ inl fine ↦ ground arith | inr bad ↦ ground arith ]
    ]

-- A status text that is no status of SmartSim itself never reads as "new" or "never started",
-- whichever workload manager reports it and whatever the return code is.
pub step_info-launched :
    (m : Manager) (status : Text) (code : Option ℤ) (out err : Option Text)
    → status_of_value status ≡ none
    → is_launched (step_info m status code out err).status ≡ true
unfolding unmanaged_step_info slurm_step_info pbs_step_info lsf_batch_step_info lsf_jsrun_step_info
    sge_step_info
step_info-launched (unmanaged p) status code out err h =
    get_smartsim_status-launched (unmanaged_mapping p) status none refl h
step_info-launched slurm status code out err h =
    get_smartsim_status-launched slurm_mapping status none refl h
step_info-launched pbs status code out err h =
    ground (arith, get_smartsim_status-launched pbs_mapping status none refl h)
step_info-launched lsf_batch status code out err h =
    ground (arith, get_smartsim_status-launched lsf_batch_mapping status none refl h)
step_info-launched lsf_jsrun status code out err h =
    ground (arith, get_smartsim_status-launched lsf_jsrun_mapping status code refl h)
step_info-launched sge status code out err h =
    ground (arith, get_smartsim_status-launched sge_mapping status none refl h)
