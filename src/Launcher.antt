-- ===== src/Launcher.antt =====
-- The launchers of smartsim/_core/launcher: the statuses that workload managers report, the map
-- from step names to ids, and the parsers of the managers' command output.
pub mod StepInfo
pub mod StepMapping
pub mod Updates
pub mod Slurm
pub mod Pbs
pub mod Lsf
pub mod Sge
mod Tests
