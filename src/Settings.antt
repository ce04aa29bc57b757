-- ===== src/Settings.antt =====
-- smartsim/settings: the arguments, the environment and the command lines of the workload managers.
pub mod Base
pub mod Walltime
pub mod Srun
pub mod Sbatch
pub mod Options
pub mod Exports
pub mod Spelled
pub mod Reserved
mod Tests
