-- ===== src/Control.antt =====
-- smartsim/_core/control: the jobs of an experiment, the manager that holds them, and the operations
-- of the controller on it.
pub mod Job
pub mod Manager
pub mod Databases
pub mod Controller
mod Tests
