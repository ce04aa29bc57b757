-- ===== src/Dragon.antt =====
-- The Dragon backend: smartsim/_core/launcher/dragon/dragonBackend.py with the request schemas of
-- smartsim/_core/schemas/dragonRequests.py. `State` has the data, the next modules one method
-- group each, `Server` the request handlers and histories, and the rest the proofs.
pub mod State
pub mod Policies
pub mod Admission
pub mod Stop
pub mod Start
pub mod Refresh
pub mod Shutdown
pub mod Server
mod Samples
mod Tests
pub mod Hosts
pub mod Lifecycle
pub mod Cooldown
pub mod Failures
