-- ===== src/Ensembles.antt =====
-- smartsim/entity: the models of an experiment, ensembles of models, and the strategies that expand
-- the parameters of an ensemble.
pub mod Strategies
pub mod Models
pub mod Groups
pub mod Attachments
pub mod Choices
pub mod Sizes
pub mod Steps
pub mod Pairs
pub mod Members
pub mod Expanded
pub mod Replicas
mod Tests
