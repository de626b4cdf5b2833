-- ===== src/Deployer.antt =====
-- asty/internal/ops/deployer: rolling updates with a canary and a rollback. The records are in Plan,
-- the history in History, the wait for a healthy batch in Tracker, the dispatch in Rollout, the
-- rollback in Revert and `Deploy` in Run.
pub mod Plan
pub mod History
pub mod Tracker
pub mod Rollout
pub mod Revert
pub mod Run
pub mod Ring
pub mod Steadiness
pub mod Coverage
pub mod Waves
pub mod Failures
pub mod Failing
pub mod Canaries
pub mod Finish
