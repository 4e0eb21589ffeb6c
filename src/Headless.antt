-- ===== src/Headless.antt =====
-- The headless worker: `Jobs` is the registry of the jobs of headless/jobs.py and their order, `Plans` the
-- planning of every goal in that file, and `Quarantine` the rule of headless/quarantine.py.
pub mod Jobs
pub mod Plans
pub mod Quarantine
mod Tests
