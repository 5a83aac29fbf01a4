-- ===== src/Tests.antt =====
-- The theorems at concrete inputs.
mod Fixtures
mod Credits
mod Texts
mod Tables
mod Runs
mod Worker
mod Process
mod Schemas
