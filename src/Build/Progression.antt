-- ===== src/Build/Progression.antt =====
-- src/BuildProgression.cpp: build points from registrations, their rollback, and the migration of
-- older saves (in the child Migration).
pub mod FormTypes
pub mod Contribution
pub mod Rollback
pub mod RoundTrip
