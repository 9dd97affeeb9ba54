-- ===== src/Tests.antt =====
-- The theorems at concrete inputs, and runs of the definitions.
mod Fixtures
mod Text
mod Deletion
mod Admission
mod Provision
mod Starting
mod Steady
mod Machines
mod Attached
mod Targets
mod Mocked
mod Admitted
mod Lives
mod Starts
