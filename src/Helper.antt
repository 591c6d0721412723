-- ===== src/Helper.antt =====
-- orchestrator/helpers/files-helper.py: the program that works on the files of one site, inside a
-- chroot, and that orchestrator/orchestrator/files.py runs.
pub mod Mode
pub mod Modes
pub mod Commands
pub mod Safety
pub mod Main
pub mod Dispatch
mod Tests
