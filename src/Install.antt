-- ===== src/Install.antt =====
-- The commands that change installed packages: src/salt/cmd_install.cpp.
pub mod Run
pub mod Args
pub mod Update
pub mod Fetch
pub mod Resolve
pub mod Visit
pub mod Order
pub mod Checks
pub mod Effect
