-- ===== src/Prepare.antt =====
-- .forgejo/scripts/prepare.mjs: making the job container able to build.
pub mod Arch
pub mod Daemon
pub mod Packages
pub mod Sources
pub mod Binfmt
pub mod Steps
