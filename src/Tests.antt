-- ===== src/Tests.antt =====
-- The theorems at concrete inputs, and runs of the scripts' functions.
mod Toy
mod Config
mod Meta
mod Login
mod Release
mod Resolve
mod Prepare
mod Scripts
mod Web
mod Tables
mod Forms
mod Checked
