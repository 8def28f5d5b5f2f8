-- ===== src/Config.antt =====
-- .forgejo/scripts/config.mjs: the repository's variables as one normalized configuration.
pub mod Lists
pub mod Variants
pub mod Tags
pub mod Images
