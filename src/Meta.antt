-- ===== src/Meta.antt =====
-- .forgejo/scripts/meta.mjs: the tags and labels of every variant, from the git ref and the rules.
pub mod Expressions
pub mod Rules
pub mod RuleTag
pub mod Generate
pub mod Plan
