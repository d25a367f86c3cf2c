-- ===== src/Domain.antt =====
-- src/domain/: errors, identities and runtime generations, the vocabulary of every component.
pub mod Errors
pub mod Runtime
pub mod Identity
