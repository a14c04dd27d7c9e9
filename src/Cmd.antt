-- ===== src/Cmd.antt =====
-- cmd: what the subcommands compute, and what they do to the store and to the cluster.
pub mod Revisions
pub mod State
