-- ===== src/SshConfig.antt =====
-- src/server/ssh-config.ts: the lines of an OpenSSH configuration, the aliases that it lists, and
-- the directives that make it unusable because they run local commands.
pub mod Tokens
pub mod Hosts
pub mod Unsafe
pub mod Aliases
