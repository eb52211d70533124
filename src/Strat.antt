-- ===== src/Strat.antt =====
-- src/strat/strat.c: runs a stratum's instance of an executable.
pub mod World
pub mod Args
pub mod Alias
pub mod Secure
pub mod Restrict
pub mod Exec
pub mod Chroot
pub mod Switch
pub mod Main
