-- ===== src/Tests.antt =====
-- Concrete runs, in which the hypotheses of the theorems hold.
mod Strat
mod Programs
mod Filesystems
mod Crossfs
mod Etcfs
mod Requests
