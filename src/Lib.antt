-- ===== src/Lib.antt =====
-- The C programs of Bedrock Linux: strat, bouncer, etcfs, crossfs, manage_tty_lock,
-- keyboard_is_present and plymouth-quit.
--
-- A stratum is one distribution's tree under /bedrock/strata. `strat` runs a command in a stratum:
-- it checks that the stratum is enabled, leaves its chroot for the root of the tree and enters the
-- stratum. A bouncer is a file in /bedrock/cross/bin that executes `strat` for the stratum and the
-- path in its extended attributes. `crossfs` is the filesystem at /bedrock/cross; it sends a path to
-- the files of the strata that back it. `etcfs` is mounted over each stratum's /etc; it makes some
-- paths global and overrides others. The last three are helpers of the init.
--
-- Base: shared names, Boolean tests, lists over native numbers, and C functions that may stop the
-- process. CString: C strings without their NUL, <string.h>, and the words of sscanf (Scan).
-- Strat (src/strat/strat.c): World has the state of the process and the kernel, a record `Os` of
-- answers that may depend on every call before. Args is parse_args; Alias is deref_alias; Secure is
-- check_config_secure; Restrict is restrict_envvar, restrict_env and check_cmd_restricted; Chroot is
-- break_out_of_chroot and chroot_to_stratum; Exec is execv_skip; Switch is check_capsyschroot and
-- switch_stratum; Main is main.
-- Bouncer (src/bouncer/bouncer.c): main, with new_argv as an array whose places may be unwritten.
-- Handoff is about what strat makes of that array.
-- Etcfs (src/etcfs/etcfs.c): Config has the variables of the configuration,
-- Commands the four cfg_ commands, Printed cfg_read, Serve the branches of m_read and m_write for
-- the configuration file, Caller set_caller_permissions. Arrays and Invariant are their lemmas.
-- Files has what is below a descriptor. Search is file_search, Inject and Uninject the functions of
-- that name, which replace a file by way of a temporary one, and Overrides is apply_override, which
-- calls inject. Handlers has FS_IMP_SETUP, which calls apply_override and set_caller_permissions, and
-- Requests the handlers that pass one call on; Own is m_getattr, m_open, m_read and m_write, which serve
-- the configuration file themselves; Listing is m_readdir, Rename m_rename, and Xattr m_getxattr. What
-- the system calls answer, failures included, are records of parameters.
-- Crossfs (src/crossfs/crossfs.c): Config has the entries with their backs, cfg_read and cfg_clear.
-- Commands is cfg_add and cfg_rm, over the fields that sscanf fills, with the allocations and the
-- open of a stratum's root as parameters; Effect, Removal, PathOnce and Abstract are about what they
-- do to the backs. Write is m_write with its static buffer, over those commands; Descriptors is about
-- sequences of writes and Fragments about commands in parts. Paths is is_parent, is_equal_or_parent, pstrcmp,
-- classify_ipath and calc_bpath, over any entries that have a `cpath`. Read is strcatoff, and Ini the
-- ini filter that calls it, in read_back and getattr_back. Roots is fchroot_open and its kin, with
-- chroot and with openat2. Backs is the search of an entry's backs, First its answer, Listing is insert_h_str,
-- virt_filldir, filldir_all_bpath and the switch of m_readdir, Request is set_local_stratum with
-- FS_IMP_SETUP and FS_IMP_RETURN, and Handlers is m_open and m_readlink, which use both.
-- TtyLock (src/manage_tty_lock/manage_tty_lock.c), Keyboard
-- (src/keyboard_is_present/keyboard_is_present.c) and PlymouthQuit (src/plymouth-quit/plymouth-quit.c)
-- are whole programs. Tests has concrete runs.
--
-- Loops: check_config_secure, restrict_envvar and execv_skip have fuel of the length of their string
-- and one, since each round shortens it. The climb of break_out_of_chroot has the fuel of its
-- caller, since only the kernel knows the depth of the tree; a fuel above the depth is enough. All
-- other loops are by recursion on a list.
--
-- Bounds: numbers are natural; where the code subtracts a size_t that might wrap, the wrap is
-- written out (crossfs strcatoff, st_size, and nbuf_len of m_write, a char), and an
-- unsigned int that is read is cut to 32 bits (keyboard_is_present). Message texts are constructors.
--
-- Not modelled: of etcfs m_link, the handlers of a descriptor (m_flush, m_release, m_fsync and
-- m_flock), fi->fh, the lock cfg_lock, m_releasedir and m_init, which do nothing to the state, and main;
-- of crossfs the font filter, m_getattr and m_read as a whole, and the hash function of its tables;
-- the shell programs, the installer and the build.
pub mod Base
pub mod CString
pub mod Strat
pub mod Bouncer
pub mod Etcfs
pub mod Crossfs
pub mod TtyLock
pub mod Keyboard
pub mod PlymouthQuit
mod Tests
