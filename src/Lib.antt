-- ===== src/Lib.antt =====
-- chironfs is a FUSE file system that keeps one tree on several replicas. A request that changes
-- something is carried out on every replica that is not disabled; a request that only looks is
-- served by the first replica, in a rotating order, that can serve it. A replica on which an
-- operation failed while it succeeded on another one is disabled.
--
-- The parts of the program and the files that model them:
-- * src/chiron-types.h and src/fs.h (replica_t, fd_t, struct chironfs_config): Model. The global
--   variable `config` is the field of that name of State, beside the effective user and group, the
--   log and the world behind the kernel. An array is the list of the elements allocated for it.
-- * src/debug.c (errtab, _log): Log. A logged line is a value in a list.
-- * src/fs.c, drop_priv and reacquire_priv: Priv. The caller's user and group, which the program
--   takes from FUSE, are the argument `context` of each handler.
-- * src/fs.c, disable_replica, enable_replica, disable_faulty_replicas and get_first_error: Policy.
-- * src/hash.c, and hash_fd of src/fs.c: Hash.
-- * src/fs.c, fd_hashseekfree and fd_hashset: FdTable. A slot is none for NULL, or the descriptors of
--   an open file, one for each replica. The handle of a file, fi->fh, is the index of its slot.
-- * src/fs.c, choose_replica: Choose.
-- * src/fs.c, xlate and what the handlers share: Mirror. `visit_all` is the loop over all replicas;
--   a visit ends as passed over, as failed (err_list[i] = e; fail_cnt++) or as succeeded
--   (succ_cnt++), and `err_list`, `fail_cnt` and `succ_cnt` are computed from these ends.
-- * src/fs.c, the handlers that change every replica: Attributes (chiron_truncate, chiron_chmod,
--   chiron_chown, chiron_utime) and Namespace (chiron_mknod, chiron_rmdir, chiron_unlink,
--   chiron_mkdir, chiron_symlink, chiron_rename, chiron_link). Changes takes the requests on one
--   path together, as the cases of a type `Change`, and those on two paths as `Move`. OneCopy takes
--   both together as `Edit` (chiron_mknod is left out), takes chiron_getattr, chiron_access and
--   chiron_readlink as `Look`, and sets runs of such requests against one copy of the tree.
-- * src/fs.c, chiron_open, chiron_create and chiron_release: OpenFiles.
-- * src/fs.c, the loop of the requests that one replica serves: Scan; chiron_getattr, chiron_access
--   and chiron_readlink: Lookup; chiron_readdir: Directory; chiron_read and chiron_write: FileIo.
--   Scan.Reference has the walk through the replicas that the loop is compared with.
-- * src/fs.c, chiron_oper: Session. The requests of FUSE are a type, `handle` calls their handlers,
--   and `handle_all` takes one request after the other; Session.Reach lets the control server run
--   between the requests, and Session.Mounted starts from do_mount.
-- * src/conf.c, do_mount: Mount. strtok is its argument `strtok`, the tokens that its calls return
--   one after the other; the end of the program by exit() is a case of its result.
-- * src/fs.c, `config` as it is initialised, chironfs_opt_proc, main up to fuse_main, and
--   chiron_init; src/debug.c, open_log: Start. What fuse_opt_parse does is an argument of main.
-- * src/fs.h, the actions of the control socket: Wire, with the numbers that go over it as the machine
--   stores them, the low byte first (little-endian), and a connection as a stream (Wire.Stream).
-- * src/fs.c, process_request and ctl_server: Control.
-- * src/ctl.c, chironctl: Ctl. What it hands to printf of the replicas is its result, and its exits
--   are none.
-- Base has the numbers, lists, texts and partial results that the others share; Tests has the runs
-- on a small file system of three replicas.
--
-- How the parts interact: a handler is a function on State. It calls drop_priv, allocates, visits
-- replicas, hands the ends to disable_faulty_replicas and get_first_error, and calls
-- reacquire_priv. OpenFiles fills the table of FdTable; FileIo indexes it with the handle. Scan asks
-- Choose which replica is next. Mount makes the configuration from which the handlers start.
-- Control answers from it what Ctl asks. What a request may change of the configuration is in Evolve,
-- and what holds between requests in Invariant.
--
-- The operating system and the C library are a parameter, Model.Kernel: what a call returns and what
-- becomes of the world, given who makes it. Nothing is assumed of it but where a theorem names a
-- hypothesis: `Posix` (a failed call leaves a positive errno; calls whose result is tested as a
-- boolean return 0 or something negative), `Privileged` (seteuid and setegid succeed), `Allocates`
-- (memory is found), `Roomy` (getrlimit reports room for some files), `Stream` (a socket carries bytes
-- in order, and its reads and writes are whole), `Listing` (a directory stream has an end),
-- `Resolves` (memory is found for copies of arguments, which are paths that exist), `Disks` (below the
-- path of each replica is a tree; a call on it that succeeds changes it by one function of the caller
-- and the request, a call that fails leaves it alone, and neither touches the trees of other replicas),
-- `Shows` (a call that only looks at such a tree changes no tree, and what it stores, without what is
-- the replica's own, as the numbers of device and inode and the times, is a function of the tree),
-- `Links` (the target of a symbolic link has fewer than PATH_MAX bytes, 4096).
--
-- Numbers: an `int` that is a result is ℤ; `unsigned` keeps its wrap-around (% 2 ^ 32) in the hash,
-- in the counters of choose_replica and in the search of the table; the counters totrd and totwr
-- wrap at 2 ^ 64. A read outside an array and a division by zero are none (Base.Partial) in
-- choose_replica and in the requests that it serves, and so is the byte that chiron_readlink writes
-- behind its buffer. At two other places the code reads outside an array and the model goes on: _log
-- behind errtab (the line in the log is then marked `outside_errtab`), and fd_hashseekfree one entry
-- behind the table when all slots from its start to the end are in use (what it reads there does not
-- matter to the search). That a handler has a result is not to say that it came to neither. The search of
-- the table runs on fuel, one round for each slot, after which its own test ends it; so does the loop
-- of do_mount that doubles the size of the table, with 65 rounds, one for each bit and one more for
-- the last test. The loop over the requests of a connection takes as fuel one request for each byte
-- that waits and one more; the endless loop over the connections takes their number; the loop
-- over the names of a directory takes one more than there are. The other loops are structural.
--
-- Not modelled: fuse_opt_parse and fuse_main, which are FUSE's; print_err, the debug output with
-- timeval_sub, the timing macros and the help texts, which have no effect on what is modelled;
-- `free`, since no lifetime of memory is followed; what printf makes of what chironctl hands to it.
pub mod Base
pub mod Model
pub mod Log
pub mod Priv
pub mod Policy
pub mod Mirror
pub mod Attributes
pub mod Namespace
pub mod Changes
pub mod Hash
pub mod FdTable
pub mod Choose
pub mod OpenFiles
pub mod Scan
pub mod FileIo
pub mod Lookup
pub mod Directory
pub mod Mount
pub mod Wire
pub mod Control
pub mod Ctl
pub mod Evolve
pub mod Invariant
pub mod Session
pub mod OneCopy
pub mod Start
pub mod Tests
