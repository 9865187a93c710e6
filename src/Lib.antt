-- ===== src/Lib.antt =====
-- libblockdev: a model of the parts of the library that run the programs of the storage stack, decide
-- whether they are good enough, and compute and check what is passed to them.
--
-- The parts and how they interact. A plugin (src/plugins) asks src/plugins/check_deps.c once whether
-- its programs are there; that asks src/utils/exec.c for the version of each. The plugin then checks its
-- arguments, builds an argument array and lets src/utils/exec.c run the program.
--
-- Base: shared types and lemmas. Text of C is a list of bytes without the closing NUL, a pointer that
--   may be NULL an Option, GError with its code and message a record, a function that sets an error a
--   Result. Base/Bits has the bits of a mask.
-- Utils: src/utils/exec.c. Args is _append_extra_args; Lines is _process_fd_event, with what poll and
--   read find as events; Run is _utils_exec_and_report_progress and its wrappers, with what the kernel
--   answers as a record Child; Sync is the way through g_spawn_sync; Version is bd_utils_version_cmp
--   and bd_utils_check_util_version. Commands is the interface through which the plugins run programs.
-- Deps: src/plugins/check_deps.c. The four checks share one loop, whose probe is an argument; State is
--   the mask and the error. Deps/Threads has the calls of several threads as steps, one for each access
--   to the mask or the mutex.
-- Lvm: src/plugins/lvm/lvm-common.c and src/plugins/lvm/lvm.c. Calc has the calculations on sizes in
--   64 bits; Config the global configuration, the devices filter and the commands that use them. Table
--   has the variables that `lvm` prints with --nameprefixes, Data and Modes the records and the names
--   that are read from them. Ops has the operations of lvm.c, with the function that builds an array
--   (`..._args`) and the one that runs it under the source's name: Volumes for physical volumes and
--   volume groups, Logical for logical volumes, Thin for thin pools, Caches and Vdo for what is made in
--   several steps or under a configuration of its own, Queries, Columns and Lists for reports, Tech for
--   what is available. The runs that ask for versions and features have a log of their own. Safety has
--   the rules for proofs about operations; Machine all operations as one type, with the plan of each
--   (Plans), and the changes of the configuration as events between them.
-- Zfs: src/plugins/zfs.c. Names has the validation of names, Pool the arrays with which a pool is created
--   and imported, Version the cached version of the tools, Caps the capabilities and technologies that
--   depend on it. Reports has the lines that the tools print, Importable the blocks of zpool import with
--   the pointers that are freed, VdevTree the tree that zpool status prints by indentation, Scrub the
--   status of a scrub, with floating point as an argument. Ops has the operations: each takes the state
--   of the plugin and the log of the programs that were run, `zfs version` included, and gives the new
--   state and a value, or none where the source returns FALSE, NULL or UNKNOWN with an error; Lvm.Ops
--   does the same. How the programs end is an argument, and may depend on the log: a run of `zfs version`
--   may fail and the next succeed. Machine puts them together as what callers do with the plugin, and
--   says how a call ends, a use of freed memory included, at which a run stops. Safety has the rules for
--   proofs about operations, and what each runs.
-- Mdraid: src/plugins/mdraid.c. The size of the superblock, the array of bd_md_create, and the two forms
--   of a UUID with the buffers as lists of their bytes.
--
-- Bounds and fuel: numbers of the source are natural numbers with the wrap-around written out where it
-- can happen. The loop over the lines of a buffer has its length as fuel, since each round takes at
-- least one byte. The loop of poll runs over the answers of poll; it has no result exactly while the
-- program is still running, and its result is proved for every program whose outputs end. The loop of
-- the extent sizes has 64 rounds, one for each bit, and that of the superblock seven, after which it
-- would stop anyway. The stack of the tree of vdevs has 64 places as in the source, where a greater
-- depth is an error.
--
-- Not modelled: logging, the callbacks for progress, the environment of the programs, the libraries
-- (libcryptsetup, libfdisk, libnvme, libndctl, libatasmart, libblkid, libmount, udev, D-Bus),
-- and for now the other plugins.
pub mod Base
pub mod Utils
pub mod Deps
pub mod Lvm
pub mod Zfs
pub mod Mdraid
