-- ===== src/Lib.antt =====
-- The Rust workspace under crates/: a client for the depots of a content server. A depot's manifest
-- lists files as sequences of chunks that are named by their SHA-1; the chunks come from a CDN, are
-- cached on disk, and are served as a file system.
--
-- How the parts interact. A `ChunkStore` (crates/steam-depot-vfs/src/chunk_store/mod.rs) hands out the
-- bytes of a chunk. `FsCacheStore` wraps another store with a directory of frames and a cache of
-- decoded chunks. `DepotManifestStore` and its `DepotFileReader` cut files out of chunks. The mounts of
-- crates/steam-depot-mount address the files of several manifests by inodes.
--
-- Which file models which part:
--   Prelude.antt      shared names: tests, lists and hash maps over native numbers, decimals, integers
--   Outcome.antt      what a call returns: a value, an error, or a panic
--   Depot.antt        the manifest types of the crate `steam_vent_depot`; their accessors, whose code
--                     is not here, are the parameter `DepotApi`
--   ChunkStore.antt   the trait `ChunkStore` as a record of two state transitions, and `IsFaithful`, the
--                     law that its clients use and that the chunk cache fulfils
--   Frame.antt        crates/steam-depot-vfs/src/chunk_store/cache.rs: `encode_frame`; its children:
--                     `decode_frame` (Frame/Decode), the byte order (Frame/LittleEndian), the round trip
--                     (Frame/RoundTrip), what is accepted (Frame/Accepts)
--   Cache.antt        the same source: `ChunkDir` and `FsCacheStore` with `get`, `ensure`,
--                     `fetch_and_persist`, `read_verified`, `delete_corrupt`, `write_atomic`, `tmp_path`;
--                     Cache/Interfaces has the parameters and their laws, Cache/Laws the invariant,
--                     Cache/Locks `chunk_lock` and the tasks that use it, Cache/Sample an environment that
--                     satisfies the laws; the other children are proofs
--   Fs.antt           crates/steam-depot-vfs/src/fs.rs: `DepotManifestStore::{new, index_of, metadata,
--                     list_dir}`; Fs/Read has `read_into`, `read` and `read_full`, Fs/Reader `open_reader`,
--                     `Read` and `Seek`, Fs/Paths the path functions
--   Inode.antt        crates/steam-depot-mount/src/inode.rs: `pack` and `unpack`
--   Tree.antt         crates/steam-depot-mount/src/tree.rs: `MountTree` with all its operations; Tree/Shape
--                     and its neighbours have the shape of the directories, Tree/Valid the invariant,
--                     Tree/Abstract the partial map that the tree stands for, Tree/Runs sequences of calls
--   View.antt         crates/steam-depot-mount/src/view.rs: nodes, lookups, listings and `resolve`; an
--                     opener is a parameter that acts on the state of the outside
--   Nfs.antt          crates/steam-depot-mount/src/nfs.rs: the handlers of `NfsFs`
--   ManifestCache.antt  crates/steam-depot-vfs/src/manifest_cache.rs: `ManifestCache::{load, save,
--                     get_or_fetch}` and the mirror types (ManifestCache/Cached); the crate `postcard` and
--                     the file system are parameters
--   Config.antt       crates/steam-depot/src/config.rs, from the parsed TOML on
--   Cdn.antt          crates/steam-depot-vfs/src/chunk_store/cdn.rs: `CdnChunkStore`; the network is a
--                     parameter
--   Fuse.antt         crates/steam-depot-mount/src/fuse.rs: the handlers of the FUSE back end
--   Projfs.antt       crates/projfs/src/lib.rs: the callbacks and their enumeration sessions
--   ProjfsSource.antt  crates/steam-depot-mount/src/projfs.rs: what ProjFS shows of the mount tree
--   Shas.antt         `parse_sha` of crates/steam-depot/src/prefetch.rs, which stats.rs repeats
--   Prefetch.antt     crates/steam-depot/src/prefetch.rs: what is to be fetched, and the loop over the
--                     tasks in flight, which end in any order; Prefetch/Attempts has the passes of `run`
--   Verify.antt       crates/steam-depot/src/verify.rs: the pool of threads that checks the chunk files
--   Stats.antt        crates/steam-depot/src/stats.rs: the counters and the scan of the chunk directory
--   DepotKeys.antt    crates/steam-depot-vfs/src/depot_key_cache.rs: the keys and their cells
--   DepotStore.antt   crates/steam-depot-vfs/src/context.rs: opening a manifest; DepotStore/Directories has the
--                     listings, DepotStore/Reading a read through all layers
--   NfsSession.antt   crates/steam-depot-mount/src/nfs_session.rs on linux: the mount table;
--                     NfsSession/Mounting has `start`, `unmount` and `drop`, with a log of what is run,
--                     NfsSession/Snapshots `add`, `add_lazy` and `remove`
-- State is passed explicitly: an operation takes the state and returns its result with the new state.
-- A call of a third-party crate or of the operating system is a field of a record of parameters, which
-- keeps a state of its own and may fail at any call; what the code relies on of it is a record of laws
-- (`CodecLaws`, `DiskLaws`, `LruLaws`, `EnvLaws`), for which Cache/Sample has an instance. `wait_lock` stands
-- for what other tasks do to the shared state while a caller waits for a chunk's lock. `tokio::fs::File`
-- writes in the background, and `write_atomic` does not wait for it: `DiskLaws.write_ok` says only that a
-- first part of the bytes arrives, the contents are those once that write is done, and a read is taken
-- to come later. The invariant `IsHonest` of Cache/Laws is assumed of the state a store starts from: a
-- frame on disk that names the file it stands in is trusted by `read_verified`, which does not hash its
-- body.
--
-- Bounds and fuel. Byte strings are lists of numbers; `u64` additions that may wrap are taken
-- modulo 2 ^ 64, as a release build does; a buffer beyond `isize::MAX` panics. The loop of
-- `first_missing_component` runs on the length of the path and one more, since each round moves forward
-- by a character at least. `read_to_end` in Fs/Reader/Whole, the loop of a caller, takes its fuel as an
-- argument, and returns nothing if it runs out.
--
-- The wait for a forced unmount looks at the mount table at most 201 times: it lasts 10
-- seconds, in sleeps of 50 milliseconds. `run` of the prefetch makes at most three passes. Sequences of
-- calls on the mount tree are shorter than 2 ^ 47, as the index of a directory has 48 bits. Threads and
-- tasks are step relations or sequences of events, in any order.
--
-- Not modelled: logging, progress bars, printing and percentages, the asynchronous runtime, the time calls
-- take; the set up calls of Windows in crates/projfs; the sessions of FUSE and ProjFS, and of NFS on macOS; the
-- login, the entry point and the prune command; examples, benchmarks and demonstration binaries.
pub mod Prelude
pub mod Depot
pub mod Inode
pub mod Tree
pub mod View
pub mod Nfs
pub mod ManifestCache
pub mod Config
pub mod Shas
pub mod Prefetch
pub mod Cdn
pub mod Fuse
pub mod Projfs
pub mod ProjfsSource
pub mod Outcome
pub mod ChunkStore
pub mod Frame
pub mod Cache
pub mod Fs
pub mod Verify
pub mod Stats
pub mod DepotKeys
pub mod DepotStore
pub mod NfsSession
