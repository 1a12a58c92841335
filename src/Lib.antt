-- ===== src/Lib.antt =====
-- ObSink: end-to-end encrypted file sync between devices and a server.
--
-- A client compares three manifests, those of the last checkpoint, of its folder and of the server,
-- and turns the differences into uploads, downloads and conflicts (core/src/manifest.rs). It sends
-- uploads in batches (core/src/sync_rules.rs); the server accepts a write only from a client that
-- presents the hash of the entry it replaces (server/src/routes/files.rs), and moves the file that
-- it replaces into a history (server/src/blobs.rs). After a sync the client stores a checkpoint
-- (core/src/sync_engine.rs); a daemon decides when to sync (core/src/daemon.rs).
-- Devices sign in with one-time codes and invites, and hand each other the account key through the
-- server (server/src/auth).
--
-- Files:
--   Base        lists, texts, maps and results that the components share. Numbers are natural, with
--               the wrap-around of `u64` written out where the code adds; a text is the list of its
--               Unicode scalar values; a `BTreeMap` is a sorted list of pairs.
--   Types       core/src/types.rs.
--   Manifest    core/src/manifest.rs: `diff_manifests` and `checkpoint_manifest`. The loop over the
--               paths is `foldl` over the sorted keys of the three manifests. Lookup says what the
--               loop decides for one path.
--   SyncRules   core/src/sync_rules.rs: `chunk_uploads`, whose loop is `chunk_loop`, and the
--               conflict choices.
--   Ignore      core/src/ignore.rs.
--   Pacing      core/src/pacing.rs, with a `Duration` in nanoseconds.
--   Hasher      core/src/hasher.rs and core/src/hash_cache.rs, over the map of a directory's files.
--   Client      core/src/api_client.rs: the requests of a sync. `Transport` is the connection, with the
--               JSON decoders and the ciphers of names.
--   Engine      core/src/sync_engine.rs. A `Device` is the state of the connection, the directory, and
--               the state files of a vault; each function takes it and gives the next one. `Platform`
--               says what the volume, the clock and the ciphers answer and which calls fail. Remote:
--               the manifest behind its ETag cache, and the checkpoint. Plan: `prepare_sync`.
--               Downloads: `apply_downloads`, where a schedule says which fetch starts or ends next.
--               Uploads: `run_uploads`. Complete: `apply_resolutions` and `complete_sync`.
--   Daemon      core/src/daemon.rs: the debouncer, the cycle and the branches of the loop.
--   Server      Error: server/src/error.rs. Blobs: server/src/blobs.rs, where a file system is a map
--               from paths to contents, and `Faults` says which calls fail. Db: the tables and the
--               statements on them. Files: server/src/routes/files.rs; a request is one transition
--               of tables and blobs, since its transaction holds the lock of the vault's row,
--               and `get_manifest` reads one snapshot of the tables (Files/Reads).
--               Batch: server/src/routes/batch.rs. Auth: server/src/auth, with Keys (keys.rs),
--               Approval (approval.rs), Email (email.rs) and Invites (invites.rs), Devices (the other
--               statements on users and devices), and with the requests as step relations in
--               Lifecycle and Once.
--   Tests       concrete requests and manifests.
--
-- The hash that names files (`path_name`, SHA-256 of a crate), the seal of a blob (AES-GCM of a
-- crate), the keyed hash of look-ups, base64 and the configured budget of a vault are parameters;
-- fresh codes and ids, the time and the outcome of a mail are arguments. The search for a free
-- history name has as many rounds as there are files, and one more, which is enough since the names
-- differ.
--
-- A device is fetched into by at most eight fetches at a time; a fetch looks at the stop flag when it
-- starts, and its request, its write and its verdict are one step when it ends. A schedule is a list
-- of such picks, and the pool runs by recursion on it, so no fuel is needed. A request is sent three
-- times at most, which is the recursion of `send_with`.
--
-- Not modelled: the HTTP layer and the serialisation, the cryptography, the sessions, the
-- pruning of versions and trash, progress events, the removal of empty directories, the channels and
-- the watcher of the daemon, the applications.
pub mod Base
pub mod Types
pub mod Client
pub mod Daemon
pub mod Engine
pub mod Hasher
pub mod Ignore
pub mod Manifest
pub mod Pacing
pub mod Server
pub mod SyncRules
pub mod Tests
