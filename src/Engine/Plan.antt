-- ===== src/Engine/Plan.antt =====
-- core/src/sync_engine.rs: what a sync has to do, from the directory, the checkpoint and the server
-- manifest.
pub mod Ignored
use obsink.Base.{
  ℕ, Bool, true, false, not, ◌&&◌, ◌||◌, Option, none, some, List, [], ◌∷◌, filter, if◌then◌else◌,
}
use obsink.Base.Ord.{◌==◌, text_ord}
use obsink.Base.Text.{Text}
use obsink.Base.BTreeMap.{Map, get, insert, keys, contains}
use obsink.Base.Result.{Result, ok, err}
use obsink.Base.Io.{Io, ◌>>=◌, map_err, return}
use obsink.Types.{FileEntry, Manifest, SyncPlan}
use obsink.Manifest.{ManifestDiff, diff_manifests}
use obsink.Ignore.{IgnoreRules, is_ignored}
use obsink.Hasher.{
  File, HashCache, HasherError, empty, hash_cache_key_id, build_manifest_with_cache,
}
use obsink.Engine.{
  SyncEngineError, hasher, Device, Saved, missing, corrupt, saved, FileOp, read, load, save,
  hash_cache_file, Platform, VaultConfig, ignore_rules,
}
use obsink.Engine.Remote.{load_manifest_from_disk, fetch_remote_manifest}
use obsink.Engine.Downloads.{Pick, apply_downloads}

pub record LocalState : Type 0 where
  pub base : Manifest
  pub working : Manifest

abbrev pub keep : IgnoreRules → Manifest → Manifest
keep ignore = filter (λ (e : Text × FileEntry). not (is_ignored ignore e.0))

unfoldable pub diff_local_and_remote : Manifest → Manifest → Manifest → IgnoreRules → ManifestDiff
diff_local_and_remote base local remote ignore =
    diff_manifests (keep ignore base) (keep ignore local) (keep ignore remote)

-- The tombstone of a file that is no longer on disk.
unfoldable pub gone_entry : ℕ → FileEntry → FileEntry
gone_entry now entry = record {
  hash = entry.hash;
  modified = now;
  size = entry.size;
  deleted = true;
  enc_path = entry.enc_path;
}

unfoldable pub add_tombstones : ℕ → List Text → Manifest → Manifest → Manifest
unfolding gone_entry contains
add_tombstones now seen [] current = current
add_tombstones now seen ((path, entry) ∷ previous) current = add_tombstones now seen previous (
    if contains seen path || entry.deleted
    then current
    else insert path (gone_entry now entry) current)

-- `HashCache::load` of what is on disk.
unfoldable pub load_hash_cache : (Text → Text) → Saved HashCache → HashCache
unfolding empty hash_cache_key_id
load_hash_cache content_hmac missing = empty content_hmac (λ _. false)
load_hash_cache content_hmac corrupt = empty content_hmac (λ _. false)
load_hash_cache content_hmac (saved cache) =
    if cache.key_id == hash_cache_key_id content_hmac (λ _. false)
    then cache
    else empty content_hmac (λ _. false)

-- The walk's manifest with the tombstones of `previous`.
abbrev pub worked :
    ℕ
    → Manifest
    → Result HasherError (Manifest × HashCache)
    → Result SyncEngineError (Manifest × HashCache)
worked now previous (err e) = err (hasher e)
worked now previous (ok built) = ok (add_tombstones now (keys built.0) previous built.0, built.1)

module _ {W : Type 0} (p : Platform W) where
  unfoldable pub build_working_manifest :
      Manifest → HashCache → IgnoreRules → Device W → Result SyncEngineError (Manifest × HashCache)
  unfolding build_manifest_with_cache add_tombstones
  build_working_manifest previous cache ignore d = worked (p.clock d.net).0 previous (
      build_manifest_with_cache p.content_hmac (λ path. p.fails d (read path)) d.files cache ignore)

  -- A failed save is only logged.
  unfoldable pub save_hash_cache : HashCache → Device W → Device W
  save_hash_cache cache d =
      if p.fails d (save hash_cache_file) then d else record d { hash_cache = saved cache }

  unfoldable pub read_hash_cache : Device W → HashCache
  unfolding load_hash_cache
  read_hash_cache d =
      load_hash_cache p.content_hmac
        (if p.fails d (load hash_cache_file) then missing else d.hash_cache)

  abbrev pub local_state_of :
      Manifest
      → Result SyncEngineError (Manifest × HashCache)
      → Io SyncEngineError (Device W) LocalState
  local_state_of base (err e) d = (err e, d)
  local_state_of base (ok built) d =
      (ok (record { base = base; working = built.0 }), save_hash_cache built.1 d)

  abbrev pub with_base : IgnoreRules → Manifest → Io SyncEngineError (Device W) LocalState
  with_base ignore base d =
      local_state_of base (build_working_manifest base (read_hash_cache d) ignore d) d

  unfoldable pub load_local_state : IgnoreRules → Io SyncEngineError (Device W) LocalState
  unfolding load_manifest_from_disk build_working_manifest read_hash_cache save_hash_cache
  load_local_state ignore = load_manifest_from_disk p >>= with_base ignore

  abbrev pub plan_of : ManifestDiff → List Pick → Device W → SyncPlan × Device W
  plan_of diff schedule d =
      let (failures, d') = apply_downloads p schedule diff.download d in
      (
        record {
          upload = diff.upload;
          download = diff.download;
          conflicts = diff.conflicts;
          failures = failures;
        },
        d',
      )

  unfoldable pub prepare_sync : VaultConfig → List Pick → Io SyncEngineError (Device W) SyncPlan
  unfolding load_local_state fetch_remote_manifest diff_local_and_remote apply_downloads
      ignore_rules
  prepare_sync config schedule = do
    local_state ← load_local_state (ignore_rules config)
    remote_manifest ← fetch_remote_manifest p
    λ d.
        let diff =
          diff_local_and_remote local_state.base local_state.working remote_manifest
            (ignore_rules config) in
        let (plan, d') = plan_of diff schedule d in (ok plan, d')
